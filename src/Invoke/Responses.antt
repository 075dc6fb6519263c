-- ===== src/Invoke/Responses.antt =====
-- How a call with a stream of responses ends, and what is told of it.
use grpcurl_rs.Base.{
  ℕ, ◌+◌, List, [], ◌∷◌, length, Bool, Option, none, some, ◌⊎◌, inl, inr, ◌≡◌, refl, ap, ◌∙◌, arith,
  ◌≢◌,
}
use grpcurl_rs.Error.{
  not_found, reflection_not_supported, invalid_argument, io, proto, grpc_status, other, Status,
  Metadata, BoxError, of_grpcurl, of_status, of_message,
}
use grpcurl_rs.Format.Requests.{Codec, RequestParser, num_requests}
use grpcurl_rs.Metadata.{Crates}
use grpcurl_rs.Invoke.Method.{Ended, returned, raised}
use grpcurl_rs.Invoke.Events.{
  Event, Run, Trailers, no_trailers, trailers, no_more, Stream, response, broke, closed, answered,
  Render, InvokeContext, InvokeResult,
}
use grpcurl_rs.Invoke.Calls.{
  ok_result, print_end, read_stream, finish_stream, call_streaming, print_response,
}
use grpcurl_rs.Invoke.Invocation.{extract_grpc_status, max_one, with_status, dispatch, run_call}

abbrev pub responses : {Message : Type 0} → Stream Message → List Message
responses (response m rest) = m ∷ responses rest
responses (broke status) = []
responses (closed end) = []

-- How a stream ends: with an error, or with its trailers.
abbrev pub closing : {Message : Type 0} → Stream Message → Status ⊎ Trailers
closing (response m rest) = closing rest
closing (broke status) = inl status
closing (closed end) = inr end

abbrev pub concluded : ℕ → ℕ → Status ⊎ Trailers → Ended InvokeResult
concluded requests received (inl status) = raised (of_status status)
concluded requests received (inr (no_more status)) = raised (of_status status)
concluded requests received (inr no_trailers) = returned (ok_result requests received)
concluded requests received (inr (trailers md)) = returned (ok_result requests received)

-- A boxed error that the source tells to be a status.
pub data HoldsStatus : BoxError → Type 0 where
  bare : (s : Status) → HoldsStatus (of_status s)
  wrapped : (s : Status) → HoldsStatus (of_grpcurl (grpc_status s))

holds_extracted : (e : BoxError) → HoldsStatus e → extract_grpc_status e ≢ inr e
unfolding extract_grpc_status
holds_extracted e (bare s) h = cc
holds_extracted e (wrapped s) h = cc

module _ {Message Value : Type 0} (codec : Codec Message Value) (crates : Crates)
    (render : Render Message) where
  abbrev read_end : ℕ → Status ⊎ Trailers → Ended (ℕ × Trailers)
  read_end n (inl status) = raised (of_status status)
  read_end n (inr end) = returned (n, end)

  read_stream-closing :
      (ctx : InvokeContext Message) (n formatted : ℕ) (stream : Stream Message)
      → (read_stream codec crates render ctx n formatted stream).1
        ≡ read_end (n + length (responses stream)) (closing stream)
  unfolding read_stream
  read_stream-closing ctx n formatted (response m rest) =
      read_stream-closing ctx (n + 1)
        (print_response codec crates render m ctx.formatter formatted ctx.verbosity (n + 1)).1 rest
      ∙ ap (λ k. read_end k (closing rest)) (omega arith)
  read_stream-closing ctx n formatted (broke status) = refl
  read_stream-closing ctx n formatted (closed end) = ap (λ k. read_end k (inr end)) (omega arith)

  finish_read :
      (ctx : InvokeContext Message) (count n : ℕ) (end : Trailers) (events : List (Event Message))
      → (finish_stream codec crates render ctx count (events, returned (n, end))).1
        ≡ concluded count n (inr end)
  unfolding finish_stream print_end
  finish_read ctx count n (trailers md) events = refl
  finish_read ctx count n no_trailers events = refl
  finish_read ctx count n (no_more status) events = refl

  finish-concluded :
      (ctx : InvokeContext Message) (count n : ℕ) (end : Status ⊎ Trailers)
      (run : Run Message (ℕ × Trailers))
      → run.1 ≡ read_end n end
      → (finish_stream codec crates render ctx count run).1 ≡ concluded count n end
  unfolding finish_stream print_end
  finish-concluded ctx count n (inl status) (events, raised e) h = ground (arith, h)
  finish-concluded ctx count n (inl status) (events, returned (k, t)) h = cc
  finish-concluded ctx count n (inr end) (events, raised e) h = cc
  finish-concluded ctx count n (inr end) (events, returned (k, t)) h =
      let number : k ≡ n = ground (arith, h) in
      let same : t ≡ end = ground (arith, h) in
      rw (number, same) (finish_read ctx count n end events)

  -- Where the server takes the call, it ends as the stream does: with the number of all its
  -- responses where the stream closes, and with the status that it breaks with.
  pub call_streaming-responses :
      (ctx : InvokeContext Message) (requests : List Message) (count : ℕ) (md : Metadata)
      (stream : Stream Message)
      → ctx.client.ready ≡ none
      → ctx.client.streaming ctx.path requests ctx.request_metadata ≡ answered (md, stream)
      → (call_streaming codec crates render ctx requests count).1
        ≡ concluded count (length (responses stream)) (closing stream)
  unfolding call_streaming read_stream finish_stream
  call_streaming-responses ctx requests count md stream ready answer =
      rw (ready, answer)
        (finish-concluded ctx count (length (responses stream)) (closing stream)
          (read_stream codec crates render ctx 0 0 stream)
          (read_stream-closing ctx 0 0 stream
            ∙ ap (λ k. read_end k (closing stream)) (omega arith)))

  extracted :
      (e : BoxError)
      → ((s : Status) × (extract_grpc_status e ≡ inl s)) ⊎ (extract_grpc_status e ≡ inr e)
  unfolding extract_grpc_status
  extracted (of_status s) = inl (s, refl)
  extracted (of_message t) = inr refl
  extracted (of_grpcurl (grpc_status s)) = inl (s, refl)
  extracted (of_grpcurl (not_found t)) = inr refl
  extracted (of_grpcurl reflection_not_supported) = inr refl
  extracted (of_grpcurl (invalid_argument t)) = inr refl
  extracted (of_grpcurl (io t)) = inr refl
  extracted (of_grpcurl (proto t)) = inr refl
  extracted (of_grpcurl (other t)) = inr refl

  with_status-other :
      (verbosity : ℕ) (call : Run Message InvokeResult × RequestParser)
      (events : List (Event Message)) (e : BoxError)
      → with_status codec crates render verbosity call ≡ (events, raised e)
      → extract_grpc_status e ≡ inr e
  unfolding with_status
  with_status-other verbosity ((printed, returned result), parser) events e h = ground (arith, h)
  with_status-other verbosity ((printed, raised f), parser) events e h = elim (extracted f) [
    | inl (s, k) ↦ ground (arith, h, k)
    | inr k ↦ ground (arith, h, k)
  ]

  some-with_status :
      (verbosity : ℕ) (o : Option (Run Message InvokeResult × RequestParser))
      (events : List (Event Message)) (e : BoxError)
      → (elim o [ some call ↦ some (with_status codec crates render verbosity call) | none ↦ none ])
        ≡ some (events, raised e)
      → extract_grpc_status e ≡ inr e
  some-with_status verbosity none events e h = cc
  some-with_status verbosity (some call) events e h =
      with_status-other verbosity call events e (ground (arith, h))

  -- An error that a call ends with is no status, neither a bare one nor one in an error of the
  -- program's own: a call that fails with a status gives a result.
  pub run_call-other :
      (fuel : ℕ) (is_client_stream is_server_stream : Bool) (ctx : InvokeContext Message)
      (events : List (Event Message)) (e : BoxError)
      → run_call codec crates render fuel is_client_stream is_server_stream ctx
        ≡ some (events, raised e)
      → ¬ HoldsStatus e
  unfolding run_call
  run_call-other fuel is_client_stream is_server_stream ctx events e h holds =
      holds_extracted e holds (
        some-with_status ctx.verbosity
          (dispatch codec crates render fuel is_client_stream is_server_stream ctx) events e h)

  status_reported :
      (verbosity : ℕ) (run : Run Message InvokeResult) (parser : RequestParser) (status : Status)
      → run.1 ≡ raised (of_status status)
      → (with_status codec crates render verbosity (run, parser)).1
        ≡ returned (record {
          status = some status;
          num_requests = max_one (num_requests codec parser);
          num_responses = 0;
        })
  unfolding with_status extract_grpc_status
  status_reported verbosity (events, returned result) parser status h = cc
  status_reported verbosity (events, raised e) parser status h =
      let same : e ≡ of_status status = ground (arith, h) in rw same refl

  -- Where the server takes the call, a stream that breaks with a status is reported with no
  -- response received, however many were received and printed before.
  pub broken_stream_reports_none :
      (ctx : InvokeContext Message) (requests : List Message) (count : ℕ) (md : Metadata)
      (stream : Stream Message) (parser : RequestParser) (status : Status)
      → ctx.client.ready ≡ none
      → ctx.client.streaming ctx.path requests ctx.request_metadata ≡ answered (md, stream)
      → closing stream ≡ inl status
      → (with_status codec crates render ctx.verbosity
          (call_streaming codec crates render ctx requests count, parser)).1
        ≡ returned (record {
          status = some status;
          num_requests = max_one (num_requests codec parser);
          num_responses = 0;
        })
  broken_stream_reports_none ctx requests count md stream parser status ready answer ends =
      status_reported ctx.verbosity (call_streaming codec crates render ctx requests count) parser
        status
        (call_streaming-responses ctx requests count md stream ready answer
          ∙ ap (concluded count (length (responses stream))) ends)
