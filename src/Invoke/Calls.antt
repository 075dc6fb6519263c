-- ===== src/Invoke/Calls.antt =====
-- grpcurl-core/src/commands/invoke.rs: a call of each kind, and `run_invoke`. What the code does is
-- a sequence of events: the text it prints, and the requests it hands to the channel.
use grpcurl_rs.Base.{
  ℕ, ◌+◌, Text, text, List, [], ◌∷◌, ◌++◌, Option, none, some, if◌then◌else◌, ltb,
}
use grpcurl_rs.Error.{other, Result, done, fail, of_grpcurl, of_status, of_message}
use grpcurl_rs.Format.Output.{Formatter}
use grpcurl_rs.Format.Requests.{
  Codec, Next, parsed, eof, error, RequestParser, next, num_requests, collect,
}
use grpcurl_rs.Metadata.{Crates}
use grpcurl_rs.Invoke.Method.{Ended, returned, raised}
use grpcurl_rs.Invoke.Events.{
  Event, stdout, stderr, sent, Run, after, Trailers, no_trailers, trailers, no_more, Stream,
  response, broke, closed, answered, refused, Render, InvokeContext, InvokeResult, status_ok,
  print_response_headers, print_response_trailers,
}

unfoldable pub ok_result : ℕ → ℕ → InvokeResult
ok_result requests responses = record {
  status = some status_ok;
  num_requests = requests;
  num_responses = responses;
}

module _ {Message Value : Type 0} (codec : Codec Message Value) where
  abbrev pub single_second :
      Text → Message → Next Message × RequestParser → Ended Message × RequestParser
  single_second refusal m (parsed _, parser) = (raised (of_message refusal), parser)
  single_second refusal m (error e, parser) = (raised (of_grpcurl e), parser)
  single_second refusal m (eof, parser) = (returned m, parser)

  -- The one request: none stands for the empty message. The same parser is asked again, and must be
  -- at its end.
  unfoldable pub single_from : Text → Next Message × RequestParser → Ended Message × RequestParser
  single_from refusal (parsed m, parser) = single_second refusal m (next codec parser)
  single_from refusal (eof, parser) = single_second refusal codec.empty_message (next codec parser)
  single_from refusal (error e, parser) = (raised (of_grpcurl e), parser)

  unfoldable pub single_request : Text → RequestParser → Ended Message × RequestParser
  single_request refusal parser = single_from refusal (next codec parser)

module _ {Message Value : Type 0} (codec : Codec Message Value) (crates : Crates)
    (render : Render Message) where
  abbrev formatted : ℕ → Result Text → Event Message
  formatted response_num (done output) = stdout (output ++ text "\n")
  formatted response_num (fail e) = stderr (
      text "Failed to format response message "
      ++ (render.decimal response_num ++ (text ": " ++ (render.error_text e ++ text "\n"))))

  -- `print_response`: the events, and the number of messages the formatter has formatted since.
  unfoldable pub print_response : Message → Formatter Message → ℕ → ℕ → ℕ → List (Event Message) × ℕ
  print_response msg formatter formatted_before verbosity response_num =
      let (output, formatted_now) = formatter formatted_before msg in
      (
        (if ltb 1 verbosity
              then stdout (
                  text "\nEstimated response size: "
                  ++ (render.decimal (render.encoded_len msg) ++ text " bytes\n"))
                ∷ []
              else [])
            ++ (if ltb 0 verbosity then stdout (text "\nResponse contents:\n") ∷ [] else [])
            ++ formatted response_num output ∷ [],
        formatted_now,
      )

  -- A call with one response, from `ready` on.
  unfoldable pub call_single : InvokeContext Message → List Message → ℕ → Run Message InvokeResult
  call_single ctx requests count = elim ctx.client.ready [
    | some e ↦ ([], raised (of_grpcurl (other (text "service not ready: " ++ e))))
    | none ↦
        after (sent ctx.path requests ctx.request_metadata ∷ [])
          (elim (ctx.client.single ctx.path requests ctx.request_metadata) [
            | refused status ↦ ([], raised (of_status status))
            | answered (md, msg) ↦ (
              print_response_headers crates md ctx.verbosity
                  ++ (print_response msg ctx.formatter 0 ctx.verbosity 1).0
                  ++ print_response_trailers crates md ctx.verbosity,
              returned (ok_result count 1),
            )
          ])
  ]

  unfoldable pub print_end : Trailers → ℕ → Run Message (Unit {0})
  print_end (trailers md) verbosity = (print_response_trailers crates md verbosity, returned tt)
  print_end no_trailers verbosity =
      (if ltb 0 verbosity then print_response_trailers crates [] verbosity else [], returned tt)
  print_end (no_more status) verbosity = ([], raised (of_status status))

  -- The loop over the responses, with the number read and the number formatted so far.
  unfoldable pub read_stream :
      InvokeContext Message → ℕ → ℕ → Stream Message → Run Message (ℕ × Trailers)
  read_stream ctx num_responses formatted_before (response msg rest) =
      let (events, formatted_now) =
        print_response msg ctx.formatter formatted_before ctx.verbosity (num_responses + 1) in
      after events (read_stream ctx (num_responses + 1) formatted_now rest)
  read_stream ctx num_responses formatted_before (broke status) = ([], raised (of_status status))
  read_stream ctx num_responses formatted_before (closed end) = ([], returned (num_responses, end))

  unfoldable pub finish_stream :
      InvokeContext Message → ℕ → Run Message (ℕ × Trailers) → Run Message InvokeResult
  finish_stream ctx count (events, raised e) = (events, raised e)
  finish_stream ctx count (events, returned (num_responses, end)) =
      elim (print_end end ctx.verbosity).1 [
        | raised e ↦ (events ++ (print_end end ctx.verbosity).0, raised e)
        | returned _ ↦
            (events ++ (print_end end ctx.verbosity).0, returned (ok_result count num_responses))
      ]

  -- A call with a stream of responses, from `ready` on.
  unfoldable pub call_streaming :
      InvokeContext Message → List Message → ℕ → Run Message InvokeResult
  call_streaming ctx requests count = elim ctx.client.ready [
    | some e ↦ ([], raised (of_grpcurl (other (text "service not ready: " ++ e))))
    | none ↦
        after (sent ctx.path requests ctx.request_metadata ∷ [])
          (elim (ctx.client.streaming ctx.path requests ctx.request_metadata) [
            | refused status ↦ ([], raised (of_status status))
            | answered (md, stream) ↦
                after (print_response_headers crates md ctx.verbosity)
                  (finish_stream ctx count (read_stream ctx 0 0 stream))
          ])
  ]

  abbrev refusal_of : Text → Text → Text
  refusal_of kind path =
      text "method "
      ++ (render.debug path
          ++ (text " is a "
              ++ (kind ++ text " RPC, but request data contained more than 1 message")))

  abbrev pub with_request :
      (List Message → ℕ → Run Message InvokeResult)
      → Ended Message × RequestParser
      → Run Message InvokeResult × RequestParser
  with_request call (returned m, parser) = (call (m ∷ []) (num_requests codec parser), parser)
  with_request call (raised e, parser) = (([], raised e), parser)

  unfoldable pub invoke_unary : InvokeContext Message → Run Message InvokeResult × RequestParser
  invoke_unary ctx =
      with_request (call_single ctx)
        (single_request codec (refusal_of (text "unary") ctx.path) ctx.parser)

  unfoldable pub invoke_server_stream :
      InvokeContext Message → Run Message InvokeResult × RequestParser
  invoke_server_stream ctx =
      with_request (call_streaming ctx)
        (single_request codec (refusal_of (text "server-streaming") ctx.path) ctx.parser)

  -- All messages are read before the call; `none` means that the fuel ran out.
  abbrev pub with_requests :
      (List Message → ℕ → Run Message InvokeResult)
      → Option (Result (List Message) × RequestParser)
      → Option (Run Message InvokeResult × RequestParser)
  with_requests call none = none
  with_requests call (some (done messages, parser)) =
      some (call messages (num_requests codec parser), parser)
  with_requests call (some (fail e, parser)) = some (([], raised (of_grpcurl e)), parser)

  unfoldable pub invoke_client_stream :
      ℕ → InvokeContext Message → Option (Run Message InvokeResult × RequestParser)
  invoke_client_stream fuel ctx = with_requests (call_single ctx) (collect codec fuel ctx.parser [])

  unfoldable pub invoke_bidi_stream :
      ℕ → InvokeContext Message → Option (Run Message InvokeResult × RequestParser)
  invoke_bidi_stream fuel ctx =
      with_requests (call_streaming ctx) (collect codec fuel ctx.parser [])
