-- ===== src/Invoke/Termination.antt =====
-- A call ends: the only loop without a bound of its own is the reading of the request data.
use grpcurl_rs.Base.{ℕ, ◌<◌, List, [], Bool, true, false, Option, some, ◌≡◌, refl, ap}
use grpcurl_rs.Error.{Result, done, fail}
use grpcurl_rs.Format.Requests.{Codec, RequestParser, collect, Takes}
use grpcurl_rs.Format.Requests.Progress.{remaining, collect_total}
use grpcurl_rs.Metadata.{Crates}
use grpcurl_rs.Invoke.Events.{Run, Render, InvokeContext, InvokeResult}
use grpcurl_rs.Invoke.Calls.{
  with_requests, call_single, call_streaming, invoke_client_stream, invoke_bidi_stream,
}
use grpcurl_rs.Invoke.Invocation.{with_status, dispatch, run_call}

module _ {Message Value : Type 0} (codec : Codec Message Value) (crates : Crates)
    (render : Render Message) (takes : Takes codec) where
  with_requests_total :
      (call : List Message → ℕ → Run Message InvokeResult)
      (o : Option (Result (List Message) × RequestParser))
      (r : Result (List Message) × RequestParser)
      → o ≡ some r
      → (out : Run Message InvokeResult × RequestParser) × (with_requests codec crates render call o
          ≡ some out)
  with_requests_total call o (done messages, parser) e =
      (_, ap (with_requests codec crates render call) e)
  with_requests_total call o (fail f, parser) e = (_, ap (with_requests codec crates render call) e)

  dispatch_total :
      (fuel : ℕ) (is_client_stream is_server_stream : Bool) (ctx : InvokeContext Message)
      → remaining codec takes ctx.parser < fuel
      → (out : Run Message InvokeResult × RequestParser) × (dispatch codec crates render fuel
            is_client_stream is_server_stream ctx
          ≡ some out)
  unfolding dispatch invoke_client_stream invoke_bidi_stream
  dispatch_total fuel false false ctx h = (_, refl)
  dispatch_total fuel false true ctx h = (_, refl)
  dispatch_total fuel true false ctx h =
      let (r, ends, counted) = collect_total codec takes fuel ctx.parser [] h in
      with_requests_total (call_single codec crates render ctx) (collect codec fuel ctx.parser []) r
        ends
  dispatch_total fuel true true ctx h =
      let (r, ends, counted) = collect_total codec takes fuel ctx.parser [] h in
      with_requests_total (call_streaming codec crates render ctx)
        (collect codec fuel ctx.parser []) r ends

  -- Where each value takes a character at least and no more than there are, a call of each kind ends
  -- with fuel above what is left of its request data.
  pub run_call_total :
      (fuel : ℕ) (is_client_stream is_server_stream : Bool) (ctx : InvokeContext Message)
      → remaining codec takes ctx.parser < fuel
      → (run : Run Message InvokeResult) × (run_call codec crates render fuel is_client_stream
            is_server_stream ctx
          ≡ some run)
  unfolding run_call
  run_call_total fuel is_client_stream is_server_stream ctx h =
      let (out, e) = dispatch_total fuel is_client_stream is_server_stream ctx h in
      (with_status codec crates render ctx.verbosity out, rw (e, run_call) refl)
