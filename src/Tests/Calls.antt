-- ===== src/Tests/Calls.antt =====
-- Runs of the theorems on calls: the server sends two responses, then breaks the stream.
use grpcurl_rs.Base.{
  Text, text, [], ◌∷◌, ◌++◌, trim, length, true, false, none, some, ◌≡◌, refl, arith,
}
use grpcurl_rs.Error.{Code, Status, other, BoxError, of_grpcurl, done}
use grpcurl_rs.Format.Requests.{text_parser, num_requests, next, text_next}
use grpcurl_rs.Format.Requests.Records.{start}
use grpcurl_rs.Invoke.Method.{returned, raised}
use grpcurl_rs.Invoke.Events.{
  Stream, response, broke, Client, answered, refused, Render, InvokeContext, InvokeResult, Run,
}
use grpcurl_rs.Invoke.Calls.{call_streaming, call_single, single_from, single_request, invoke_unary}
use grpcurl_rs.Invoke.Invocation.{extract_grpc_status, max_one, with_status, run_call, dispatch}
use grpcurl_rs.Invoke.Responses.{
  responses, closing, concluded, HoldsStatus, call_streaming-responses, run_call-other,
  broken_stream_reports_none,
}
use grpcurl_rs.Invoke.Termination.{run_call_total}
use grpcurl_rs.Tests.Requests.{letters, letters_take}
use grpcurl_rs.Tests.Headers.{plain_crates}

abbrev lost : Status
lost = record { code = Code.unavailable; message = text "gone"; details = []; metadata = [] }

abbrev two_then_lost : Stream Text
two_then_lost = response (b'1' ∷ []) (response (b'2' ∷ []) (broke lost))

abbrev pub breaking : Client Text
breaking = record {
  ready = none;
  single = λ path requests md. refused lost;
  streaming = λ path requests md. answered ([], two_then_lost);
}

abbrev pub plain_render : Render Text
plain_render = record {
  decimal = λ n. n ∷ [];
  debug = λ t. t;
  encoded_len = length;
  error_text = λ e. [];
}

abbrev context : InvokeContext Text
context = record {
  client = breaking;
  parser = text_parser (start []);
  path = text "/a.B/C";
  formatter = λ n m. (done m, n);
  request_metadata = [];
  verbosity = 0;
}

call_streaming-responses_example :
    (call_streaming letters plain_crates plain_render context ([] ∷ []) 1).1
    ≡ concluded 1 (length (responses two_then_lost)) (closing two_then_lost)
call_streaming-responses_example =
    call_streaming-responses letters plain_crates plain_render context ([] ∷ []) 1 [] two_then_lost
      refl refl

broken_stream_reports_none_example :
    (with_status letters plain_crates plain_render 0 (
      call_streaming letters plain_crates plain_render context ([] ∷ []) 1,
      text_parser (start []),
    )).1
    ≡ returned (record {
      status = some lost;
      num_requests = max_one (num_requests letters (text_parser (start [])));
      num_responses = 0;
    })
broken_stream_reports_none_example =
    broken_stream_reports_none letters plain_crates plain_render context ([] ∷ []) 1 []
      two_then_lost (text_parser (start [])) lost refl refl refl

abbrev unready : InvokeContext Text
unready = record context { client = record breaking { ready = some (text "closed") } }

abbrev not_ready : BoxError
not_ready = of_grpcurl (other (text "service not ready: " ++ text "closed"))

unready_raises :
    run_call letters plain_crates plain_render 5 false false unready ≡ some ([], raised not_ready)
unfolding run_call dispatch with_status extract_grpc_status invoke_unary single_request single_from
    next text_next trim call_single num_requests
unready_raises = refl

run_call-other_example : ¬ HoldsStatus not_ready
run_call-other_example =
    run_call-other letters plain_crates plain_render 5 false false unready [] not_ready
      unready_raises

run_call_total_example :
    (run : Run Text InvokeResult) × (run_call letters plain_crates plain_render 2 true true context
      ≡ some run)
run_call_total_example =
    run_call_total letters plain_crates plain_render letters_take 2 true true context (omega arith)
