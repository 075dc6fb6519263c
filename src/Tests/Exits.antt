-- ===== src/Tests/Exits.antt =====
-- A run of the theorem on exit codes: the call fails as the server is unavailable.
use grpcurl_rs.Base.{Text, text, [], ◌∷◌, false, none, some}
use grpcurl_rs.Error.{Code, BoxError}
use grpcurl_rs.Format.Status.{Details}
use grpcurl_rs.Invoke.Method.{returned}
use grpcurl_rs.Invoke.Events.{InvokeResult}
use grpcurl_rs.Main.{report_call}
use grpcurl_rs.Main.Exit.{IsExit, report_call-IsExit}

abbrev pub no_details : Details Text
no_details = record {
  decode_details = λ bytes. none;
  get_message_by_name = λ name. none;
  decimal = λ n. n ∷ [];
}

abbrev pub no_text : BoxError → Text
no_text e = []

abbrev unavailable : InvokeResult
unavailable = record {
  status =
      some (record { code = Code.unavailable; message = text "gone"; details = []; metadata = [] });
  num_requests = 1;
  num_responses = 0;
}

report_call-IsExit_example :
    IsExit
      (returned unavailable)
      (report_call no_details no_text 1 false (text "a.B/C") (returned unavailable)).1
report_call-IsExit_example =
    report_call-IsExit no_details no_text 1 false (text "a.B/C") (returned unavailable)
