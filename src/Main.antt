-- ===== src/Main.antt =====
-- grpcurl-cli/src/main.rs: what the program tells of a call, and the code that it exits with.
pub mod Exit
pub mod Program
pub mod Sources
pub mod World
use grpcurl_rs.Base.{
  ℕ, ◌+◌, Text, text, List, [], ◌∷◌, ◌++◌, Bool, Option, none, some, if◌then◌else◌, ltb, ◌==◌,
}
use grpcurl_rs.Error.{Status, BoxError, code_number, is_ok_code}
use grpcurl_rs.Format.Output.{status_code_name}
use grpcurl_rs.Format.Status.{Details, write_status}
use grpcurl_rs.Invoke.Method.{Ended, returned, raised}
use grpcurl_rs.Invoke.Events.{Event, stdout, stderr, InvokeResult}

-- `STATUS_CODE_OFFSET`
abbrev pub status_code_offset : ℕ
status_code_offset = 64

-- What is printed, and the exit code.
abbrev pub Outcome : Type 0 → Type 0
Outcome Message = List (Event Message) × ℕ

module _ {Message : Type 0} (details : Details Message) (error_text : BoxError → Text) where
  abbrev counted : ℕ → Text → Text
  counted n word = details.decimal n ++ (text " " ++ (word ++ (if n == 1 then [] else text "s")))

  summary : ℕ → InvokeResult → List (Event Message)
  summary verbosity result =
      if ltb 0 verbosity
      then stdout (
          text "Sent "
          ++ (counted result.num_requests (text "request")
              ++ (text " and received "
                  ++ (counted result.num_responses (text "response") ++ text "\n"))))
        ∷ []
      else []

  tell_status : Bool → Status → Event Message
  tell_status format_error status =
      if format_error
      then stderr (
          text "ERROR:\n  Code: "
          ++ (status_code_name status.code
              ++ (text "\n  Message: " ++ (status.message ++ text "\n"))))
      else stderr (write_status details status none)

  unfoldable pub report_status : Bool → Option Status → Outcome Message
  unfolding tell_status
  report_status format_error none = ([], 0)
  report_status format_error (some status) =
      if is_ok_code status.code
      then ([], 0)
      else (tell_status format_error status ∷ [], status_code_offset + code_number status.code)

  -- What follows `run_invoke`.
  unfoldable pub report_call : ℕ → Bool → Text → Ended InvokeResult → Outcome Message
  unfolding summary
  report_call verbosity format_error symbol (returned result) =
      let (events, code) = report_status format_error result.status in
      (summary verbosity result ++ events, code)
  report_call verbosity format_error symbol (raised e) = (
    stderr (
          text "Error invoking method \""
          ++ (symbol ++ (text "\": " ++ (error_text e ++ text "\n"))))
        ∷ [],
    1,
  )
