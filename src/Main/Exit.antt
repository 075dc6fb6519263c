-- ===== src/Main/Exit.antt =====
-- The exit code of a call against its result.
use grpcurl_rs.Base.{
  ℕ, ◌+◌, ◌≤◌, Bool-cases, inl, inr, Text, Bool, true, false, Option, none, some, ◌≡◌, refl, arith,
}
use grpcurl_rs.Error.{Code, Status, BoxError, code_number, is_ok_code}
use grpcurl_rs.Format.Status.{Details}
use grpcurl_rs.Invoke.Method.{Ended, returned, raised}
use grpcurl_rs.Invoke.Events.{InvokeResult}
use grpcurl_rs.Main.{report_status, report_call}

-- What an exit code stands for: 0 for success, 1 for an error of the program, and
-- the number of a failed call's status past the offset.
pub data IsExit : Ended InvokeResult → ℕ → Type 0 where
  unknown_status : (result : InvokeResult) → result.status ≡ none → IsExit (returned result) 0
  success :
      (result : InvokeResult) (status : Status)
      → result.status ≡ some status
      → status.code ≡ Code.ok
      → IsExit (returned result) 0
  failure :
      (result : InvokeResult) (status : Status) (n : ℕ)
      → result.status ≡ some status
      → n ≡ code_number status.code
      → 1 ≤ n
      → n ≤ 16
      → IsExit (returned result) (64 + n)
  error : (e : BoxError) → IsExit (raised e) 1

is_ok_code-ok : (c : Code) → is_ok_code c ≡ true → c ≡ Code.ok
is_ok_code-ok Code.ok h = refl
is_ok_code-ok Code.cancelled h = cc
is_ok_code-ok Code.unknown h = cc
is_ok_code-ok Code.invalid_argument h = cc
is_ok_code-ok Code.deadline_exceeded h = cc
is_ok_code-ok Code.not_found h = cc
is_ok_code-ok Code.already_exists h = cc
is_ok_code-ok Code.permission_denied h = cc
is_ok_code-ok Code.resource_exhausted h = cc
is_ok_code-ok Code.failed_precondition h = cc
is_ok_code-ok Code.aborted h = cc
is_ok_code-ok Code.out_of_range h = cc
is_ok_code-ok Code.unimplemented h = cc
is_ok_code-ok Code.internal h = cc
is_ok_code-ok Code.unavailable h = cc
is_ok_code-ok Code.data_loss h = cc
is_ok_code-ok Code.unauthenticated h = cc

code_number_range : (c : Code) → is_ok_code c ≡ false → (1 ≤ code_number c) × (code_number c ≤ 16)
unfolding code_number
code_number_range Code.ok h = cc
code_number_range Code.cancelled h = (omega arith, omega arith)
code_number_range Code.unknown h = (omega arith, omega arith)
code_number_range Code.invalid_argument h = (omega arith, omega arith)
code_number_range Code.deadline_exceeded h = (omega arith, omega arith)
code_number_range Code.not_found h = (omega arith, omega arith)
code_number_range Code.already_exists h = (omega arith, omega arith)
code_number_range Code.permission_denied h = (omega arith, omega arith)
code_number_range Code.resource_exhausted h = (omega arith, omega arith)
code_number_range Code.failed_precondition h = (omega arith, omega arith)
code_number_range Code.aborted h = (omega arith, omega arith)
code_number_range Code.out_of_range h = (omega arith, omega arith)
code_number_range Code.unimplemented h = (omega arith, omega arith)
code_number_range Code.internal h = (omega arith, omega arith)
code_number_range Code.unavailable h = (omega arith, omega arith)
code_number_range Code.data_loss h = (omega arith, omega arith)
code_number_range Code.unauthenticated h = (omega arith, omega arith)

module _ {Message : Type 0} (details : Details Message) (error_text : BoxError → Text) where
  status-IsExit :
      (format_error : Bool) (result : InvokeResult) (o : Option Status)
      → result.status ≡ o
      → IsExit (returned result) (report_status details error_text format_error o).1
  unfolding report_status
  status-IsExit format_error result none e = unknown_status result e
  status-IsExit format_error result (some status) e = elim (Bool-cases (is_ok_code status.code)) [
    | inl k ↦ rw k (success result status e (is_ok_code-ok status.code k))
    | inr k ↦
        let (low, high) = code_number_range status.code k in
        rw k (failure result status (code_number status.code) e refl low high)
  ]

  -- The program exits with 0 after a call without a failed status, with 64 and the number of the
  -- status, from 1 to 16, after one with it, and with 1 after an error that has no status.
  pub report_call-IsExit :
      (verbosity : ℕ) (format_error : Bool) (symbol : Text) (ended : Ended InvokeResult)
      → IsExit ended (report_call details error_text verbosity format_error symbol ended).1
  unfolding report_call
  report_call-IsExit verbosity format_error symbol (returned result) =
      status-IsExit format_error result result.status refl
  report_call-IsExit verbosity format_error symbol (raised e) = error e
