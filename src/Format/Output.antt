-- ===== src/Format/Output.antt =====
-- grpcurl-core/src/format.rs: the formatters of responses, and the names of status codes.
use grpcurl_rs.Base.{
  ℕ, zero, suc, ◌+◌, Text, text, strip_prefix, is_whitespace, [], ◌∷◌, ◌++◌, Bool, not, ◌&&◌, ◌||◌,
  Option, none, some, if◌then◌else◌, ltb, ◌==◌, is_empty, length,
}
use grpcurl_rs.Error.{Code, Result, done, fail}
use grpcurl_rs.Format.{FormatOptions}

-- A formatter, with the number of messages that it has formatted: the text, and the next number.
abbrev pub Formatter : Type 0 → Type 0
Formatter Message = ℕ → Message → Result Text × ℕ

-- prost-reflect's serializer, its pretty text format, and the digits of `\d`.
pub record Printers (Message : Type 0) : Type 0 where
  -- `serialize_with_options`, with `skip_default_fields`
  pub serialize : Bool → Message → Result Text
  pub pretty_text : Message → Text
  pub is_digit : ℕ → Bool

module _ {Message : Type 0} (printers : Printers Message) where
  abbrev before_digits : ℕ → Text × Text → Text × Text
  before_digits c (digits, rest) = (c ∷ digits, rest)

  -- `\d+` as far as it goes
  span_digits : Text → Text × Text
  span_digits [] = ([], [])
  span_digits (c ∷ s) =
      let more = span_digits s in if printers.is_digit c then before_digits c more else ([], c ∷ s)

  closes_number : ℕ → Bool
  closes_number c = (c == b',') || is_whitespace c || (c == b'}') || (c == b']')

  -- What follows `.0`: the end, or one character that closes the number, which is kept.
  after_fraction : Text → Text → Option (Text × Text)
  unfolding closes_number
  after_fraction digits [] = some (text ": " ++ digits, [])
  after_fraction digits (c ∷ rest) =
      if closes_number c then some (text ": " ++ (digits ++ c ∷ []), rest) else none

  abbrev fraction : Text → Option Text → Option (Text × Text)
  fraction digits (some rest) = if is_empty digits then none else after_fraction digits rest
  fraction digits none = none

  -- A match of `FLOAT_REGEX` at the start of a text: its replacement, and the rest.
  float_at : Text → Option (Text × Text)
  unfolding span_digits after_fraction
  float_at s = elim (strip_prefix (text ": ") s) [
    | some after ↦ fraction (span_digits after).0 (strip_prefix (text ".0") (span_digits after).1)
    | none ↦ none
  ]

  replace_floats : ℕ → Text → Text
  unfolding float_at
  replace_floats zero s = s
  replace_floats (suc fuel) [] = []
  replace_floats (suc fuel) (c ∷ s) = elim (float_at (c ∷ s)) [
    | some (out, rest) ↦ out ++ replace_floats fuel rest
    | none ↦ c ∷ replace_floats fuel s
  ]

  -- Each round takes a character at least, so the length is fuel enough.
  unfoldable pub normalize_json_floats : Text → Text
  unfolding replace_floats
  normalize_json_floats json = replace_floats (length json) json

  unfoldable pub json_formatter : FormatOptions → Formatter Message
  json_formatter options n msg = elim (printers.serialize (not options.emit_defaults) msg) [
    | done json ↦ (done (normalize_json_floats json), n)
    | fail e ↦ (fail e, n)
  ]

  -- `trim_end_matches('\n')`
  trim_newlines : Text → Text
  trim_newlines [] = []
  trim_newlines (c ∷ s) =
      let rest = trim_newlines s in if (c == b'\n') && is_empty rest then [] else c ∷ rest

  unfoldable pub text_formatter : Bool → Formatter Message
  unfolding trim_newlines
  text_formatter use_separator n msg =
      let body = trim_newlines (printers.pretty_text msg) in
      (done (if use_separator && ltb 0 n then 0x1e ∷ body else body), n + 1)

unfoldable pub status_code_name : Code → Text
status_code_name Code.ok = text "OK"
status_code_name Code.cancelled = text "Canceled"
status_code_name Code.unknown = text "Unknown"
status_code_name Code.invalid_argument = text "InvalidArgument"
status_code_name Code.deadline_exceeded = text "DeadlineExceeded"
status_code_name Code.not_found = text "NotFound"
status_code_name Code.already_exists = text "AlreadyExists"
status_code_name Code.permission_denied = text "PermissionDenied"
status_code_name Code.resource_exhausted = text "ResourceExhausted"
status_code_name Code.failed_precondition = text "FailedPrecondition"
status_code_name Code.aborted = text "Aborted"
status_code_name Code.out_of_range = text "OutOfRange"
status_code_name Code.unimplemented = text "Unimplemented"
status_code_name Code.internal = text "Internal"
status_code_name Code.unavailable = text "Unavailable"
status_code_name Code.data_loss = text "DataLoss"
status_code_name Code.unauthenticated = text "Unauthenticated"
