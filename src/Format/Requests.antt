-- ===== src/Format/Requests.antt =====
-- grpcurl-core/src/format.rs: the parsers of request data, and the loop of
-- grpcurl-core/src/commands/invoke.rs that reads all messages.
pub mod Progress
pub mod Records
use grpcurl_rs.Base.{
  ℕ, zero, suc, ◌+◌, ◌-◌, Text, text, text_eq, trim, trim_start, split_once, List, [], ◌∷◌, ◌++◌,
  Bool, true, false, not, Option, none, some, if◌then◌else◌, is_empty, length, drop, ◌==◌, ◌≡◌, ◌≤◌,
}
use grpcurl_rs.Error.{GrpcurlError, proto, io, Result, done, fail}
use grpcurl_rs.Format.{Format, json, text_format, FormatOptions}

-- What serde_json's stream yields on a text: a value and the characters that it took, a refusal,
-- or the end.
pub data Item (Value : Type 0) : Type 0 where
  value : Value → ℕ → Item Value
  malformed : Text → Item Value
  nothing : Item Value

-- A message, or the text of the error.
pub data Decoded (Message : Type 0) : Type 0 where
  message : Message → Decoded Message
  broken : Text → Decoded Message

-- serde_json and prost-reflect, for one message type.
pub record Codec (Message Value : Type 0) : Type 0 where
  -- `DynamicMessage::new`
  pub empty_message : Message
  -- `Deserializer::from_str(s).into_iter().next()`
  pub json_item : Text → Item Value
  -- `deserialize_with_options`, with `deny_unknown_fields`
  pub deserialize : Bool → Value → Decoded Message
  -- `parse_text_format`
  pub parse_text : Text → Decoded Message

-- `Result<DynamicMessage, ParseError>`
pub data Next (Message : Type 0) : Type 0 where
  parsed : Message → Next Message
  eof : Next Message
  error : GrpcurlError → Next Message

pub record JsonRequestParser : Type 0 where
  pub source : Text
  pub offset : ℕ
  pub num_requests : ℕ
  pub deny_unknown_fields : Bool

pub record TextRequestParser : Type 0 where
  pub source : Text
  pub offset : ℕ
  pub num_requests : ℕ

text_of : GrpcurlError → Text
text_of (io t) = t
text_of _ = []

-- The request data: `@` stands for the standard input, which may fail to be read.
unfoldable pub input : Result Text → Option Text → Result Text
unfolding text_of
input stdin none = done []
input stdin (some s) =
    if text_eq s (text "@")
    then elim stdin [
      | done buf ↦ done buf
      | fail e ↦ fail (io (text "reading stdin: " ++ text_of e))
    ]
    else done s

abbrev pub with_input {ℓ} : {A : Type ℓ} → Result Text → (Text → A) → Result A
with_input (done s) make = done (make s)
with_input (fail e) make = fail e

-- `JsonRequestParser::new`
unfoldable pub new_json : Result Text → Option Text → FormatOptions → Result JsonRequestParser
new_json stdin payload options = with_input (input stdin payload) (λ s. record {
  source = s;
  offset = 0;
  num_requests = 0;
  deny_unknown_fields = not options.allow_unknown_fields;
})

-- `TextRequestParser::new`
unfoldable pub new_text : Result Text → Option Text → Result TextRequestParser
new_text stdin payload =
    with_input (input stdin payload) (λ s. record { source = s; offset = 0; num_requests = 0 })

pub data RequestParser : Type 0 where
  json_parser : JsonRequestParser → RequestParser
  text_parser : TextRequestParser → RequestParser

-- The record separator.
abbrev pub separator : ℕ
separator = 0x1e

module _ {Message Value : Type 0} (codec : Codec Message Value) where
  abbrev decoded : Text → Decoded Message → Next Message
  decoded context (message m) = parsed m
  decoded context (broken e) = error (proto (context ++ e))

  -- `JsonRequestParser::next`, past the white space.
  json_next_item : JsonRequestParser → Item Value → Next Message × JsonRequestParser
  json_next_item p (value v consumed) = (
    decoded (text "failed to parse JSON request: ") (codec.deserialize p.deny_unknown_fields v),
    record p { offset = p.offset + consumed; num_requests = p.num_requests + 1 },
  )
  json_next_item p (malformed e) = (error (proto (text "invalid JSON in request data: " ++ e)), p)
  json_next_item p nothing = (eof, p)

  unfoldable pub json_next : JsonRequestParser → Next Message × JsonRequestParser
  unfolding json_next_item
  json_next p =
      let remaining = drop p.offset p.source in
      let trimmed = trim_start remaining in
      if is_empty trimmed
      then (eof, p)
      else json_next_item (record p { offset = p.offset + (length remaining - length trimmed) })
          (codec.json_item trimmed)

  -- The text up to a separator or the end, and the characters taken.
  unfoldable pub cut_record : Text → Text × ℕ
  cut_record remaining = elim (split_once separator remaining) [
    | some (before, after) ↦ (before, length before + 1)
    | none ↦ (remaining, length remaining)
  ]

  -- `TextRequestParser::next` on a record that is cut out.
  unfoldable pub text_next_record : TextRequestParser → Text × ℕ → Next Message × TextRequestParser
  text_next_record p (cut, consumed) =
      let body = trim cut in
      let q : TextRequestParser = record p { offset = p.offset + consumed } in
      let counted : TextRequestParser = record q { num_requests = p.num_requests + 1 } in
      if is_empty body
      then (if p.num_requests == 0 then (parsed codec.empty_message, counted) else (eof, q))
      else (decoded (text "failed to parse text format request: ") (codec.parse_text body), counted)

  unfoldable pub text_next : TextRequestParser → Next Message × TextRequestParser
  text_next p =
      let remaining = drop p.offset p.source in
      if is_empty (trim remaining)
      then (if p.num_requests == 0
          then (
            parsed codec.empty_message,
            record p { offset = length p.source; num_requests = p.num_requests + 1 },
          )
          else (eof, p))
      else text_next_record p (cut_record remaining)

  -- `RequestParser::next`
  unfoldable pub next : RequestParser → Next Message × RequestParser
  next (json_parser p) = ((json_next p).0, json_parser (json_next p).1)
  next (text_parser p) = ((text_next p).0, text_parser (text_next p).1)

  unfoldable pub num_requests : RequestParser → ℕ
  num_requests (json_parser p) = p.num_requests
  num_requests (text_parser p) = p.num_requests

  -- The parser that `run_invoke` builds.
  unfoldable pub new_parser :
      Result Text → Format → Option Text → FormatOptions → Result RequestParser
  new_parser stdin json payload options = elim (new_json stdin payload options) [
    | done p ↦ done (json_parser p)
    | fail e ↦ fail e
  ]
  new_parser stdin text_format payload options = elim (new_text stdin payload) [
    | done p ↦ done (text_parser p)
    | fail e ↦ fail e
  ]

  -- `collect_all_messages` with fuel; `none` means that the fuel ran out.
  unfoldable pub collect :
      ℕ → RequestParser → List Message → Option (Result (List Message) × RequestParser)
  collect zero p messages = none
  collect (suc fuel) p messages = elim (next p).0 [
    | parsed m ↦ collect fuel (next p).1 (messages ++ m ∷ [])
    | eof ↦ some (done messages, (next p).1)
    | error e ↦ some (fail e, (next p).1)
  ]

-- The documented behaviour of the stream: a value takes at least one character of the text.
abbrev pub Takes : {Message Value : Type 0} → Codec Message Value → Type 0
Takes {Value} codec =
    (s : Text) (v : Value) (n : ℕ) → codec.json_item s ≡ value v n → (1 ≤ n) × (n ≤ length s)
