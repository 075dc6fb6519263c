-- ===== src/Invoke/Events.antt =====
-- grpcurl-core/src/commands/invoke.rs: what a call does and what it is given, and the printing of
-- metadata.
use grpcurl_rs.Base.{
  ℕ, Text, text, text_eq, List, [], ◌∷◌, ◌++◌, Bool, ◌||◌, Option, if◌then◌else◌, ltb,
}
use grpcurl_rs.Error.{GrpcurlError, Status, Code, Header, ascii, binary, Metadata}
use grpcurl_rs.Format.Output.{Formatter}
use grpcurl_rs.Format.Requests.{RequestParser}
use grpcurl_rs.Metadata.{Crates, metadata_to_string}
use grpcurl_rs.Invoke.Method.{Ended}

pub data Event (Message : Type 0) : Type 0 where
  stdout : Text → Event Message
  stderr : Text → Event Message
  -- the path, the requests and their metadata
  sent : Text → List Message → Metadata → Event Message

-- What the code does, and how it ends.
abbrev pub Run : Type 0 → Type 0 → Type 0
Run Message A = List (Event Message) × Ended A

abbrev pub after : {Message A : Type 0} → List (Event Message) → Run Message A → Run Message A
after events run = (events ++ run.0, run.1)

-- The end of a stream of responses: `trailers` may be absent, or fail as well.
pub data Trailers : Type 0 where
  no_trailers : Trailers
  trailers : Metadata → Trailers
  no_more : Status → Trailers

-- What `message` yields in turn: the responses, then an error or the end.
pub data Stream (Message : Type 0) : Type 0 where
  response : Message → Stream Message → Stream Message
  broke : Status → Stream Message
  closed : Trailers → Stream Message

-- An answer of the server, or the status that it fails with.
pub data Answer (A : Type 0) : Type 0 where
  answered : A → Answer A
  refused : Status → Answer A

-- tonic's client over a channel: `ready`, then the calls with one response and with a stream, by
-- what they give for a path, the requests and the metadata.
pub record Client (Message : Type 0) : Type 0 where
  pub ready : Option Text
  pub single : Text → List Message → Metadata → Answer (Metadata × Message)
  pub streaming : Text → List Message → Metadata → Answer (Metadata × Stream Message)

-- Rust's formatting, and prost's `encoded_len`.
pub record Render (Message : Type 0) : Type 0 where
  pub decimal : ℕ → Text
  pub debug : Text → Text
  pub encoded_len : Message → ℕ
  pub error_text : GrpcurlError → Text

pub record InvokeContext (Message : Type 0) : Type 0 where
  pub client : Client Message
  pub parser : RequestParser
  pub path : Text
  pub formatter : Formatter Message
  pub request_metadata : Metadata
  pub verbosity : ℕ

pub record InvokeResult : Type 0 where
  pub status : Option Status
  pub num_requests : ℕ
  pub num_responses : ℕ

-- `tonic::Status::ok("")`
abbrev pub status_ok : Status
status_ok = record { code = Code.ok; message = []; details = []; metadata = [] }

is_internal : Text → Bool
is_internal k =
    text_eq k (text "grpc-status")
    || text_eq k (text "grpc-message")
    || text_eq k (text "grpc-encoding")

module _ (crates : Crates) where
  abbrev copy_header : Metadata → Header → Metadata
  copy_header filtered h = crates.append filtered h

  filter_headers : Metadata → Metadata → Metadata
  unfolding is_internal
  filter_headers filtered [] = filtered
  filter_headers filtered (ascii key value ∷ rest) =
      filter_headers (if is_internal key then filtered else copy_header filtered (ascii key value))
        rest
  filter_headers filtered (binary key raw ∷ rest) =
      filter_headers (copy_header filtered (binary key raw)) rest

  unfoldable pub filter_grpc_internal_headers : Metadata → Metadata
  unfolding filter_headers
  filter_grpc_internal_headers md = filter_headers [] md

  unfoldable pub print_metadata : {Message : Type 0} → Text → Metadata → ℕ → List (Event Message)
  print_metadata title md verbosity =
      if ltb 0 verbosity
      then stdout (
          text "\n"
          ++ (title
              ++ (text ":\n"
                  ++ (metadata_to_string crates (filter_grpc_internal_headers md) ++ text "\n"))))
        ∷ []
      else []

  abbrev pub print_response_headers : {Message : Type 0} → Metadata → ℕ → List (Event Message)
  print_response_headers = print_metadata (text "Response headers received")

  abbrev pub print_response_trailers : {Message : Type 0} → Metadata → ℕ → List (Event Message)
  print_response_trailers = print_metadata (text "Response trailers received")
