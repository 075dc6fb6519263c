-- ===== src/Error.antt =====
-- grpcurl-core/src/error.rs: the library's errors, with `tonic::Status` as the parts that the
-- source reads. An I/O error and a boxed error are kept as their messages.
use grpcurl_rs.Base.{◌≡◌, refl, ◌⊎◌, inl, inr, ℕ, Text, text, List, ◌++◌, Bool, true, false}

-- `tonic::Code`
pub data Code : Type 0 where
  ok cancelled unknown invalid_argument deadline_exceeded not_found already_exists : Code
  permission_denied resource_exhausted failed_precondition aborted out_of_range : Code
  unimplemented internal unavailable data_loss unauthenticated : Code

-- The number that `code as i32` gives.
unfoldable pub code_number : Code → ℕ
code_number Code.ok = 0
code_number Code.cancelled = 1
code_number Code.unknown = 2
code_number Code.invalid_argument = 3
code_number Code.deadline_exceeded = 4
code_number Code.not_found = 5
code_number Code.already_exists = 6
code_number Code.permission_denied = 7
code_number Code.resource_exhausted = 8
code_number Code.failed_precondition = 9
code_number Code.aborted = 10
code_number Code.out_of_range = 11
code_number Code.unimplemented = 12
code_number Code.internal = 13
code_number Code.unavailable = 14
code_number Code.data_loss = 15
code_number Code.unauthenticated = 16

-- `code() == Code::Unimplemented`
abbrev pub is_unimplemented_code : Code → Bool
is_unimplemented_code Code.unimplemented = true
is_unimplemented_code _ = false

-- `code() == Code::Ok`
abbrev pub is_ok_code : Code → Bool
is_ok_code Code.ok = true
is_ok_code _ = false

-- One header: its key, and an ASCII value or the encoded form of a binary one.
pub data Header : Type 0 where
  ascii : (key value : Text) → Header
  binary : (key raw : Text) → Header

-- A `MetadataMap`, as what its iterator yields.
abbrev pub Metadata : Type 0
Metadata = List Header

-- `tonic::Status`
pub record Status : Type 0 where
  pub code : Code
  pub message : Text
  pub details : List ℕ
  pub metadata : Metadata

pub data GrpcurlError : Type 0 where
  not_found : Text → GrpcurlError
  reflection_not_supported : GrpcurlError
  invalid_argument : Text → GrpcurlError
  io : Text → GrpcurlError
  proto : Text → GrpcurlError
  grpc_status : Status → GrpcurlError
  other : Text → GrpcurlError

-- The `Display` text, given that of a code.
unfoldable pub display : (Code → Text) → GrpcurlError → Text
unfolding text
display code_text (GrpcurlError.not_found name) = text "Symbol not found: " ++ name
display code_text GrpcurlError.reflection_not_supported =
    text "server does not support the reflection API"
display code_text (GrpcurlError.invalid_argument msg) = text "invalid argument: " ++ msg
display code_text (GrpcurlError.io err) = text "I/O error: " ++ err
display code_text (GrpcurlError.proto msg) = text "proto error: " ++ msg
display code_text (GrpcurlError.grpc_status status) =
    text "gRPC error: " ++ (code_text status.code ++ (text " - " ++ status.message))
display code_text (GrpcurlError.other err) = err

pub data Result {ℓ} (A : Type ℓ) : Type ℓ where
  done : A → Result A
  fail : GrpcurlError → Result A

pub Result-cases {ℓ} :
    {A : Type ℓ} (r : Result A) → ((a : A) × (r ≡ done a)) ⊎ ((e : GrpcurlError) × (r ≡ fail e))
Result-cases (done a) = inl (a, refl)
Result-cases (fail e) = inr (e, refl)

infixl 5 ◌>>=◌
abbrev pub ◌>>=◌ {ℓ κ} : {A : Type ℓ} {B : Type κ} → Result A → (A → Result B) → Result B
done a >>= f = f a
fail e >>= f = fail e

-- What a function that may panic comes to.
pub data Panicking {ℓ} (A : Type ℓ) : Type ℓ where
  returns : A → Panicking A
  panics : Panicking A

pub Panicking-cases {ℓ} :
    {A : Type ℓ} (x : Panicking A) → ((a : A) × (x ≡ returns a)) ⊎ (x ≡ panics)
Panicking-cases (returns a) = inl (a, refl)
Panicking-cases panics = inr refl

-- The next step, behind a result: not after an error, nor after a panic.
infixl 5 ◌>>>◌
abbrev pub ◌>>>◌ {ℓ κ} :
    {A : Type ℓ} {B : Type κ}
    → Panicking (Result A)
    → (A → Panicking (Result B))
    → Panicking (Result B)
panics >>> f = panics
returns (done a) >>> f = f a
returns (fail e) >>> f = returns (fail e)

-- `Box<dyn Error>`: the values that the source boxes and that it can tell apart.
pub data BoxError : Type 0 where
  of_grpcurl : GrpcurlError → BoxError
  of_status : Status → BoxError
  of_message : Text → BoxError
