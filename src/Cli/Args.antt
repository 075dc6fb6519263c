-- ===== src/Cli/Args.antt =====
-- grpcurl-cli/src/cli.rs: the rewriting of Go-style single-dash flags.
pub mod Laws
use grpcurl_rs.Base.{
  ℕ, Text, text, text_eq, text_eq_iff, split_once, split_once_found, split_once-none, Lacks, List,
  [], ◌∷◌, ◌++◌, map, Bool, true, false, ◌||◌, Option, none, some, if◌then◌else◌, any, ◌==◌, ◌≡◌,
  refl, arith,
}

unfoldable pub long_flags : List Text
unfolding text
long_flags =
    text "plaintext"
    ∷ text "insecure"
    ∷ text "authority"
    ∷ text "servername"
    ∷ text "connect-timeout"
    ∷ text "keepalive-time"
    ∷ text "max-time"
    ∷ text "unix"
    ∷ text "cacert"
    ∷ text "cert"
    ∷ text "key"
    ∷ text "alts"
    ∷ text "alts-handshaker-service"
    ∷ text "alts-target-service-account"
    ∷ text "proto"
    ∷ text "import-path"
    ∷ text "protoset"
    ∷ text "use-reflection"
    ∷ text "format"
    ∷ text "allow-unknown-fields"
    ∷ text "emit-defaults"
    ∷ text "msg-template"
    ∷ text "format-error"
    ∷ text "rpc-header"
    ∷ text "reflect-header"
    ∷ text "expand-headers"
    ∷ text "user-agent"
    ∷ text "protoset-out"
    ∷ text "proto-out-dir"
    ∷ text "max-msg-sz"
    ∷ text "vv"
    ∷ text "help"
    ∷ text "version"
    ∷ []

-- `LONG_FLAGS.contains`
unfoldable pub is_long_flag : Text → Bool
is_long_flag name = any (text_eq name) long_flags

-- The first part of `rest.split('=')`.
unfoldable pub flag_name : Text → Text
flag_name rest = elim (split_once b'=' rest) [ none ↦ rest | some (name, value) ↦ name ]

starts_with_dash : Text → Bool
starts_with_dash [] = false
starts_with_dash (c ∷ s) = c == b'-'

-- The closure of `normalize_args`.
unfoldable pub normalize_arg : Text → Text
unfolding starts_with_dash
normalize_arg [] = []
normalize_arg (c ∷ rest) =
    if c == b'-'
    then (if starts_with_dash rest
        then c ∷ rest
        else if is_long_flag (flag_name rest)
        then b'-' ∷ c ∷ rest
        else c ∷ rest)
    else c ∷ rest

unfoldable pub normalize_args : List Text → List Text
unfolding normalize_arg
normalize_args = map normalize_arg
