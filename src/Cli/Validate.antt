-- ===== src/Cli/Validate.antt =====
-- grpcurl-cli/src/validate.rs: the rules on flags and positional arguments, in the source's order.
-- What `warn` prints is collected beside the verdict.
pub mod Rules
pub mod Positional
pub mod Sound
use grpcurl_rs.Base.{
  Text, text, text_eq, List, [], ◌∷◌, ◌++◌, Bool, true, false, not, ◌&&◌, ◌||◌, Option, none, some,
  if◌then◌else◌, is_some, is_empty,
}
use grpcurl_rs.Base.Ints.{ℤ, is_negative}
use grpcurl_rs.Format.{is_json}
use grpcurl_rs.Cli.{Cli, Command, ParsedArgs, list, describe, invoke}

pub data Verdict {ℓ} (A : Type ℓ) : Type ℓ where
  accept : A → Verdict A
  reject : Text → Verdict A

-- The warnings printed so far, and the verdict.
abbrev pub Check : Type 0 → Type 0
Check A = List Text × Verdict A

abbrev continue : {A B : Type 0} → List Text → Verdict A → (A → Check B) → Check B
continue ws (accept a) k = (ws ++ (k a).0, (k a).1)
continue ws (reject msg) k = (ws, reject msg)

infixl 5 ◌>>=◌ ◌>>◌
abbrev pub ◌>>=◌ : {A B : Type 0} → Check A → (A → Check B) → Check B
m >>= k = continue m.0 m.1 k

abbrev pub ◌>>◌ : {B : Type 0} → Check (Unit {0}) → Check B → Check B
m >> k = m >>= λ _. k

-- `if c { return Err(msg) }`
abbrev pub reject_if : Bool → Text → Check (Unit {0})
reject_if c msg = ([], if c then reject msg else accept tt)

-- `if c { warn(msg) }`
abbrev pub warn_if : Bool → Text → Check (Unit {0})
warn_if c msg = (if c then msg ∷ [] else [], accept tt)

-- `if let Some(t) = o { if test(t) … }`
abbrev pub some_and {ℓ} : {A : Type ℓ} → (A → Bool) → Option A → Bool
some_and test none = false
some_and test (some a) = test a

-- `a != b` on truth values
abbrev pub differ : Bool → Bool → Bool
differ true b = not b
differ false b = b

-- `use_reflection == Some(false)`
abbrev pub is_some_false : Option Bool → Bool
is_some_false o = some_and not o

abbrev pub is_invoke : Command → Bool
is_invoke invoke = true
is_invoke _ = false

-- Rule 28, on the two server names.
unfoldable pub check_names : Option Text → Option Text → Check (Unit {0})
check_names none auth = ([], accept tt)
check_names (some sn) none = ([], accept tt)
check_names (some sn) (some auth) = do
  reject_if (not (text_eq sn auth))
      (text "Cannot specify different values for --servername and --authority.")
  warn_if (text_eq sn auth)
      (text "Both --servername and --authority are present; prefer only --authority.")

-- `lt_zero` is the test `t < 0.0` on `f64`.
module _ {Seconds : Type 0} (lt_zero : Seconds → Bool) (cli : Cli Seconds) where
  -- Rules 1 to 4.
  unfoldable pub check_values : Check (Unit {0})
  check_values = do
    reject_if (some_and lt_zero cli.connect_timeout)
        (text "The --connect-timeout argument must not be negative.")
    reject_if (some_and lt_zero cli.keepalive_time)
        (text "The --keepalive-time argument must not be negative.")
    reject_if (some_and lt_zero cli.max_time) (text "The --max-time argument must not be negative.")
    reject_if (some_and is_negative cli.max_msg_sz)
        (text "The --max-msg-sz argument must not be negative.")

  abbrev pub use_tls : Bool
  use_tls = not cli.plaintext && not cli.alts

  -- Rules 5 to 13.
  unfoldable pub check_tls : Check (Unit {0})
  check_tls = do
    reject_if (cli.plaintext && cli.alts)
        (text "The --plaintext and --alts arguments are mutually exclusive.")
    reject_if (cli.insecure && not use_tls)
        (text "The --insecure argument can only be used with TLS.")
    reject_if (is_some cli.cert && not use_tls)
        (text "The --cert argument can only be used with TLS.")
    reject_if (is_some cli.key && not use_tls)
        (text "The --key argument can only be used with TLS.")
    reject_if (differ (is_some cli.cert) (is_some cli.key))
        (text "The --cert and --key arguments must be used together and both be present.")
    reject_if (is_some cli.alts_handshaker_service && not cli.alts)
        (text "The --alts-handshaker-service argument must be used with the --alts argument.")
    reject_if (not (is_empty cli.alts_target_service_account) && not cli.alts)
        (text "The --alts-target-service-account argument must be used with the --alts argument.")
    warn_if (cli.emit_defaults && not (is_json cli.format))
        (text "The --emit-defaults is only used when using json format.")

  -- Rules 18 and 19, which warn of flags that only a call uses.
  unfoldable pub warn_unused : Check (Unit {0})
  warn_unused = do
    warn_if (is_some cli.payload)
        (text "The -d argument is not used with 'list' or 'describe' verb.")
    warn_if (not (is_empty cli.rpc_header))
        (text "The --rpc-header argument is not used with 'list' or 'describe' verb.")

  -- Rules 17 and 20, behind a verb: an optional symbol and nothing after it.
  unfoldable pub take_symbol : List Text → Check (Option Text)
  take_symbol [] = do warn_unused; ([], accept none)
  take_symbol (sym ∷ []) = do warn_unused; ([], accept (some sym))
  take_symbol (sym ∷ extra ∷ more) = do warn_unused; ([], reject (text "Too many arguments."))

  -- Rules 16, 17 and 20: the verb, or the method of a call.
  unfoldable pub take_command : Option Text → List Text → Check ParsedArgs
  take_command address [] = ([], reject (text "Too few arguments."))
  take_command address (word ∷ rest) =
      if text_eq word (text "list")
      then (do
        sym ← take_symbol rest
        ([], accept (record { address = address; command = list; symbol = sym })))
      else if text_eq word (text "describe")
      then (do
        sym ← take_symbol rest
        ([], accept (record { address = address; command = describe; symbol = sym })))
      else if is_empty rest
      then ([], accept (record { address = address; command = invoke; symbol = some word }))
      else ([], reject (text "Too many arguments."))

  -- Rules 14 and 15: a first argument that is no verb is the address.
  unfoldable pub parse_positional : List Text → Check ParsedArgs
  parse_positional [] = ([], reject (text "Too few arguments."))
  parse_positional (first ∷ rest) =
      if not (text_eq first (text "list")) && not (text_eq first (text "describe"))
      then take_command (some first) rest
      else take_command none (first ∷ rest)

  -- Rules 21 to 28.
  unfoldable pub check_sources : ParsedArgs → Check ParsedArgs
  check_sources p = do
    reject_if (is_invoke p.command && not (is_some p.address)) (text "No host:port specified.")
    reject_if (not (is_some p.address) && (is_empty cli.protoset && is_empty cli.proto))
        (text "No host:port specified, no protoset specified, and no proto sources specified.")
    warn_if (not (is_empty cli.protoset) && not (is_empty cli.reflect_header))
        (text "The --reflect-header argument is not used when --protoset files are used.")
    reject_if (not (is_empty cli.protoset) && not (is_empty cli.proto))
        (text "Use either --protoset files or --proto files, but not both.")
    warn_if (not (is_empty cli.import_path) && is_empty cli.proto)
        (text "The --import-path argument is not used unless --proto files are used.")
    reject_if (is_some_false cli.use_reflection && (is_empty cli.protoset && is_empty cli.proto))
        (text "No protoset files or proto files specified and --use-reflection set to false.")
    check_names cli.servername cli.authority
    ([], accept p)

  unfoldable pub validate : Check ParsedArgs
  validate = do check_values; check_tls; p ← parse_positional cli.args; check_sources p
