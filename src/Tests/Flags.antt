-- ===== src/Tests/Flags.antt =====
-- Runs of the theorems on command lines.
use grpcurl_rs.Base.{ℕ, text, [], ◌∷◌, Bool, false, true, none, some, ◌≡◌, ◌⊎◌, ◌↔◌}
use grpcurl_rs.Format.{json}
use grpcurl_rs.Cli.{Cli, ParsedArgs, invoke}
use grpcurl_rs.Cli.Args.{normalize_arg}
use grpcurl_rs.Cli.Args.Laws.{normalize_arg_iff, IsGoFlag}
use grpcurl_rs.Cli.Validate.{accept, validate}
use grpcurl_rs.Cli.Validate.Rules.{HasValidFlags, HasValidSources, IsWellFormed, render}
use grpcurl_rs.Cli.Validate.Sound.{validate_iff}

normalize_arg_iff_example :
    ((normalize_arg (text "-max-time=3") ≡ text "-max-time=3")
      ⊎ (normalize_arg (text "-max-time=3") ≡ b'-' ∷ text "-max-time=3"))
    × ((normalize_arg (text "-max-time=3") ≡ b'-' ∷ text "-max-time=3")
        ↔ IsGoFlag (text "-max-time=3"))
normalize_arg_iff_example = normalize_arg_iff (text "-max-time=3")

abbrev pub never : ℕ → Bool
never t = false

-- `grpcurl --plaintext --max-time 3 localhost:80 a.B/C`
abbrev pub call_flags : Cli ℕ
call_flags = record {
  plaintext = true;
  insecure = false;
  authority = none;
  servername = none;
  connect_timeout = none;
  keepalive_time = none;
  max_time = some 3;
  unix = false;
  cacert = none;
  cert = none;
  key = none;
  alts = false;
  alts_handshaker_service = none;
  alts_target_service_account = [];
  proto = [];
  import_path = [];
  protoset = [];
  use_reflection = none;
  payload = none;
  format = json;
  allow_unknown_fields = false;
  emit_defaults = false;
  msg_template = false;
  format_error = false;
  header = [];
  rpc_header = [];
  reflect_header = [];
  expand_headers = false;
  user_agent = none;
  protoset_out = none;
  proto_out_dir = none;
  max_msg_sz = none;
  verbose = false;
  very_verbose = false;
  args = text "localhost:80" ∷ text "a.B/C" ∷ [];
}

abbrev pub call_parse : ParsedArgs
call_parse = record {
  address = some (text "localhost:80");
  command = invoke;
  symbol = some (text "a.B/C");
}

validate_iff_example : ((validate never call_flags).1 ≡ accept call_parse) ↔ (
    HasValidFlags never call_flags
    × IsWellFormed call_parse
    × (call_flags.args ≡ render call_parse)
    × HasValidSources never call_flags call_parse)
validate_iff_example = validate_iff never call_flags call_parse
