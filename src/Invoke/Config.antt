-- ===== src/Invoke/Config.antt =====
-- grpcurl-core/src/commands/invoke.rs: the configuration of a call.
use grpcurl_rs.Base.{ℕ, Text, Bool, Option, List}
use grpcurl_rs.Base.Ints.{ℤ}
use grpcurl_rs.Format.{Format}

pub record InvokeConfig : Type 0 where
  pub format : Format
  pub emit_defaults : Bool
  pub allow_unknown_fields : Bool
  pub format_error : Bool
  pub payload : Option Text
  pub headers : List Text
  pub rpc_headers : List Text
  pub expand_headers : Bool
  pub max_msg_sz : Option ℤ
  pub verbosity : ℕ
  pub protoset_out : Option Text
  pub proto_out_dir : Option Text
