-- ===== src/Cli.antt =====
-- grpcurl-cli/src/cli.rs: the command line's flags, and the configurations built from them.
pub mod Args
pub mod Validate
use grpcurl_rs.Base.{ℕ, Text, Bool, Option, List, if◌then◌else◌}
use grpcurl_rs.Base.Ints.{ℤ}
use grpcurl_rs.Format.{Format}
use grpcurl_rs.Connection.{ConnectionConfig}
use grpcurl_rs.Invoke.Config.{InvokeConfig}

-- The flags after parsing. `Seconds` stands for `f64`.
pub record Cli (Seconds : Type 0) : Type 0 where
  pub plaintext : Bool
  pub insecure : Bool
  pub authority : Option Text
  pub servername : Option Text
  pub connect_timeout : Option Seconds
  pub keepalive_time : Option Seconds
  pub max_time : Option Seconds
  pub unix : Bool
  pub cacert : Option Text
  pub cert : Option Text
  pub key : Option Text
  pub alts : Bool
  pub alts_handshaker_service : Option Text
  pub alts_target_service_account : List Text
  pub proto : List Text
  pub import_path : List Text
  pub protoset : List Text
  pub use_reflection : Option Bool
  pub payload : Option Text
  pub format : Format
  pub allow_unknown_fields : Bool
  pub emit_defaults : Bool
  pub msg_template : Bool
  pub format_error : Bool
  pub header : List Text
  pub rpc_header : List Text
  pub reflect_header : List Text
  pub expand_headers : Bool
  pub user_agent : Option Text
  pub protoset_out : Option Text
  pub proto_out_dir : Option Text
  pub max_msg_sz : Option ℤ
  pub verbose : Bool
  pub very_verbose : Bool
  pub args : List Text

module _ {Seconds : Type 0} (cli : Cli Seconds) where
  unfoldable pub verbosity : ℕ
  verbosity = if cli.very_verbose then 2 else if cli.verbose then 1 else 0

  unfoldable pub connection_config : ConnectionConfig Seconds
  connection_config = record {
    plaintext = cli.plaintext;
    insecure = cli.insecure;
    authority = cli.authority;
    servername = cli.servername;
    connect_timeout = cli.connect_timeout;
    keepalive_time = cli.keepalive_time;
    max_time = cli.max_time;
    unix = cli.unix;
    cacert = cli.cacert;
    cert = cli.cert;
    key = cli.key;
    alts = cli.alts;
    user_agent = cli.user_agent;
    max_msg_sz = cli.max_msg_sz;
  }

  unfoldable pub invoke_config : InvokeConfig
  invoke_config = record {
    format = cli.format;
    emit_defaults = cli.emit_defaults;
    allow_unknown_fields = cli.allow_unknown_fields;
    format_error = cli.format_error;
    payload = cli.payload;
    headers = cli.header;
    rpc_headers = cli.rpc_header;
    expand_headers = cli.expand_headers;
    max_msg_sz = cli.max_msg_sz;
    verbosity = verbosity;
    protoset_out = cli.protoset_out;
    proto_out_dir = cli.proto_out_dir;
  }

pub data Command : Type 0 where
  list describe invoke : Command

pub record ParsedArgs : Type 0 where
  pub address : Option Text
  pub command : Command
  pub symbol : Option Text
