-- ===== src/Main/Sources.antt =====
-- grpcurl-cli/src/main.rs: the descriptor source that the flags ask for.
pub mod Decides
use grpcurl_rs.Base.{
  ℕ, Text, text, List, [], ◌∷◌, ◌++◌, Bool, true, false, not, ◌||◌, ◌&&◌, Option, none, some,
  is_empty, if◌then◌else◌,
}
use grpcurl_rs.Base.Ints.{ℤ}
use grpcurl_rs.Error.{
  GrpcurlError, invalid_argument, Metadata, Result, done, fail, ◌>>=◌, Panicking, returns, ◌>>>◌,
}
use grpcurl_rs.Descriptor.{Reflect}
use grpcurl_rs.Descriptor.Loading.{
  Loader, descriptor_source_from_protosets, descriptor_source_from_proto_files,
}
use grpcurl_rs.Connection.{ConnectionConfig}
use grpcurl_rs.Connection.Tls.{TlsCrates}
use grpcurl_rs.Connection.Channel.{Tonic, create_channel}
use grpcurl_rs.Metadata.{Crates, Parsed, Warning, metadata_from_headers}
use grpcurl_rs.Metadata.Expand.{expand_headers}
use grpcurl_rs.Cli.{Cli}

-- What a `ServerSource` is made of.
pub record ServerConfig (Channel : Type 0) : Type 0 where
  pub channel : Channel
  pub metadata : Metadata
  pub max_msg_sz : Option ℤ

-- The source: a server's reflection, the pool of files, or the first with the second behind it.
pub data SourceChoice (Channel Pool : Type 0) : Type 0 where
  by_reflection : ServerConfig Channel → SourceChoice Channel Pool
  by_files : Pool → SourceChoice Channel Pool
  composite : ServerConfig Channel → Pool → SourceChoice Channel Pool

-- With the headers that were warned of.
abbrev pub Chosen : Type 0 → Type 0
Chosen A = A × List Warning

abbrev lift_some {ℓ} : {A : Type ℓ} → Result A → Result (Option A)
lift_some r = r >>= λ a. done (some a)

-- `unicode` and `env` are those of the expansion of headers.
module _ {Seconds : Type 0} {reflect : Reflect} (loader : Loader reflect) (tls : TlsCrates)
    (tonic : Tonic Seconds tls) (crates : Crates) (unicode : ℕ → Bool) (env : Text → Option Text)
    (cli : Cli Seconds) where
  abbrev pub has_proto_files : Bool
  has_proto_files = not (is_empty cli.protoset) || not (is_empty cli.proto)

  -- Reflection is used where that is asked for or, where nothing is said, where there are no files.
  abbrev pub use_reflection : Bool
  use_reflection = elim cli.use_reflection [ some b ↦ b | none ↦ not has_proto_files ]

  unfoldable pub file_part : Result (Option reflect.Pool)
  file_part =
      if not (is_empty cli.protoset)
      then lift_some (descriptor_source_from_protosets loader cli.protoset)
      else if not (is_empty cli.proto)
      then lift_some (descriptor_source_from_proto_files loader cli.import_path cli.proto)
      else done none

  -- The headers for reflection, expanded where that is asked for.
  abbrev reflect_headers : Result (List Text)
  reflect_headers =
      let headers = cli.header ++ cli.reflect_header in
      if cli.expand_headers then expand_headers unicode env headers else done headers

  abbrev server_config : tonic.Channel → Parsed → Chosen (Option (ServerConfig tonic.Channel))
  server_config channel parsed = (
    some (record { channel = channel; metadata = parsed.metadata; max_msg_sz = cli.max_msg_sz }),
    parsed.warnings,
  )

  abbrev pub asked_server :
      ConnectionConfig Seconds
      → Text
      → Panicking (Result (Chosen (Option (ServerConfig tonic.Channel))))
  asked_server conn_config addr = create_channel tls tonic conn_config addr >>> λ channel. returns (
      reflect_headers >>= λ headers.
      done (server_config channel (metadata_from_headers crates headers)))

  unfoldable pub reflection_part :
      ConnectionConfig Seconds
      → Option Text
      → Panicking (Result (Chosen (Option (ServerConfig tonic.Channel))))
  reflection_part conn_config none = returns (done (none, []))
  reflection_part conn_config (some addr) =
      if use_reflection then asked_server conn_config addr else returns (done (none, []))

  abbrev pub combine :
      Option (ServerConfig tonic.Channel)
      → Option reflect.Pool
      → Result (SourceChoice tonic.Channel reflect.Pool)
  combine (some server) (some pool) = done (composite server pool)
  combine (some server) none = done (by_reflection server)
  combine none (some pool) = done (by_files pool)
  combine none none = fail (
      invalid_argument
        (text "No host:port specified, no protoset specified, and no proto sources specified."))

  unfoldable pub create_descriptor_source :
      ConnectionConfig Seconds
      → Option Text
      → Panicking (Result (Chosen (SourceChoice tonic.Channel reflect.Pool)))
  create_descriptor_source conn_config address = returns file_part >>> λ files.
      reflection_part conn_config address >>> λ server.
      returns (combine server.0 files >>= λ choice. done (choice, server.1))
