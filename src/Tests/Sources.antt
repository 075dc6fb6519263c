-- ===== src/Tests/Sources.antt =====
-- Runs of the theorem on the choice of a descriptor source.
use grpcurl_rs.Base.{
  ℕ, Text, text, text_eq, [], ◌∷◌, ◌++◌, Bool, true, false, ◌&&◌, Option, none, some, is_some, ◌≡◌,
  refl, inl,
}
use grpcurl_rs.Error.{returns, done}
use grpcurl_rs.Metadata.{metadata_from_headers, add_headers}
use grpcurl_rs.Descriptor.Loading.{Loader}
use grpcurl_rs.Connection.Channel.{
  Attempt, tcp, no_tls, build_endpoint, standard_channel, plan_channel, create_channel,
}
use grpcurl_rs.Connection.{build_user_agent}
use grpcurl_rs.Cli.{connection_config}
use grpcurl_rs.Cli.Validate.{
  validate, accept, check_values, check_tls, parse_positional, take_command, check_sources,
  check_names,
}
use grpcurl_rs.Main.Sources.{
  ServerConfig, SourceChoice, Chosen, has_proto_files, use_reflection, file_part, reflection_part,
  create_descriptor_source,
}
use grpcurl_rs.Main.Sources.Decides.{Asks, create_descriptor_source_decides}
use grpcurl_rs.Tests.Descriptors.{names_only}
use grpcurl_rs.Tests.Headers.{plain_crates}
use grpcurl_rs.Tests.Flags.{call_flags, call_parse, never}
use grpcurl_rs.Tests.Channels.{certs, stack}

abbrev no_files : Loader names_only
no_files = record {
  read_file = λ path. inl [];
  decode_set = λ bytes. inl [];
  new_pool = [];
  add_set = λ pool fds. inl pool;
  pool_of_set = λ fds. inl [];
  compile = λ files paths. inl [];
}

abbrev pub all_words : ℕ → Bool
all_words c = true

abbrev pub no_env : Text → Option Text
no_env name = none

call_accepted : (validate never call_flags).1 ≡ accept call_parse
unfolding validate check_values check_tls parse_positional take_command check_sources check_names
    text_eq text
call_accepted = refl

no_pool : file_part no_files certs stack plain_crates all_words no_env call_flags ≡ done none
unfolding file_part
no_pool = refl

abbrev attempt : Attempt ℕ certs
attempt = record {
  endpoint = record {
    uri = text "http" ++ (text "://" ++ text "localhost:80");
    connect_timeout = 10;
    timeout = some 3;
    keep_alive_timeout = none;
    keep_alive_while_idle = false;
    user_agent = build_user_agent (b'1' ∷ []) (connection_config call_flags);
  };
  transport = tcp (text "localhost:80");
  security = no_tls;
}

abbrev asked : Chosen (Option (ServerConfig (Attempt ℕ certs)))
asked = (some (record { channel = attempt; metadata = []; max_msg_sz = none }), [])

one_server :
    reflection_part no_files certs stack plain_crates all_words no_env call_flags
      (connection_config call_flags)
      (some (text "localhost:80"))
    ≡ returns (done asked)
unfolding reflection_part create_channel plan_channel standard_channel build_endpoint
    connection_config metadata_from_headers add_headers
one_server = refl

create_descriptor_source_decides_example :
    (choice : SourceChoice (Attempt ℕ certs) Text) × (create_descriptor_source no_files certs stack
        plain_crates all_words no_env call_flags
        (connection_config call_flags)
        call_parse.address
      ≡ returns (done (choice, [])))
    × Asks no_files certs stack plain_crates all_words no_env never call_flags choice
        (is_some call_parse.address
          && use_reflection no_files certs stack plain_crates all_words no_env call_flags)
        (has_proto_files no_files certs stack plain_crates all_words no_env call_flags)
create_descriptor_source_decides_example =
    create_descriptor_source_decides no_files certs stack plain_crates all_words no_env never
      call_flags call_parse (connection_config call_flags) none asked call_accepted no_pool
      one_server
