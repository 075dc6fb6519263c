-- ===== src/Tests/Programs.antt =====
-- A run of the theorem on the program: `grpcurl localhost:80 list`.
use grpcurl_rs.Base.{
  ◌+◌, ℕ, Text, text, text_eq, text_le, sort, List, [], ◌∷◌, ◌++◌, false, none, some, ◌≡◌, ◌⊎◌, inl,
  refl,
}
use grpcurl_rs.Error.{done}
use grpcurl_rs.Base.Ints.{pos}
use grpcurl_rs.Cli.{Cli, ParsedArgs, connection_config}
use grpcurl_rs.Cli.Validate.{
  validate, accept, reject, check_values, check_tls, parse_positional, take_command, take_symbol,
  warn_unused, check_sources, check_names,
}
use grpcurl_rs.Commands.{run_list}
use grpcurl_rs.Connection.Channel.{build_endpoint, standard_channel, plan_channel, create_channel}
use grpcurl_rs.Reflection.{
  MessageRequest, MessageResponse, file_descriptor_response, list_services_response, Exchange,
  answered, Server, reflect, reflect_v1, extract_response,
}
use grpcurl_rs.Reflection.Pool.{PoolCrate}
use grpcurl_rs.Reflection.Source.{server_source, list_services_async}
use grpcurl_rs.Descriptor.Listing.{list_services}
use grpcurl_rs.Descriptor.Loading.{Loader}
use grpcurl_rs.DescriptorText.ProtoFile.{Contents}
use grpcurl_rs.Format.Output.{Printers}
use grpcurl_rs.Format.Template.{Dynamics}
use grpcurl_rs.Invoke.Beginning.{Surroundings}
use grpcurl_rs.Invoke.Events.{Event, stdout, stderr}
use grpcurl_rs.Metadata.{metadata_from_headers, add_headers}
use grpcurl_rs.Main.World.{World}
use grpcurl_rs.Main.Program.{
  list_command, run_command, resolve_export_symbols, export_protoset, export_proto_files, run_main,
}
use grpcurl_rs.Main.Program.Codes.{IsCode, bad, run_main_codes}
use grpcurl_rs.Main.Sources.{file_part, reflection_part, create_descriptor_source}
use grpcurl_rs.Tests.Calls.{plain_render, breaking}
use grpcurl_rs.Tests.Channels.{certs, stack}
use grpcurl_rs.Tests.Descriptors.{pool, imports}
use grpcurl_rs.Tests.Exits.{no_details, no_text}
use grpcurl_rs.Tests.Flags.{call_flags, never}
use grpcurl_rs.Tests.Headers.{plain_crates}
use grpcurl_rs.Tests.Printing.{described, plain_syntax}
use grpcurl_rs.Tests.Requests.{letters}
use grpcurl_rs.Tests.Sources.{all_words, no_env}

abbrev no_loader : Loader described
no_loader = record {
  read_file = λ path. inl [];
  decode_set = λ bytes. inl [];
  new_pool = [];
  add_set = λ p fds. inl p;
  pool_of_set = λ fds. inl [];
  compile = λ files paths. inl [];
}

abbrev no_contents : Contents described
no_contents = record {
  head = λ f. record {
    syntax_name = none;
    package_name = none;
    dependency = [];
    public_dependency = [];
    weak_dependency = [];
    options = none;
  };
  file_messages = λ f. [];
  file_enums = λ f. [];
  file_extensions = λ f. [];
  file_services = λ f. [];
}

abbrev texts : Dynamics described
texts = record {
  Dynamic = Text;
  new_message = λ m. m;
  set_field = λ msg field v. msg;
  get_field_by_name = λ m name. none;
  get_field = λ m n. none;
  entry_fields = λ f. (f, f);
  default_value = λ e. pos 0;
}

abbrev plain_printers : Printers Text
plain_printers = record {
  serialize = λ skip m. done m;
  pretty_text = λ m. m;
  is_digit = λ c. false;
}

abbrev around : Surroundings described Text ℕ
around = record {
  save_protoset = λ fds. none;
  disk = record {
    join_path = λ dir name. dir ++ b'/' ∷ name;
    parent = λ p. none;
    create_error = λ p. none;
    write_error = λ p t. none;
  };
  stdin = done [];
  path_error = λ p. none;
  client = λ n. breaking;
  codec = letters;
  printers = plain_printers;
  crates = plain_crates;
  unicode = all_words;
  env = no_env;
}

-- A file is its name, which its bytes spell; it imports the file whose name is its own less the
-- first character. Nothing is added to the pool.
abbrev named_files : PoolCrate described
named_files = record {
  decode_file = λ bytes. (some bytes, []);
  proto_name = λ f. some f;
  proto_dependency = imports;
  has_file = λ p name. false;
  add_file_descriptor_set = λ p files. (p, none);
}

abbrev small_answer : MessageRequest → Exchange MessageResponse
small_answer (MessageRequest.list_services host) =
    answered (some (list_services_response (pool ∷ (b'a' ∷ []) ∷ [])))
small_answer (MessageRequest.file_by_filename name) =
    answered (some (file_descriptor_response (name ∷ [])))
small_answer (MessageRequest.file_containing_symbol name) =
    answered (some (file_descriptor_response ((b'b' ∷ b'a' ∷ []) ∷ [])))
small_answer _ = answered none

-- A server of the one version that counts what it is asked.
abbrev pub small_server : Server ℕ
small_server = record {
  ask_v1 = λ n m. (small_answer m, n + 1);
  ask_v1alpha = λ n m. (answered none, n);
  show_code = λ c. [];
}

abbrev small_world : World ℕ described Text ℕ
small_world = record {
  tls = certs;
  tonic = stack;
  loader = no_loader;
  syntax = plain_syntax;
  contents = no_contents;
  dynamics = texts;
  template_printers = plain_printers;
  details = no_details;
  render = plain_render;
  pool_crate = named_files;
  Net = ℕ;
  server = λ config. small_server;
  net = 0;
  around = λ channel. around;
  system = around;
  lt_zero = never;
  error_text = no_text;
  duration_panic = [];
}

abbrev list_flags : Cli ℕ
list_flags = record call_flags { args = text "localhost:80" ∷ text "list" ∷ [] }

abbrev shown : List (Event Text)
shown = stdout (b'a' ∷ text "\n") ∷ stdout (pool ++ text "\n") ∷ []

lists : run_main small_world 5 list_flags ≡ some (shown, 0)
unfolding run_main validate check_values check_tls parse_positional take_command take_symbol
    warn_unused check_sources check_names text_eq text run_command create_descriptor_source
    file_part reflection_part create_channel plan_channel standard_channel build_endpoint
    connection_config metadata_from_headers add_headers list_command run_list list_services
    server_source list_services_async reflect reflect_v1 extract_response sort text_le
    resolve_export_symbols export_protoset export_proto_files
lists = refl

run_main_codes_example :
    ((msg : Text) × ((validate never list_flags).1 ≡ reject msg) × (◌≡◌ {A = ℕ} 0 2))
    ⊎ ((p : ParsedArgs) × ((validate never list_flags).1 ≡ accept p)
        × IsCode (bad small_world 5 list_flags) p.command 0)
run_main_codes_example = run_main_codes small_world 5 list_flags shown 0 lists

-- With a number of seconds that has no duration, the accepted command line ends in a panic.
too_long :
    run_main small_world 5 (record list_flags { max_time = some 2000 }) ≡ some (stderr [] ∷ [], 101)
unfolding run_main validate check_values check_tls parse_positional take_command take_symbol
    warn_unused check_sources check_names text_eq text run_command create_descriptor_source
    file_part reflection_part create_channel plan_channel standard_channel build_endpoint
    connection_config metadata_from_headers add_headers
too_long = refl
