-- ===== src/Tests/Whole.antt =====
-- A run of the theorem that the program ends: a call in a world of one message, whose one field is a
-- list of itself.
use grpcurl_rs.Base.{length, ℕ, Text, List, [], ◌∷◌, ◌++◌, false, none, some, ◌≡◌, inl, arith, ◌<◌}
use grpcurl_rs.Error.{done}
use grpcurl_rs.Reflection.{
  file_by_filename, file_containing_symbol, Version, unknown, v1, v1alpha, reflect, reflect_v1,
  reflect_v1alpha, extract_response, convert_response_from_v1alpha,
}
use grpcurl_rs.Reflection.Pool.{PoolCrate}
use grpcurl_rs.Reflection.Pool.Ends.{AnswersBelow}
use grpcurl_rs.Tests.Programs.{small_server}
use grpcurl_rs.Descriptor.Loading.{Loader}
use grpcurl_rs.DescriptorText.ProtoFile.{Contents}
use grpcurl_rs.Format.Output.{Printers}
use grpcurl_rs.Format.Requests.{
  RequestParser, new_parser, new_json, input, json_parser, text_parser,
}
use grpcurl_rs.Format.Requests.Progress.{remaining}
use grpcurl_rs.Invoke.Beginning.{Surroundings}
use grpcurl_rs.Invoke.Events.{Event}
use grpcurl_rs.Main.World.{World}
use grpcurl_rs.Main.Program.{run_main}
use grpcurl_rs.Main.Program.Ends.{run_main_ends}
use grpcurl_rs.Tests.Calls.{plain_render, breaking}
use grpcurl_rs.Tests.Channels.{certs, stack}
use grpcurl_rs.Tests.Descriptors.{imports}
use grpcurl_rs.Tests.Exits.{no_details, no_text}
use grpcurl_rs.Tests.Flags.{call_flags, never}
use grpcurl_rs.Tests.Headers.{plain_crates}
use grpcurl_rs.Tests.Requests.{letters, letters_take}
use grpcurl_rs.Tests.Sources.{all_words, no_env}
use grpcurl_rs.Tests.Templates.{recursive, recursive_syntax, counted, one_name, all_named}

abbrev no_loader : Loader recursive
no_loader = record {
  read_file = λ path. inl [];
  decode_set = λ bytes. inl [];
  new_pool = [];
  add_set = λ p fds. inl p;
  pool_of_set = λ fds. inl [];
  compile = λ files paths. inl [];
}

abbrev no_contents : Contents recursive
no_contents = record {
  head = λ f. record {
    syntax_name = none;
    package_name = none;
    dependency = [];
    public_dependency = [];
    weak_dependency = [];
    options = none;
  };
  file_messages = λ f. [];
  file_enums = λ f. [];
  file_extensions = λ f. [];
  file_services = λ f. [];
}

abbrev count_printers : Printers (List Text)
count_printers = record {
  serialize = λ skip m. done [];
  pretty_text = λ m. b'0' ∷ [];
  is_digit = λ c. false;
}

abbrev text_printers : Printers Text
text_printers = record { serialize = λ skip m. done m; pretty_text = λ m. m; is_digit = λ c. false }

abbrev around : Surroundings recursive Text ℕ
around = record {
  save_protoset = λ fds. none;
  disk = record {
    join_path = λ dir name. dir ++ b'/' ∷ name;
    parent = λ p. none;
    create_error = λ p. none;
    write_error = λ p t. none;
  };
  stdin = done [];
  path_error = λ p. none;
  client = λ n. breaking;
  codec = letters;
  printers = text_printers;
  crates = plain_crates;
  unicode = all_words;
  env = no_env;
}

abbrev named_files : PoolCrate recursive
named_files = record {
  decode_file = λ bytes. (some bytes, []);
  proto_name = λ f. some f;
  proto_dependency = imports;
  has_file = λ p name. false;
  add_file_descriptor_set = λ p files. (p, none);
}

abbrev recursive_world : World ℕ recursive Text ℕ
recursive_world = record {
  tls = certs;
  tonic = stack;
  loader = no_loader;
  syntax = recursive_syntax;
  contents = no_contents;
  dynamics = counted;
  template_printers = count_printers;
  details = no_details;
  render = plain_render;
  pool_crate = named_files;
  Net = ℕ;
  server = λ config. small_server;
  net = 0;
  around = λ channel. around;
  system = around;
  lt_zero = never;
  error_text = no_text;
  duration_panic = [];
}

nothing_left :
    (parser : RequestParser)
    → new_parser letters
        (done [])
        call_flags.format
        call_flags.payload
        (record { emit_defaults = false; allow_unknown_fields = false })
      ≡ done parser
    → remaining letters letters_take parser < 3
unfolding new_parser new_json input
nothing_left (json_parser p) e = ground (arith, e)
nothing_left (text_parser p) e = ground (arith, e)

imports_below :
    (connection : Version × ℕ) (dep : Text)
    → AnswersBelow named_files small_server length
        (length dep)
        (reflect small_server connection (file_by_filename dep))
unfolding reflect reflect_v1 reflect_v1alpha extract_response convert_response_from_v1alpha
imports_below (unknown, n) [] = (tt, tt)
imports_below (unknown, n) (c ∷ dep) = ((omega arith, tt), tt)
imports_below (v1, n) [] = (tt, tt)
imports_below (v1, n) (c ∷ dep) = ((omega arith, tt), tt)
imports_below (v1alpha, n) dep = tt

symbols_below :
    (connection : Version × ℕ) (name : Text)
    → AnswersBelow named_files small_server length 2
        (reflect small_server connection (file_containing_symbol name))
unfolding reflect reflect_v1 reflect_v1alpha extract_response convert_response_from_v1alpha
symbols_below (unknown, n) name = ((omega arith, tt), tt)
symbols_below (v1, n) name = ((omega arith, tt), tt)
symbols_below (v1alpha, n) name = tt

run_main_ends_example :
    (events : List (Event Text)) × (code : ℕ) × (run_main recursive_world 3 call_flags
      ≡ some (events, code))
run_main_ends_example =
    run_main_ends recursive_world 3 call_flags (λ name. 0) (λ fd. tt) (λ fd. omega arith) (λ msg. 0)
      (λ pkg msg. tt) (λ msg. omega arith) one_name all_named (omega arith)
      (λ channel. letters_take) (λ channel parser e. nothing_left parser e) length
      (λ config. imports_below) 2 (λ config. symbols_below) (omega arith)
