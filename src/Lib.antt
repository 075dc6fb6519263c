-- ===== src/Lib.antt =====
-- grpcurl-rs: a command-line client for gRPC servers, and its library.
--
-- The program reads a command line, validates it, finds descriptors of the server's services (by
-- reflection, from protoset files or from proto sources), and lists or describes them or calls a
-- method with the messages of its request data. The parts and their files:
--
-- - Cli: grpcurl-cli/src/cli.rs. The record `Cli` holds the flags as clap parses them, with
--   `verbosity`, `connection_config` and `invoke_config`; Cli/Args has `normalize_args`.
-- - Cli/Validate: grpcurl-cli/src/validate.rs. `validate` is the source's function, rule by rule; a
--   check gives the warnings printed so far and a verdict. Cli/Validate/Rules states the conditions
--   on an accepted command line with no order of tests.
-- - Error: grpcurl-core/src/error.rs. `GrpcurlError`, with `tonic::Status` as the parts that are
--   read. I/O errors and boxed errors are their messages.
-- - Metadata: grpcurl-core/src/metadata.rs. `metadata_from_headers`, `expand_headers`,
--   `expand_env_vars` and `metadata_to_string`. The crates tonic, http and base64 are the record
--   `Crates`, what they document is `CratesLaws`. Metadata/Expand writes the matcher of the regular
--   expression out.
-- - Format: grpcurl-core/src/format.rs. Format/Requests has the two request parsers, whose state is
--   the source, the offset and the count, and the loop `collect_all_messages` of
--   grpcurl-core/src/commands/invoke.rs as `collect`. serde_json and prost-reflect are the record
--   `Codec`. Format/Output has the formatters of responses and the names of statuses, Format/Status
--   the printing of a status, Format/Template the templates of messages.
-- - Connection: grpcurl-core/src/connection.rs. The configuration and the user agent;
--   Connection/Channel plans a channel, Connection/Tls has the TLS settings, and Connection/Level says
--   how well a plan protects; Connection/Panics is about the numbers of seconds from which no duration
--   is made, at which the code panics. The crates and the file system are `TlsCrates` and `Tonic`, which also
--   connect.
-- - Descriptor: grpcurl-core/src/descriptor.rs. Symbols and sources over the record `Reflect`, which
--   stands for prost-reflect: Descriptor/Lookup has `find_symbol_in_pool`, Descriptor/Listing the
--   sorted lists, Descriptor/Composite the file source and the source that falls back on it, and
--   Descriptor/Export the transitive dependencies and `write_protoset`, and Descriptor/Loading the
--   pools that are built of files; Descriptor/Writing has `write_proto_files`. A source
--   answers a question in a state, and where its answer does not come there is none; Descriptor/Answering
--   is about whether they come.
-- - DescriptorText: grpcurl-core/src/descriptor_text.rs. DescriptorText/Describe prints one symbol,
--   DescriptorText/ProtoFile a whole file, of which DescriptorText/Head has the top and
--   DescriptorText/Extend the extensions; DescriptorText/Entries has the fields and oneofs that both
--   printers collect. The record `Syntax` is what they read of prost-reflect, with Rust's printing of
--   numbers and its upper case.
-- - Reflection: grpcurl-core/src/reflection.rs. `reflect` with the cached version as state, over a
--   server that is given by how each exchange goes; the messages are those of tonic-reflection.
--   Reflection/Pool has the pool that grows with the answers, Reflection/Source the methods of the
--   source over it, which `server_source` is. prost and prost-reflect are `PoolCrate`.
-- - Invoke: grpcurl-core/src/commands/invoke.rs. Invoke/Method has `resolve_method`; Invoke/Calls
--   has the four kinds of calls, which give the events of the call (texts printed, requests handed
--   to the channel) and a value or a boxed error; Invoke/Invocation has the end of `run_invoke`,
--   which turns a status into a result, and Invoke/Beginning `run_invoke` with what goes before. The
--   client and the server's answers are given.
-- - Main: grpcurl-cli/src/main.rs. What the program tells of a call, and its exit code; Main/Sources
--   has `create_descriptor_source` over given files and a given connection, and Main/Program the
--   program from the parsed flags to its exit code: it asks the source that was chosen from stage to
--   stage, in the state that the questions before have left. Where fuel runs out in an answer of the
--   source, the program has no end.
-- - Commands: grpcurl-core/src/commands/list.rs and describe.rs, by the lines that they print.
--
-- A text is the list of its characters. The offsets of the source count bytes and those of the model
-- characters; both name the same places, since the source only cuts between characters. Counters are
-- natural numbers, as `usize` cannot overflow on data that fits in memory.
--
-- Fuel: `collect` takes fuel for its rounds, and each message moves the parser on, so that more fuel
-- than what is left to read is enough. `collect_transitive_deps` takes fuel for the depth of the
-- recursion, and more than the depth of the import graph is enough. `add_file_descriptors` takes fuel for
-- the depth of the imports that it fetches, and more than a rank that bounds them is enough; where a
-- server's files import one another no fuel is. `make_template` takes fuel for the depth of
-- the messages, and more than the number of their names is enough. `file_format_message` takes fuel for
-- the depth of nested messages, and more than that depth is enough. `normalize_json_floats` takes the
-- length of the text, since each round takes a character. The program hands one fuel to all of these,
-- and more than the greatest of their needs is enough.
--
-- Panics: of the code's own panics the model has those of `Duration::from_secs_f64` and of the missing
-- arguments in the program. It leaves out those of `println!` on an output that is closed and of the
-- `expect`s on the two fields that each map entry has, and arithmetic wraps as in a release build.
--
-- Not modelled: the printing of the warnings on headers in the program's output, the
-- `DefaultEventHandler` of grpcurl-core/src/commands/invoke.rs, which the program does not use, and
-- code that only calls libraries: the wire codec (grpcurl-core/src/codec.rs) and clap's
-- parsing. What a source of reflection warns of stays in its state, and is not among the events of the
-- program. The servers under testing are test code. The concurrency of a bidirectional call is left out: its requests
-- are handed over as one list. A stream of responses is finite.
pub mod Base
pub mod Error
pub mod Format
pub mod Metadata
pub mod Connection
pub mod Descriptor
pub mod Invoke
pub mod Cli
pub mod Tests
pub mod Commands
pub mod DescriptorText
pub mod Main
pub mod Reflection
