-- ===== src/Main/Program.antt =====
-- grpcurl-cli/src/main.rs: the program, from the parsed flags to its exit code.
pub mod Codes
pub mod Ends
pub mod Stages
use grpcurl_rs.Base.{ℕ, Text, text, List, [], ◌∷◌, ◌++◌, map, Bool, true, false, Option, none, some}
use grpcurl_rs.Error.{
  GrpcurlError, BoxError, of_grpcurl, Result, done, fail, Panicking, returns, panics,
}
use grpcurl_rs.Cli.{
  Cli, ParsedArgs, Command, list, describe, invoke, verbosity, connection_config, invoke_config,
}
use grpcurl_rs.Cli.Validate.{Verdict, reject, accept, validate}
use grpcurl_rs.Commands.{Printed, run_list, run_describe}
use grpcurl_rs.Connection.Tls.{TlsCrates}
use grpcurl_rs.Connection.Channel.{Tonic, create_channel}
use grpcurl_rs.Descriptor.{Reflect, DescriptorSource, Asked}
use grpcurl_rs.Descriptor.Composite.{file_source, composite_source}
use grpcurl_rs.Reflection.{Server, unknown}
use grpcurl_rs.Reflection.Pool.{PoolCrate, SourceState}
use grpcurl_rs.Reflection.Source.{server_source}
use grpcurl_rs.Descriptor.Export.{write_protoset}
use grpcurl_rs.Descriptor.Listing.{list_services}
use grpcurl_rs.Descriptor.Loading.{Loader}
use grpcurl_rs.Descriptor.Writing.{Written, write_proto_files}
use grpcurl_rs.DescriptorText.{Syntax}
use grpcurl_rs.DescriptorText.ProtoFile.{Contents}
use grpcurl_rs.Format.Output.{Formatter, Printers, json_formatter}
use grpcurl_rs.Format.Status.{Details}
use grpcurl_rs.Format.Template.{Dynamics}
use grpcurl_rs.Invoke.Beginning.{Surroundings, Step, end_of_writing, run_invoke}
use grpcurl_rs.Invoke.Events.{Event, stdout, stderr, Run, Render, InvokeResult}
use grpcurl_rs.Main.World.{World}
use grpcurl_rs.Main.{Outcome, report_call}
use grpcurl_rs.Main.Sources.{
  SourceChoice, ServerConfig, by_reflection, by_files, composite, Chosen, create_descriptor_source,
}

module _ {Seconds : Type 0} {reflect : Reflect} {Message Value : Type 0}
    (world : World Seconds reflect Message Value) (fuel : ℕ) (cli : Cli Seconds) where
  abbrev Ends : Type 0
  Ends = Option (Outcome Message)

  abbrev pub State : Type 0
  State = SourceState reflect world.Net

  abbrev pub Source : Type 0
  Source = DescriptorSource reflect State

  -- `ServerSource::new` and `with_metadata`, whose metadata and limit the server is given by
  abbrev pub reflection_source : ServerConfig world.tonic.Channel → Source
  reflection_source config = server_source world.pool_crate (world.server config) fuel

  abbrev pub source_of : SourceChoice world.tonic.Channel reflect.Pool → Source
  source_of (by_reflection config) = reflection_source config
  source_of (by_files pool) = file_source reflect pool
  source_of (composite config pool) =
      composite_source reflect (reflection_source config) (file_source reflect pool)

  abbrev pub start : State
  start = record { connection = (unknown, world.net); pool = world.loader.new_pool; warnings = [] }

  abbrev failing : Text → GrpcurlError → Outcome Message
  failing what e =
      (stderr (what ++ (text ": " ++ (world.error_text (of_grpcurl e) ++ text "\n"))) ∷ [], 1)

  -- The lines of a command and, where it fails, its error; else what follows.
  abbrev pub go_on : List Text → Ends → Ends
  go_on lines none = none
  go_on lines (some (events, code)) =
      some (map (λ l. stdout (l ++ text "\n")) lines ++ events, code)

  abbrev pub after_command : Text → Option (Printed × State) → (State → Ends) → Ends
  after_command what none rest = none
  after_command what (some ((lines, done u), state)) rest = go_on lines (rest state)
  after_command what (some ((lines, fail e), state)) rest = go_on lines (some (failing what e))

  abbrev pub after_export : Text → Asked State (Unit {0}) → (State → Ends) → Ends
  after_export what none rest = none
  after_export what (some (done u, state)) rest = rest state
  after_export what (some (fail e, state)) rest = some (failing what e)

  -- `resolve_export_symbols`
  unfoldable pub resolve_export_symbols : Source → Option Text → State → Asked State (List Text)
  resolve_export_symbols source (some sym) state = some (done (sym ∷ []), state)
  resolve_export_symbols source none state = list_services reflect source state

  unfoldable pub export_protoset : Source → List Text → Option Text → (State → Ends) → State → Ends
  export_protoset source symbols none rest state = rest state
  export_protoset source symbols (some path) rest state =
      after_export (text "Failed to write protoset output")
        (write_protoset reflect world.system.save_protoset fuel path source symbols state) rest

  unfoldable pub export_proto_files :
      Source → List Text → Option Text → (State → Ends) → State → Ends
  export_proto_files source symbols none rest state = rest state
  export_proto_files source symbols (some dir) rest state =
      after_export (text "Failed to write proto files")
        (end_of_writing (
          write_proto_files world.syntax world.contents world.system.disk fuel dir source symbols
            state))
        rest

  abbrev pub ended : State → Ends
  ended state = some ([], 0)

  -- The exports behind `list` and `describe`.
  abbrev pub export_all : Source → Asked State (List Text) → Ends
  export_all source none = none
  export_all source (some (fail e, state)) =
      some (failing (text "Failed to resolve symbols for export") e)
  export_all source (some (done symbols, state)) =
      export_protoset source symbols cli.protoset_out
        (export_proto_files source symbols cli.proto_out_dir ended) state

  abbrev pub quoted : Text → Option Text → Text → Text
  quoted what (some sym) otherwise = what ++ (text " \"" ++ (sym ++ text "\""))
  quoted what none otherwise = otherwise

  unfoldable pub list_command : Option Text → Source → State → Ends
  list_command sym source state =
      after_command
        (quoted (text "Failed to list methods for service") sym (text "Failed to list services"))
        (run_list reflect source sym state)
        (λ after. export_all source (resolve_export_symbols source sym after))

  -- The formatter of templates, which shows defaults.
  abbrev pub template_json : Formatter world.dynamics.Dynamic
  template_json =
      json_formatter world.template_printers
        (record { emit_defaults = true; allow_unknown_fields = false })

  unfoldable pub describe_command : Option Text → Source → State → Ends
  describe_command sym source state =
      after_command
        (quoted (text "Failed to resolve symbol") sym (text "Failed to describe services"))
        (run_describe world.syntax world.dynamics template_json source fuel sym cli.msg_template
          state)
        (λ after. export_all source (resolve_export_symbols source sym after))

  -- The end of a call: what it did, and what is told of it.
  abbrev pub tell : Text → Step Message InvokeResult → Ends
  tell symbol none = none
  tell symbol (some (events, end)) =
      let (more, code) =
        report_call world.details world.error_text (verbosity cli) cli.format_error symbol end in
      some (events ++ more, code)

  -- A panic ends the program with a code of its own.
  abbrev pub panic : Text → Ends
  panic why = some (stderr why ∷ [], 101)

  abbrev pub call_on : Text → Text → Source → State → Panicking (Result world.tonic.Channel) → Ends
  call_on address symbol source state panics = panic world.duration_panic
  call_on address symbol source state (returns (fail e)) =
      some (failing (text "Failed to connect to " ++ address) e)
  call_on address symbol source state (returns (done channel)) = tell symbol (
      run_invoke world.syntax world.contents (world.around channel) source (invoke_config cli)
        symbol fuel world.render state)

  unfoldable pub call_command : Text → Text → Source → State → Ends
  call_command address symbol source state =
      call_on address symbol source state
        (create_channel world.tls world.tonic (connection_config cli) address)

  abbrev pub with_source :
      (Source → State → Ends)
      → Panicking (Result (Chosen (SourceChoice world.tonic.Channel reflect.Pool)))
      → Ends
  with_source command panics = panic world.duration_panic
  with_source command (returns (fail e)) =
      some (failing (text "Failed to create descriptor source") e)
  with_source command (returns (done (choice, warnings))) = command (source_of choice) start

  abbrev pub source_for :
      Option Text → Panicking (Result (Chosen (SourceChoice world.tonic.Channel reflect.Pool)))
  source_for address =
      create_descriptor_source world.loader world.tls world.tonic world.system.crates
        world.system.unicode world.system.env cli (connection_config cli) address

  unfoldable pub invoke_command : Option Text → Option Text → Ends
  invoke_command none symbol = panic (text "address required for invoke")
  invoke_command (some address) none = panic (text "symbol required for invoke")
  invoke_command (some address) (some symbol) =
      with_source (call_command address symbol) (source_for (some address))

  unfoldable pub run_command : Command → ParsedArgs → Ends
  run_command list p = with_source (list_command p.symbol) (source_for p.address)
  run_command describe p = with_source (describe_command p.symbol) (source_for p.address)
  run_command invoke p = invoke_command p.address p.symbol

  abbrev pub on_verdict : Verdict ParsedArgs → Ends
  on_verdict (reject msg) =
      some (
        stderr (msg ++ text "\n") ∷ stderr (text "Try 'grpcurl --help' for more details.\n") ∷ [],
        2,
      )
  on_verdict (accept p) = run_command p.command p

  abbrev warned : List Text → Ends → Ends
  warned warnings none = none
  warned warnings (some (events, code)) =
      some (map (λ w. stderr (text "Warning: " ++ (w ++ text "\n"))) warnings ++ events, code)

  -- `main`, behind the parsing of the flags
  unfoldable pub run_main : Ends
  run_main = let checked = validate world.lt_zero cli in warned checked.0 (on_verdict checked.1)
