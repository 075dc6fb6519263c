-- ===== src/Main/Program/Stages.antt =====
-- grpcurl-cli/src/main.rs: the parts of the program, as to whether they end.
use grpcurl_rs.Base.{ℕ, ◌<◌, Text, text, List, true, Option, none, some, is_some, ◌≡◌, refl}
use grpcurl_rs.Error.{Result, done, fail, Panicking, returns, panics}
use grpcurl_rs.Cli.{Cli, ParsedArgs, Command, list, describe, invoke, invoke_config}
use grpcurl_rs.Cli.Validate.{Verdict, reject, accept, validate}
use grpcurl_rs.Commands.{Printed, run_list, run_describe}
use grpcurl_rs.Commands.Ends.{services-come, run_list-ends, run_describe-ends}
use grpcurl_rs.Descriptor.{Reflect, Asked}
use grpcurl_rs.Descriptor.Answering.{Answers, file_source-Answers, composite_source-Answers}
use grpcurl_rs.Descriptor.Composite.{file_source}
use grpcurl_rs.Descriptor.Export.{expand_files, write_protoset}
use grpcurl_rs.Descriptor.Writing.{Written, write_proto_files}
use grpcurl_rs.Descriptor.Writing.Ends.{write_proto_files-ends, write_protoset-ends}
use grpcurl_rs.DescriptorText.ProtoFile.{file_format_message}
use grpcurl_rs.Format.Requests.{RequestParser, new_parser, Takes}
use grpcurl_rs.Format.Requests.Progress.{remaining}
use grpcurl_rs.Format.Template.{make_template}
use grpcurl_rs.Invoke.Beginning.{Step, end_of_writing, run_invoke}
use grpcurl_rs.Invoke.Beginning.Ends.{run_invoke-ends}
use grpcurl_rs.Invoke.Events.{InvokeResult}
use grpcurl_rs.Main.Sources.{ServerConfig, SourceChoice, by_reflection, by_files, composite, Chosen}
use grpcurl_rs.Main.World.{World}
use grpcurl_rs.Main.Program.{
  Ends, State, Source, reflection_source, source_of, start, go_on, after_command, after_export,
  quoted, resolve_export_symbols, export_protoset, export_proto_files, ended, export_all,
  template_json, list_command, describe_command, tell, call_on, call_command, with_source,
  source_for, invoke_command, run_command, on_verdict, warned, run_main,
}

module _ {Seconds : Type 0} {reflect : Reflect} {Message Value : Type 0}
    (world : World Seconds reflect Message Value) (fuel : ℕ) (cli : Cli Seconds)
    (messages_end : (pkg : Text) (msg : reflect.Message)
      → is_some (file_format_message world.syntax pkg fuel msg) ≡ true)
    (files_end : (roots : List reflect.File) → is_some (expand_files reflect fuel roots) ≡ true)
    (templates_end : (msg : reflect.Message)
      → is_some (make_template world.syntax world.dynamics fuel msg) ≡ true)
    (takes : (channel : world.tonic.Channel) → Takes (world.around channel).codec)
    (enough : (channel : world.tonic.Channel) (parser : RequestParser)
      → new_parser
          (world.around channel).codec
          (world.around channel).stdin
          cli.format
          cli.payload
          (record {
            emit_defaults = cli.emit_defaults;
            allow_unknown_fields = cli.allow_unknown_fields;
          })
        ≡ done parser
      → remaining (world.around channel).codec (takes channel) parser < fuel)
    (reflection_answers : (config : ServerConfig world.tonic.Channel)
      → Answers (reflection_source world fuel cli config)) where
  source_of-Answers :
      (choice : SourceChoice world.tonic.Channel reflect.Pool)
      → Answers (source_of world fuel cli choice)
  source_of-Answers (by_reflection config) = reflection_answers config
  source_of-Answers (by_files pool) = file_source-Answers (State world fuel cli) pool
  source_of-Answers (composite config pool) =
      composite_source-Answers (reflection_source world fuel cli config) (file_source reflect pool)
        (reflection_answers config) (file_source-Answers (State world fuel cli) pool)

  go_on-ends :
      (lines : List Text) (rest : Ends world fuel cli)
      → is_some rest ≡ true
      → is_some (go_on world fuel cli lines rest) ≡ true
  go_on-ends lines none h = cc
  go_on-ends lines (some (events, code)) h = refl

  -- What follows ends in any state.
  abbrev Follows : (State world fuel cli → Ends world fuel cli) → Type 0
  Follows rest = (state : State world fuel cli) → is_some (rest state) ≡ true

  after_command-ends :
      (what : Text) (printed : Option (Printed × State world fuel cli))
      (rest : State world fuel cli → Ends world fuel cli)
      → is_some printed ≡ true
      → Follows rest
      → is_some (after_command world fuel cli what printed rest) ≡ true
  after_command-ends what none rest h k = cc
  after_command-ends what (some ((lines, done u), state)) rest h k =
      go_on-ends lines (rest state) (k state)
  after_command-ends what (some ((lines, fail e), state)) rest h k = refl

  after_export-ends :
      (what : Text) (exported : Asked (State world fuel cli) (Unit {0}))
      (rest : State world fuel cli → Ends world fuel cli)
      → is_some exported ≡ true
      → Follows rest
      → is_some (after_export world fuel cli what exported rest) ≡ true
  after_export-ends what none rest h k = cc
  after_export-ends what (some (done u, state)) rest h k = k state
  after_export-ends what (some (fail e, state)) rest h k = refl

  end_of_writing-comes :
      (written : Option (Written × State world fuel cli))
      → is_some written ≡ true
      → is_some (end_of_writing written) ≡ true
  end_of_writing-comes none h = cc
  end_of_writing-comes (some ((files, end), state)) h = refl

  module _ (source : Source world fuel cli) (answers : Answers source) where
    export_proto_files-ends :
        (symbols : List Text) (dir : Option Text)
        (rest : State world fuel cli → Ends world fuel cli) (state : State world fuel cli)
        → Follows rest
        → is_some (export_proto_files world fuel cli source symbols dir rest state) ≡ true
    unfolding export_proto_files
    export_proto_files-ends symbols none rest state h = h state
    export_proto_files-ends symbols (some dir) rest state h =
        let written =
          write_proto_files world.syntax world.contents world.system.disk fuel dir source symbols
            state in
        after_export-ends (text "Failed to write proto files") (end_of_writing written) rest
          (end_of_writing-comes written (
            write_proto_files-ends world.syntax world.contents world.system.disk fuel messages_end
              files_end source answers dir symbols state))
          h

    export_protoset-ends :
        (symbols : List Text) (path : Option Text)
        (rest : State world fuel cli → Ends world fuel cli) (state : State world fuel cli)
        → Follows rest
        → is_some (export_protoset world fuel cli source symbols path rest state) ≡ true
    unfolding export_protoset
    export_protoset-ends symbols none rest state h = h state
    export_protoset-ends symbols (some path) rest state h =
        after_export-ends (text "Failed to write protoset output")
          (write_protoset reflect world.system.save_protoset fuel path source symbols state) rest
          (write_protoset-ends world.syntax world.contents world.system.disk fuel messages_end
            files_end source answers world.system.save_protoset path symbols state)
          h

    export_all-ends :
        (symbols : Asked (State world fuel cli) (List Text))
        → is_some symbols ≡ true
        → is_some (export_all world fuel cli source symbols) ≡ true
    export_all-ends none h = cc
    export_all-ends (some (fail e, state)) h = refl
    export_all-ends (some (done symbols, state)) h =
        export_protoset-ends symbols cli.protoset_out
          (export_proto_files world fuel cli source symbols cli.proto_out_dir
            (ended world fuel cli))
          state
          (λ after.
            export_proto_files-ends symbols cli.proto_out_dir (ended world fuel cli) after
              (λ _. refl))

    resolve-come :
        (sym : Option Text) (state : State world fuel cli)
        → is_some (resolve_export_symbols world fuel cli source sym state) ≡ true
    unfolding resolve_export_symbols
    resolve-come (some sym) state = refl
    resolve-come none state = services-come source answers state

    exports-end :
        (sym : Option Text)
        → Follows (λ after.
          export_all world fuel cli source (resolve_export_symbols world fuel cli source sym after))
    exports-end sym after =
        export_all-ends (resolve_export_symbols world fuel cli source sym after)
          (resolve-come sym after)

    list_command-ends :
        (sym : Option Text) (state : State world fuel cli)
        → is_some (list_command world fuel cli sym source state) ≡ true
    unfolding list_command
    list_command-ends sym state =
        after_command-ends
          (quoted world fuel cli (text "Failed to list methods for service") sym
            (text "Failed to list services"))
          (run_list reflect source sym state)
          (λ after.
            export_all world fuel cli source
              (resolve_export_symbols world fuel cli source sym after))
          (run_list-ends source answers sym state) (exports-end sym)

    describe_command-ends :
        (sym : Option Text) (state : State world fuel cli)
        → is_some (describe_command world fuel cli sym source state) ≡ true
    unfolding describe_command
    describe_command-ends sym state =
        after_command-ends
          (quoted world fuel cli (text "Failed to resolve symbol") sym
            (text "Failed to describe services"))
          (run_describe world.syntax world.dynamics (template_json world fuel cli) source fuel sym
            cli.msg_template state)
          (λ after.
            export_all world fuel cli source
              (resolve_export_symbols world fuel cli source sym after))
          (run_describe-ends world.syntax world.dynamics (template_json world fuel cli) source
            answers fuel templates_end sym cli.msg_template state)
          (exports-end sym)

  enough_for :
      (channel : world.tonic.Channel) (parser : RequestParser)
      → new_parser
          (world.around channel).codec
          (world.around channel).stdin
          (invoke_config cli).format
          (invoke_config cli).payload
          (record {
            emit_defaults = (invoke_config cli).emit_defaults;
            allow_unknown_fields = (invoke_config cli).allow_unknown_fields;
          })
        ≡ done parser
      → remaining (world.around channel).codec (takes channel) parser < fuel
  unfolding invoke_config
  enough_for channel parser e = enough channel parser e

  tell-ends :
      (symbol : Text) (step : Step Message InvokeResult)
      → is_some step ≡ true
      → is_some (tell world fuel cli symbol step) ≡ true
  tell-ends symbol none h = cc
  tell-ends symbol (some (events, end)) h = refl

  call_on-ends :
      (address symbol : Text) (source : Source world fuel cli) (state : State world fuel cli)
      (channel : Panicking (Result world.tonic.Channel))
      → Answers source
      → is_some (call_on world fuel cli address symbol source state channel) ≡ true
  call_on-ends address symbol source state panics h = refl
  call_on-ends address symbol source state (returns (fail e)) h = refl
  call_on-ends address symbol source state (returns (done channel)) h =
      tell-ends symbol
        (run_invoke world.syntax world.contents (world.around channel) source (invoke_config cli)
          symbol fuel world.render state)
        (run_invoke-ends world.syntax world.contents (world.around channel) source h
          (invoke_config cli) symbol fuel messages_end files_end world.render (takes channel)
          (enough_for channel) state)

  call_command-ends :
      (address symbol : Text) (source : Source world fuel cli)
      → Answers source
      → (state : State world fuel cli)
      → is_some (call_command world fuel cli address symbol source state) ≡ true
  unfolding call_command
  call_command-ends address symbol source h state = call_on-ends address symbol source state _ h

  with_source-ends :
      (command : Source world fuel cli → State world fuel cli → Ends world fuel cli)
      (source : Panicking (Result (Chosen (SourceChoice world.tonic.Channel reflect.Pool))))
      → ((s : Source world fuel cli)
          → Answers s
          → (state : State world fuel cli) → is_some (command s state) ≡ true)
      → is_some (with_source world fuel cli command source) ≡ true
  with_source-ends command panics h = refl
  with_source-ends command (returns (fail e)) h = refl
  with_source-ends command (returns (done (choice, warnings))) h =
      h (source_of world fuel cli choice) (source_of-Answers choice) (start world fuel cli)

  invoke_command-ends :
      (address symbol : Option Text) → is_some (invoke_command world fuel cli address symbol) ≡ true
  unfolding invoke_command
  invoke_command-ends none symbol = refl
  invoke_command-ends (some address) none = refl
  invoke_command-ends (some address) (some symbol) =
      with_source-ends (call_command world fuel cli address symbol)
        (source_for world fuel cli (some address)) (call_command-ends address symbol)

  run_command-ends :
      (c : Command) (p : ParsedArgs) → is_some (run_command world fuel cli c p) ≡ true
  unfolding run_command
  run_command-ends list p =
      with_source-ends (list_command world fuel cli p.symbol) (source_for world fuel cli p.address)
        (λ s h state. list_command-ends s h p.symbol state)
  run_command-ends describe p =
      with_source-ends (describe_command world fuel cli p.symbol)
        (source_for world fuel cli p.address)
        (λ s h state. describe_command-ends s h p.symbol state)
  run_command-ends invoke p = invoke_command-ends p.address p.symbol

  on_verdict-ends : (v : Verdict ParsedArgs) → is_some (on_verdict world fuel cli v) ≡ true
  on_verdict-ends (reject msg) = refl
  on_verdict-ends (accept p) = run_command-ends p.command p

  warned-ends :
      (warnings : List Text) (end : Ends world fuel cli)
      → is_some end ≡ true
      → is_some (warned world fuel cli warnings end) ≡ true
  warned-ends warnings none h = cc
  warned-ends warnings (some (own, code)) h = refl

  pub main_is_some : is_some (run_main world fuel cli) ≡ true
  unfolding run_main
  main_is_some =
      let checked = validate world.lt_zero cli in
      warned-ends checked.0 (on_verdict world fuel cli checked.1) (on_verdict-ends checked.1)
