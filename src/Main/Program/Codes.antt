-- ===== src/Main/Program/Codes.antt =====
-- grpcurl-cli/src/main.rs: the exit code of the program against its command line.
use grpcurl_rs.Base.{
  Bool, true, ℕ, ◌+◌, ◌≤◌, Text, text, List, Option, none, some, ◌≡◌, ◌≢◌, refl, sym, ap, ◌∙◌, ◌⊎◌,
  inl, inr, arith,
}
use mathlib.Core.Path.{subst}
use grpcurl_rs.Error.{Result, done, fail, Panicking, returns, panics}
use grpcurl_rs.Connection.Panics.{has_bad_duration, create_channel-panics}
use grpcurl_rs.Cli.{Cli, ParsedArgs, Command, list, describe, invoke, verbosity, connection_config}
use grpcurl_rs.Cli.Validate.{Verdict, reject, accept, validate}
use grpcurl_rs.Cli.Validate.Sound.{validate_iff}
use grpcurl_rs.Commands.{Printed, run_list}
use grpcurl_rs.Descriptor.{Reflect, Asked}
use grpcurl_rs.Invoke.Beginning.{Step}
use grpcurl_rs.Invoke.Events.{Event, InvokeResult}
use grpcurl_rs.Invoke.Method.{Ended}
use grpcurl_rs.Main.{report_call}
use grpcurl_rs.Main.Exit.{IsExit, unknown_status, success, failure, error, report_call-IsExit}
use grpcurl_rs.Main.Sources.{
  SourceChoice, Chosen, asked_server, reflection_part, create_descriptor_source,
}
use grpcurl_rs.Main.World.{World}
use grpcurl_rs.Main.Program.{
  Ends, State, Source, source_of, start, go_on, after_command, after_export, quoted,
  resolve_export_symbols, export_protoset, export_proto_files, ended, export_all, list_command,
  describe_command, tell, call_on, call_command, with_source, source_for, invoke_command,
  run_command, on_verdict, warned, run_main,
}

-- The exit code of an accepted command: 0, 1, of a call 64 and the number of a failed status, or,
-- where a number of seconds has no duration, that of a panic.
pub data IsCode (bad_duration : Bool) (command : Command) : ℕ → Type 0 where
  ended_well : IsCode bad_duration command 0
  ended_badly : IsCode bad_duration command 1
  ended_with_status :
      (n : ℕ) → command ≡ invoke → 1 ≤ n → n ≤ 16 → IsCode bad_duration command (64 + n)
  ended_by_panic : bad_duration ≡ true → IsCode bad_duration command 101

IsCode-IsExit :
    (bad : Bool) (end : Ended InvokeResult) (code : ℕ) → IsExit end code → IsCode bad invoke code
IsCode-IsExit bad end code (unknown_status result e) = ended_well
IsCode-IsExit bad end code (success result status e k) = ended_well
IsCode-IsExit bad end code (failure result status n e k low high) =
    ended_with_status n refl low high
IsCode-IsExit bad end code (error e) = ended_badly

module _ {Seconds : Type 0} {reflect : Reflect} {Message Value : Type 0}
    (world : World Seconds reflect Message Value) (fuel : ℕ) (cli : Cli Seconds) where
  -- A number of seconds that the connection is made with has no duration.
  abbrev pub bad : Bool
  bad = has_bad_duration world.tls world.tonic (connection_config cli)

  -- Where it ends, the code is one of the command's.
  abbrev Codes : Command → Ends world fuel cli → Type 0
  Codes c none = Unit
  Codes c (some (events, code)) = IsCode bad c code

  go_on-Codes :
      (c : Command) (lines : List Text) (rest : Ends world fuel cli)
      → Codes c rest
      → Codes c (go_on world fuel cli lines rest)
  go_on-Codes c lines none h = tt
  go_on-Codes c lines (some (events, code)) h = h

  after_command-Codes :
      (c : Command) (what : Text) (printed : Option (Printed × State world fuel cli))
      (rest : State world fuel cli → Ends world fuel cli)
      → ((state : State world fuel cli) → Codes c (rest state))
      → Codes c (after_command world fuel cli what printed rest)
  after_command-Codes c what none rest h = tt
  after_command-Codes c what (some ((lines, done u), state)) rest h =
      go_on-Codes c lines (rest state) (h state)
  after_command-Codes c what (some ((lines, fail e), state)) rest h = ended_badly

  after_export-Codes :
      (c : Command) (what : Text) (exported : Asked (State world fuel cli) (Unit {0}))
      (rest : State world fuel cli → Ends world fuel cli)
      → ((state : State world fuel cli) → Codes c (rest state))
      → Codes c (after_export world fuel cli what exported rest)
  after_export-Codes c what none rest h = tt
  after_export-Codes c what (some (done u, state)) rest h = h state
  after_export-Codes c what (some (fail e, state)) rest h = ended_badly

  export_proto_files-Codes :
      (c : Command) (source : Source world fuel cli) (symbols : List Text) (dir : Option Text)
      (rest : State world fuel cli → Ends world fuel cli) (state : State world fuel cli)
      → ((state : State world fuel cli) → Codes c (rest state))
      → Codes c (export_proto_files world fuel cli source symbols dir rest state)
  unfolding export_proto_files
  export_proto_files-Codes c source symbols none rest state h = h state
  export_proto_files-Codes c source symbols (some dir) rest state h =
      after_export-Codes c _ _ rest h

  export_protoset-Codes :
      (c : Command) (source : Source world fuel cli) (symbols : List Text) (path : Option Text)
      (rest : State world fuel cli → Ends world fuel cli) (state : State world fuel cli)
      → ((state : State world fuel cli) → Codes c (rest state))
      → Codes c (export_protoset world fuel cli source symbols path rest state)
  unfolding export_protoset
  export_protoset-Codes c source symbols none rest state h = h state
  export_protoset-Codes c source symbols (some path) rest state h = after_export-Codes c _ _ rest h

  export_all-Codes :
      (c : Command) (source : Source world fuel cli)
      (symbols : Asked (State world fuel cli) (List Text))
      → Codes c (export_all world fuel cli source symbols)
  export_all-Codes c source none = tt
  export_all-Codes c source (some (fail e, state)) = ended_badly
  export_all-Codes c source (some (done symbols, state)) =
      export_protoset-Codes c source symbols cli.protoset_out
        (export_proto_files world fuel cli source symbols cli.proto_out_dir (ended world fuel cli))
        state
        (λ after.
          export_proto_files-Codes c source symbols cli.proto_out_dir (ended world fuel cli) after
            (λ _. ended_well))

  list_command-Codes :
      (sym : Option Text) (source : Source world fuel cli) (state : State world fuel cli)
      → Codes list (list_command world fuel cli sym source state)
  unfolding list_command
  list_command-Codes sym source state =
      after_command-Codes list
        (quoted world fuel cli (text "Failed to list methods for service") sym
          (text "Failed to list services"))
        (run_list reflect source sym state)
        (λ after.
          export_all world fuel cli source (resolve_export_symbols world fuel cli source sym after))
        (λ after.
          export_all-Codes list source (resolve_export_symbols world fuel cli source sym after))

  describe_command-Codes :
      (sym : Option Text) (source : Source world fuel cli) (state : State world fuel cli)
      → Codes describe (describe_command world fuel cli sym source state)
  unfolding describe_command
  describe_command-Codes sym source state =
      after_command-Codes describe _ _
        (λ after.
          export_all world fuel cli source (resolve_export_symbols world fuel cli source sym after))
        (λ after.
          export_all-Codes describe source (resolve_export_symbols world fuel cli source sym after))

  tell-Codes :
      (symbol : Text) (step : Step Message InvokeResult)
      → Codes invoke (tell world fuel cli symbol step)
  tell-Codes symbol none = tt
  tell-Codes symbol (some (events, end)) =
      IsCode-IsExit bad end
        (report_call world.details world.error_text (verbosity cli) cli.format_error symbol end).1
        (report_call-IsExit world.details world.error_text (verbosity cli) cli.format_error symbol
          end)

  call_on-Codes :
      (address symbol : Text) (source : Source world fuel cli) (state : State world fuel cli)
      (channel : Panicking (Result world.tonic.Channel))
      → (channel ≡ panics → bad ≡ true)
      → Codes invoke (call_on world fuel cli address symbol source state channel)
  call_on-Codes address symbol source state panics h = ended_by_panic (h refl)
  call_on-Codes address symbol source state (returns (fail e)) h = ended_badly
  call_on-Codes address symbol source state (returns (done channel)) h = tell-Codes symbol _

  call_command-Codes :
      (address symbol : Text) (source : Source world fuel cli) (state : State world fuel cli)
      → Codes invoke (call_command world fuel cli address symbol source state)
  unfolding call_command
  call_command-Codes address symbol source state =
      call_on-Codes address symbol source state _
        (create_channel-panics world.tls world.tonic (connection_config cli) address)

  asked_server-panics :
      (address : Text)
      → asked_server world.loader world.tls world.tonic world.system.crates world.system.unicode
          world.system.env cli
          (connection_config cli)
          address
        ≡ panics
      → bad ≡ true
  asked_server-panics address e =
      ground (arith, e, create_channel-panics world.tls world.tonic (connection_config cli) address)

  source_for-panics :
      (address : Option Text) → source_for world fuel cli address ≡ panics → bad ≡ true
  unfolding create_descriptor_source reflection_part
  source_for-panics none e = ground (arith, e)
  source_for-panics (some address) e = ground (arith, e, asked_server-panics address)

  with_source-Codes :
      (c : Command) (command : Source world fuel cli → State world fuel cli → Ends world fuel cli)
      (source : Panicking (Result (Chosen (SourceChoice world.tonic.Channel reflect.Pool))))
      → (source ≡ panics → bad ≡ true)
      → ((s : Source world fuel cli) (state : State world fuel cli) → Codes c (command s state))
      → Codes c (with_source world fuel cli command source)
  with_source-Codes c command panics p h = ended_by_panic (p refl)
  with_source-Codes c command (returns (fail e)) p h = ended_badly
  with_source-Codes c command (returns (done (choice, warnings))) p h =
      h (source_of world fuel cli choice) (start world fuel cli)

  invoke_command-Codes :
      (address symbol : Option Text)
      → address ≢ none
      → symbol ≢ none
      → Codes invoke (invoke_command world fuel cli address symbol)
  unfolding invoke_command
  invoke_command-Codes none symbol h k = absurd (h refl)
  invoke_command-Codes (some address) none h k = absurd (k refl)
  invoke_command-Codes (some address) (some symbol) h k =
      with_source-Codes invoke (call_command world fuel cli address symbol)
        (source_for world fuel cli (some address)) (source_for-panics (some address))
        (call_command-Codes address symbol)

  run_command-Codes :
      (c : Command) (p : ParsedArgs)
      → (c ≡ invoke → p.address ≢ none)
      → (c ≡ invoke → p.symbol ≢ none)
      → Codes c (run_command world fuel cli c p)
  unfolding run_command
  run_command-Codes list p h k =
      with_source-Codes list (list_command world fuel cli p.symbol)
        (source_for world fuel cli p.address) (source_for-panics p.address)
        (list_command-Codes p.symbol)
  run_command-Codes describe p h k =
      with_source-Codes describe (describe_command world fuel cli p.symbol)
        (source_for world fuel cli p.address) (source_for-panics p.address)
        (describe_command-Codes p.symbol)
  run_command-Codes invoke p h k = invoke_command-Codes p.address p.symbol (h refl) (k refl)

  warned-code :
      (warnings : List Text) (end : Ends world fuel cli) (events : List (Event Message)) (code : ℕ)
      → warned world fuel cli warnings end ≡ some (events, code)
      → (own : List (Event Message)) × (end ≡ some (own, code))
  warned-code warnings none events code e = cc
  warned-code warnings (some (own, c)) events code e = (own, cc)

  Verdict-cases :
      (v : Verdict ParsedArgs)
      → ((p : ParsedArgs) × (v ≡ accept p)) ⊎ ((msg : Text) × (v ≡ reject msg))
  Verdict-cases (accept p) = inl (p, refl)
  Verdict-cases (reject msg) = inr (msg, refl)

  -- Where the program ends, it ends with 2 if the command line is refused, and if it is accepted
  -- with 0, 1, of a call 64 and the number of a failed status from 1 to 16, or with 101, that of a
  -- panic, only if a number of seconds that the connection is made with has no duration: it never
  -- panics for a missing address or method.
  pub run_main_codes :
      (events : List (Event Message)) (code : ℕ)
      → run_main world fuel cli ≡ some (events, code)
      → ((msg : Text) × ((validate world.lt_zero cli).1 ≡ reject msg) × (code ≡ 2))
        ⊎ ((p : ParsedArgs) × ((validate world.lt_zero cli).1 ≡ accept p)
            × IsCode bad p.command code)
  unfolding run_main
  run_main_codes events code e =
      let checked = validate world.lt_zero cli in
      let (own, ends) = warned-code checked.0 (on_verdict world fuel cli checked.1) events code e in
      elim (Verdict-cases checked.1) [
        | inl (p, v) ↦
            let (flags, formed, rendered, sources) = (validate_iff world.lt_zero cli p).0 v in
            let run = ap (on_verdict world fuel cli) (sym v) ∙ ends in
            inr (
              p,
              v,
              subst (Codes p.command) run
                  (run_command-Codes p.command p formed.address_given formed.method_given),
            )
        | inr (msg, v) ↦
            let run : on_verdict world fuel cli (reject msg) ≡ some (own, code) =
              ap (on_verdict world fuel cli) (sym v) ∙ ends in
            inl (msg, v, ground (arith, run))
      ]
