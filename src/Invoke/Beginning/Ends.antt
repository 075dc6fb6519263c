-- ===== src/Invoke/Beginning/Ends.antt =====
-- grpcurl-core/src/commands/invoke.rs: `run_invoke`, as to whether it ends.
use grpcurl_rs.Base.{
  Option-cases, inl, inr, ℕ, ◌<◌, Text, List, [], ◌∷◌, true, Option, none, some, is_some, ap, ◌≡◌,
  refl, arith,
}
use grpcurl_rs.Error.{done}
use grpcurl_rs.Descriptor.{Reflect, DescriptorSource, SymbolDescriptor, Asked}
use grpcurl_rs.Descriptor.Answering.{Answers}
use grpcurl_rs.Descriptor.Writing.{Written, write_proto_files}
use grpcurl_rs.Descriptor.Export.{expand_files, write_protoset}
use grpcurl_rs.Descriptor.Writing.Ends.{write_proto_files-ends, write_protoset-ends}
use grpcurl_rs.DescriptorText.{Syntax}
use grpcurl_rs.DescriptorText.ProtoFile.{Contents, file_format_message}
use grpcurl_rs.Format.Requests.{RequestParser, new_parser, Takes}
use grpcurl_rs.Format.Requests.Progress.{remaining}
use grpcurl_rs.Invoke.Config.{InvokeConfig}
use grpcurl_rs.Invoke.Method.{Ended, returned, raised, split_method, method_asked, resolve_method}
use grpcurl_rs.Invoke.Events.{Event, Render, InvokeContext, InvokeResult}
use grpcurl_rs.Invoke.Invocation.{run_call}
use grpcurl_rs.Invoke.Termination.{run_call_total}
use grpcurl_rs.Invoke.Beginning.{
  Surroundings, Step, Asking, asked_then, of_export, of_method, end_of_writing, and_then,
  export_protoset, export_protos, format_options, prepare_call, run_invoke,
}

and_then-ends :
    {Message A B : Type 0} (m : Step Message A) (next : A → Step Message B)
    → is_some m ≡ true
    → ((events : List (Event Message)) (a : A)
        → m ≡ some (events, returned a)
        → is_some (next a) ≡ true)
    → is_some (and_then m next) ≡ true
and_then-ends none next h k = cc
and_then-ends (some (events, raised e)) next h k = refl
and_then-ends (some (events, returned a)) next h k =
    let there = k events a refl in ground (arith, there)

asked_then-ends :
    {State Message A B : Type 0} (m : Asking State Message A) (next : A → State → Step Message B)
    → is_some m ≡ true
    → ((a : A) (state : State) → is_some (next a state) ≡ true)
    → is_some (asked_then m next) ≡ true
asked_then-ends none next h k = cc
asked_then-ends (some ((events, raised e), state)) next h k = refl
asked_then-ends (some ((events, returned a), state)) next h k =
    let there = k a state in ground (arith, there)

module _ {reflect : Reflect} {State Message Value : Type 0} (syntax : Syntax reflect)
    (contents : Contents reflect) (around : Surroundings reflect Message Value)
    (source : DescriptorSource reflect State) (answers : Answers source) (config : InvokeConfig)
    (symbol : Text) (fuel : ℕ)
    (messages_end : (pkg : Text) (msg : reflect.Message)
      → is_some (file_format_message syntax pkg fuel msg) ≡ true)
    (files_end : (roots : List reflect.File)
      → is_some (expand_files reflect fuel roots) ≡ true) where
  of_export-ends :
      {A : Type 0} (answer : Asked State A)
      → is_some answer ≡ true
      → is_some (of_export {Message = Message} answer) ≡ true
  of_export-ends none h = cc
  of_export-ends (some (r, state)) h = refl

  of_writing-ends :
      (written : Option (Written × State))
      → is_some written ≡ true
      → is_some (end_of_writing written) ≡ true
  of_writing-ends none h = cc
  of_writing-ends (some ((files, end), state)) h = refl

  export_protoset-ends :
      (path : Option Text) (state : State)
      → is_some (export_protoset syntax contents around source config symbol fuel path state) ≡ true
  unfolding export_protoset
  export_protoset-ends none state = refl
  export_protoset-ends (some path) state =
      of_export-ends
        (write_protoset reflect around.save_protoset fuel path source (symbol ∷ []) state)
        (write_protoset-ends syntax contents around.disk fuel messages_end files_end source answers
          around.save_protoset path (symbol ∷ []) state)

  export_protos-ends :
      (dir : Option Text) (state : State)
      → is_some (export_protos syntax contents around source config symbol fuel dir state) ≡ true
  unfolding export_protos
  export_protos-ends none state = refl
  export_protos-ends (some dir) state =
      let written =
        write_proto_files syntax contents around.disk fuel dir source (symbol ∷ []) state in
      of_export-ends (end_of_writing written) (
        of_writing-ends written (
          write_proto_files-ends syntax contents around.disk fuel messages_end files_end source
            answers dir (symbol ∷ []) state))

  method_asked-ends :
      (service_name method_name : Text) (answer : Asked State (SymbolDescriptor reflect))
      → is_some answer ≡ true
      → is_some (method_asked reflect service_name method_name answer) ≡ true
  method_asked-ends service_name method_name none h = cc
  method_asked-ends service_name method_name (some (a, state)) h = refl

  resolve_method-ends :
      (state : State) → is_some (resolve_method reflect source symbol state) ≡ true
  unfolding resolve_method
  resolve_method-ends state = elim (Option-cases (split_method reflect symbol)) [
    | inl e ↦ ground (arith, e)
    | inr ((service_name, method_name), e) ↦ ground (
      arith,
      e,
      method_asked-ends service_name method_name (source.find_symbol service_name state)
          (answers.symbols_come service_name state),
    )
  ]

  of_method-ends :
      (end : Option (Ended reflect.Method × State))
      → is_some end ≡ true
      → is_some (of_method {Message = Message} end) ≡ true
  of_method-ends none h = cc
  of_method-ends (some (end, state)) h = refl

  prepare_call-ends :
      (method : reflect.Method)
      → is_some (prepare_call syntax contents around source config symbol method) ≡ true
  unfolding prepare_call
  prepare_call-ends method = ground arith

  prepare_call-parser :
      (method : reflect.Method) (events : List (Event Message)) (ctx : InvokeContext Message)
      → prepare_call syntax contents around source config symbol method
        ≡ some (events, returned ctx)
      → new_parser around.codec around.stdin config.format config.payload
          (format_options syntax contents around source config symbol)
        ≡ done ctx.parser
  unfolding prepare_call
  prepare_call-parser method events ctx e = ground (arith, e)

  abbrev call_from : Render Message → reflect.Method → Step Message InvokeResult
  call_from render method =
      and_then (prepare_call syntax contents around source config symbol method) (λ ctx.
        run_call around.codec around.crates render fuel (reflect.is_client_streaming method)
          (reflect.is_server_streaming method) ctx)

  abbrev exports_from : Render Message → reflect.Method → State → Step Message InvokeResult
  exports_from render method resolved =
      asked_then
        (export_protoset syntax contents around source config symbol fuel config.protoset_out
          resolved)
        (λ _ written.
          asked_then
            (export_protos syntax contents around source config symbol fuel config.proto_out_dir
              written)
            (λ _ _. call_from render method))

  call_from-ends :
      (render : Render Message) (takes : Takes around.codec)
      → ((parser : RequestParser)
          → new_parser around.codec around.stdin config.format config.payload
              (format_options syntax contents around source config symbol)
            ≡ done parser
          → remaining around.codec takes parser < fuel)
      → (method : reflect.Method) → is_some (call_from render method) ≡ true
  call_from-ends render takes below method =
      and_then-ends (prepare_call syntax contents around source config symbol method)
        (λ ctx.
          run_call around.codec around.crates render fuel (reflect.is_client_streaming method)
            (reflect.is_server_streaming method) ctx)
        (prepare_call-ends method)
        (λ events ctx e.
          let (run, r) =
            run_call_total around.codec around.crates render takes fuel
              (reflect.is_client_streaming method) (reflect.is_server_streaming method) ctx
              (below ctx.parser (prepare_call-parser method events ctx e)) in
          ap is_some r)

  -- Where the printing of messages and the collection of files end, and the fuel is above what a
  -- new parser has to read, a call ends.
  pub run_invoke-ends :
      (render : Render Message) (takes : Takes around.codec)
      → ((parser : RequestParser)
          → new_parser around.codec around.stdin config.format config.payload
              (format_options syntax contents around source config symbol)
            ≡ done parser
          → remaining around.codec takes parser < fuel)
      → (state : State)
      → is_some (run_invoke syntax contents around source config symbol fuel render state) ≡ true
  unfolding run_invoke
  run_invoke-ends render takes below state =
      asked_then-ends (of_method (resolve_method reflect source symbol state))
        (λ method resolved. exports_from render method resolved)
        (of_method-ends (resolve_method reflect source symbol state) (resolve_method-ends state))
        (λ method resolved.
          asked_then-ends
            (export_protoset syntax contents around source config symbol fuel config.protoset_out
              resolved)
            (λ _ written.
              asked_then
                (export_protos syntax contents around source config symbol fuel config.proto_out_dir
                  written)
                (λ _ _. call_from render method))
            (export_protoset-ends config.protoset_out resolved)
            (λ _ written.
              asked_then-ends
                (export_protos syntax contents around source config symbol fuel config.proto_out_dir
                  written)
                (λ _ _. call_from render method) (export_protos-ends config.proto_out_dir written)
                (λ _ _. call_from-ends render takes below method)))
