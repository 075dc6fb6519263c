-- ===== src/Invoke/Beginning.antt =====
-- grpcurl-core/src/commands/invoke.rs: `run_invoke`, up to the call and as a whole. The warnings on
-- headers are left out.
pub mod Ends
use grpcurl_rs.Base.{
  ℕ, Text, text, List, [], ◌∷◌, ◌++◌, Bool, Option, none, some, if◌then◌else◌, ltb, ◌==◌,
}
use grpcurl_rs.Base.Ints.{ℤ}
use grpcurl_rs.Error.{invalid_argument, of_grpcurl, Metadata, Result, done, fail}
use grpcurl_rs.Format.{Format, json, text_format, FormatOptions}
use grpcurl_rs.Format.Output.{Formatter, Printers, json_formatter, text_formatter}
use grpcurl_rs.Format.Requests.{Codec, RequestParser, new_parser}
use grpcurl_rs.Metadata.{Crates, metadata_from_headers, metadata_to_string}
use grpcurl_rs.Metadata.Expand.{expand_headers}
use grpcurl_rs.Descriptor.{Reflect, DescriptorSource, Asked}
use grpcurl_rs.Descriptor.Export.{write_protoset}
use grpcurl_rs.Descriptor.Writing.{Disk, Written, write_proto_files}
use grpcurl_rs.DescriptorText.{Syntax}
use grpcurl_rs.DescriptorText.Describe.{format_method}
use grpcurl_rs.DescriptorText.ProtoFile.{Contents}
use grpcurl_rs.Invoke.Config.{InvokeConfig}
use grpcurl_rs.Invoke.Method.{Ended, returned, raised, resolve_method}
use grpcurl_rs.Invoke.Events.{
  Event, stdout, Run, after, Client, Render, InvokeContext, InvokeResult,
}
use grpcurl_rs.Invoke.Invocation.{run_call}

-- What `run_invoke` uses of the system and of the crates: the writing of a protoset, the file
-- system, the standard input, the error of a path, and the client with its limit.
pub record Surroundings (reflect : Reflect) (Message Value : Type 0) : Type 0 where
  pub save_protoset : List reflect.FileProto → Option Text
  pub disk : Disk
  pub stdin : Result Text
  pub path_error : Text → Option Text
  pub client : Option ℤ → Client Message
  -- the codec of a method's messages
  pub codec : Codec Message Value
  pub printers : Printers Message
  pub crates : Crates
  pub unicode : ℕ → Bool
  pub env : Text → Option Text

-- A step: `none` where the fuel ends.
abbrev pub Step : Type 0 → Type 0 → Type 0
Step Message A = Option (Run Message A)

abbrev pub and_after : {Message A : Type 0} → List (Event Message) → Step Message A → Step Message A
and_after events none = none
and_after events (some run) = some (after events run)

abbrev pub and_then :
    {Message A B : Type 0} → Step Message A → (A → Step Message B) → Step Message B
and_then none next = none
and_then (some (events, raised e)) next = some (events, raised e)
and_then (some (events, returned a)) next = and_after events (next a)

abbrev of_result : {Message A : Type 0} → Result A → Run Message A
of_result (done a) = ([], returned a)
of_result (fail e) = ([], raised (of_grpcurl e))

-- A step that asks the source: what is left of its state besides.
abbrev pub Asking : Type 0 → Type 0 → Type 0 → Type 0
Asking State Message A = Option (Run Message A × State)

abbrev pub asked_then :
    {State Message A B : Type 0}
    → Asking State Message A
    → (A → State → Step Message B)
    → Step Message B
asked_then none next = none
asked_then (some ((events, raised e), state)) next = some (events, raised e)
asked_then (some ((events, returned a), state)) next = and_after events (next a state)

abbrev pub of_export : {State Message A : Type 0} → Asked State A → Asking State Message A
of_export none = none
of_export (some (r, state)) = some (of_result r, state)

abbrev pub of_method :
    {State Message A : Type 0} → Option (Ended A × State) → Asking State Message A
of_method none = none
of_method (some (end, state)) = some (([], end), state)

abbrev pub end_of_writing : {State : Type 0} → Option (Written × State) → Asked State (Unit {0})
end_of_writing none = none
end_of_writing (some ((files, end), state)) = some (end, state)

abbrev say : {Message : Type 0} → ℕ → Text → Step Message (Unit {0})
say verbosity t = some (if ltb 0 verbosity then stdout t ∷ [] else [], returned tt)

module _ {reflect : Reflect} {State Message Value : Type 0} (syntax : Syntax reflect)
    (contents : Contents reflect) (around : Surroundings reflect Message Value)
    (source : DescriptorSource reflect State) (config : InvokeConfig) (symbol : Text) where
  export_protoset : ℕ → Option Text → State → Asking State Message (Unit {0})
  export_protoset fuel none state = some (([], returned tt), state)
  export_protoset fuel (some path) state =
      of_export (write_protoset reflect around.save_protoset fuel path source (symbol ∷ []) state)

  export_protos : ℕ → Option Text → State → Asking State Message (Unit {0})
  export_protos fuel none state = some (([], returned tt), state)
  export_protos fuel (some dir) state = of_export (
      end_of_writing
        (write_proto_files syntax contents around.disk fuel dir source (symbol ∷ []) state))

  abbrev pub format_options : FormatOptions
  format_options = record {
    emit_defaults = config.emit_defaults;
    allow_unknown_fields = config.allow_unknown_fields;
  }

  response_formatter : Format → Formatter Message
  response_formatter json = json_formatter around.printers format_options
  response_formatter text_format = text_formatter around.printers (config.verbosity == 0)

  abbrev all_headers : Result (List Text)
  all_headers =
      let headers = config.headers ++ config.rpc_headers in
      if config.expand_headers
      then expand_headers around.unicode around.env headers
      else done headers

  abbrev pub method_path : reflect.Method → Text
  method_path method =
      b'/'
      ∷ (reflect.service_full_name (reflect.parent_service method)
          ++ b'/' ∷ reflect.method_name method)

  abbrev parsed_path : Text → Result Text
  parsed_path path = elim (around.path_error path) [
    | none ↦ done path
    | some e ↦ fail (invalid_argument (text "invalid method path: " ++ e))
  ]

  abbrev context : RequestParser → Metadata → Text → InvokeContext Message
  context parser request_metadata path = record {
    client = around.client config.max_msg_sz;
    parser = parser;
    path = path;
    formatter = response_formatter config.format;
    request_metadata = request_metadata;
    verbosity = config.verbosity;
  }

  -- What a method's call needs, behind the exports.
  unfoldable pub prepare_call : reflect.Method → Step Message (InvokeContext Message)
  unfolding response_formatter
  prepare_call method =
      and_then
        (say config.verbosity
          (text "\nResolved method descriptor:\n" ++ (format_method syntax method ++ text "\n")))
        (λ _.
          and_then
            (some (
              of_result
                (new_parser around.codec around.stdin config.format config.payload format_options)))
            (λ parser. and_then (some (of_result all_headers)) (λ headers.
              let request_metadata = (metadata_from_headers around.crates headers).metadata in
              and_then
                (say config.verbosity (
                  text "\nRequest metadata to send:\n"
                  ++ (metadata_to_string around.crates request_metadata ++ text "\n")))
                (λ _.
                  and_then (some (of_result (parsed_path (method_path method))))
                    (λ path. some ([], returned (context parser request_metadata path)))))))

  unfoldable pub run_invoke : ℕ → Render Message → State → Step Message InvokeResult
  unfolding export_protoset export_protos
  run_invoke fuel render state =
      asked_then (of_method (resolve_method reflect source symbol state)) (λ method resolved.
        asked_then (export_protoset fuel config.protoset_out resolved) (λ _ written.
          asked_then (export_protos fuel config.proto_out_dir written) (λ _ _.
            and_then (prepare_call method) (λ ctx.
              run_call around.codec around.crates render fuel (reflect.is_client_streaming method)
                (reflect.is_server_streaming method) ctx))))
