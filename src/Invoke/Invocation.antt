-- ===== src/Invoke/Invocation.antt =====
-- grpcurl-core/src/commands/invoke.rs: the end of `run_invoke`, from the context on: the call by
-- the kind of the method, and the status of one that fails.
use grpcurl_rs.Base.{
  ℕ, [], ◌++◌, Bool, true, false, Option, none, some, if◌then◌else◌, ltb, ◌⊎◌, inl, inr,
}
use grpcurl_rs.Error.{grpc_status, Status, BoxError, of_grpcurl, of_status, of_message}
use grpcurl_rs.Format.Requests.{Codec, RequestParser, num_requests}
use grpcurl_rs.Metadata.{Crates}
use grpcurl_rs.Invoke.Method.{returned, raised}
use grpcurl_rs.Invoke.Events.{Run, Render, InvokeContext, InvokeResult, print_response_trailers}
use grpcurl_rs.Invoke.Calls.{
  invoke_unary, invoke_server_stream, invoke_client_stream, invoke_bidi_stream,
}

-- The status in a boxed error, or the error.
unfoldable pub extract_grpc_status : BoxError → Status ⊎ BoxError
extract_grpc_status (of_status status) = inl status
extract_grpc_status (of_grpcurl (grpc_status status)) = inl status
extract_grpc_status (of_grpcurl e) = inr (of_grpcurl e)
extract_grpc_status (of_message e) = inr (of_message e)

abbrev pub max_one : ℕ → ℕ
max_one n = if ltb n 1 then 1 else n

module _ {Message Value : Type 0} (codec : Codec Message Value) (crates : Crates)
    (render : Render Message) where
  -- The result of a call, where an error that holds a status is a result too.
  unfoldable pub with_status :
      ℕ → Run Message InvokeResult × RequestParser → Run Message InvokeResult
  unfolding extract_grpc_status
  with_status verbosity ((events, returned result), parser) = (events, returned result)
  with_status verbosity ((events, raised e), parser) = elim (extract_grpc_status e) [
    | inl status ↦ (
      events
          ++ (if ltb 0 verbosity
              then print_response_trailers crates status.metadata verbosity
              else []),
      returned (record {
        status = some status;
        num_requests = max_one (num_requests codec parser);
        num_responses = 0;
      }),
    )
    | inr other_error ↦ (events, raised other_error)
  ]

  -- The call of a method by its two kinds of streaming.
  unfoldable pub dispatch :
      ℕ → Bool → Bool → InvokeContext Message → Option (Run Message InvokeResult × RequestParser)
  dispatch fuel false false ctx = some (invoke_unary codec crates render ctx)
  dispatch fuel false true ctx = some (invoke_server_stream codec crates render ctx)
  dispatch fuel true false ctx = invoke_client_stream codec crates render fuel ctx
  dispatch fuel true true ctx = invoke_bidi_stream codec crates render fuel ctx

  unfoldable pub run_call :
      ℕ → Bool → Bool → InvokeContext Message → Option (Run Message InvokeResult)
  run_call fuel is_client_stream is_server_stream ctx =
      elim (dispatch fuel is_client_stream is_server_stream ctx) [
        | some call ↦ some (with_status ctx.verbosity call)
        | none ↦ none
      ]
