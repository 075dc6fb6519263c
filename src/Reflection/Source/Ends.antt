-- ===== src/Reflection/Source/Ends.antt =====
-- grpcurl-core/src/reflection.rs: the answers of a source, as to whether they come.
use grpcurl_rs.Base.{ℕ, ◌<◌, Text, true, Option, none, some, is_some, ap, ◌≡◌, refl}
use grpcurl_rs.Error.{Result, done, fail}
use grpcurl_rs.Descriptor.{Reflect, SymbolDescriptor}
use grpcurl_rs.Descriptor.Lookup.{find_symbol_in_pool}
use grpcurl_rs.Descriptor.Answering.{Answers}
use grpcurl_rs.Reflection.{
  file_by_filename, file_containing_symbol, MessageResponse, file_descriptor_response, Server,
  Version, reflect,
}
use grpcurl_rs.Reflection.Pool.{PoolCrate, connected, add_file_descriptors}
use grpcurl_rs.Reflection.Pool.Ends.{AnswersBelow, add_file_descriptors-ends}
use grpcurl_rs.Reflection.Source.{
  State, look_again, take_symbol_response, symbol_or_fetch, find_symbol_async, server_source,
}

module _ {descriptors : Reflect} {World : Type 0} (crate : PoolCrate descriptors)
    (server : Server World) (rank : Text → ℕ)
    (acyclic : (connection : Version × World) (dep : Text)
      → AnswersBelow crate server rank
          (rank dep)
          (reflect server connection (file_by_filename dep)))
    (r fuel : ℕ)
    (symbols_below : (connection : Version × World) (name : Text)
      → AnswersBelow crate server rank r (reflect server connection (file_containing_symbol name)))
    (enough : r < fuel) where
  look_again-comes :
      (name : Text) (end : Option (Result (Unit {0}) × State crate server))
      → is_some end ≡ true
      → is_some (look_again crate server name end) ≡ true
  look_again-comes name none h = cc
  look_again-comes name (some (fail e, state)) h = refl
  look_again-comes name (some (done u, state)) h = refl

  take_symbol_response-comes :
      (name : Text) (response : Result MessageResponse × (Version × World))
      (state : State crate server)
      → AnswersBelow crate server rank r response
      → is_some (take_symbol_response crate server fuel name response state) ≡ true
  take_symbol_response-comes name (fail e, connection) state h = refl
  take_symbol_response-comes name (done (file_descriptor_response files), connection) state h =
      let after = connected crate server connection state in
      let (last, e) =
        add_file_descriptors-ends crate server rank acyclic fuel r files after h enough in
      look_again-comes name (add_file_descriptors crate server fuel files after) (ap is_some e)
  take_symbol_response-comes name (done x, connection) state h = refl

  symbol_or_fetch-comes :
      (name : Text) (first : Result (SymbolDescriptor descriptors)) (state : State crate server)
      → is_some (symbol_or_fetch crate server fuel name first state) ≡ true
  symbol_or_fetch-comes name (done symbol) state = refl
  symbol_or_fetch-comes name (fail e) state =
      take_symbol_response-comes name
        (reflect server state.connection (file_containing_symbol name)) state
        (symbols_below state.connection name)

  -- Where the imports of the server's files are acyclic and ranked, and the fuel is above the ranks
  -- of what the files with a symbol import, each question gets an answer.
  pub server_source-Answers : Answers (server_source crate server fuel)
  unfolding server_source find_symbol_async
  server_source-Answers = record {
    services_come = λ state. refl;
    symbols_come = λ name state.
        symbol_or_fetch-comes name (find_symbol_in_pool descriptors state.pool name) state;
  }
