-- ===== src/Reflection/Source/Answers.antt =====
-- grpcurl-core/src/reflection.rs: what queries keep of a source's pool.
use grpcurl_rs.Base.{ℕ, Text, List, [], ◌∷◌, Option, none, some, ◌≡◌, refl}
use grpcurl_rs.Base.Ints.{ℤ}
use grpcurl_rs.Error.{Result, done, fail}
use grpcurl_rs.Descriptor.{Reflect, SymbolDescriptor}
use grpcurl_rs.Descriptor.Lookup.{find_symbol_in_pool}
use grpcurl_rs.Reflection.{
  file_containing_symbol, file_containing_extension, all_extension_numbers_of_type, MessageResponse,
  list_services, list_services_response, file_descriptor_response, all_extension_numbers_response,
  Server, Version, reflect,
}
use grpcurl_rs.Reflection.Pool.{PoolCrate, connected, add_file_descriptors}
use grpcurl_rs.Reflection.Pool.Kept.{EndsGood, add_file_descriptors-Good}
use grpcurl_rs.Reflection.Source.{
  State, services_of, list_services_async, look_again, take_symbol_response, symbol_or_fetch,
  find_symbol_async, state_of, take_extension_response, and_then, fetch_extensions,
  collect_extensions, take_numbers, all_extensions_async,
}

-- What a source is asked.
pub data Query : Type 0 where
  services : Query
  symbol extensions : Text → Query

module _ {descriptors : Reflect} {World : Type 0} (crate : PoolCrate descriptors)
    (server : Server World) where
  abbrev left_by {ℓ} :
      {A : Type ℓ} → Option (Result A × State crate server) → Option (State crate server)
  left_by none = none
  left_by (some (result, state)) = some state

  -- The state that a query leaves.
  unfoldable pub ask : ℕ → Query → State crate server → Option (State crate server)
  ask fuel services state = some (list_services_async crate server state).1
  ask fuel (symbol name) state = left_by (find_symbol_async crate server fuel name state)
  ask fuel (extensions name) state = left_by (all_extensions_async crate server fuel name state)

  abbrev pub ask_all : ℕ → List Query → State crate server → Option (State crate server)
  ask_all fuel [] state = some state
  ask_all fuel (q ∷ qs) state = and_then crate server (ask_all fuel qs) (ask fuel q state)

module _ {descriptors : Reflect} {World : Type 0} (crate : PoolCrate descriptors)
    (server : Server World) (Good : descriptors.Pool → Type 0)
    (kept : (pool : descriptors.Pool) (files : List descriptors.FileProto)
      → Good pool
      → Good (crate.add_file_descriptor_set pool files).0) where
  abbrev pub StillGood : Option (State crate server) → Type 0
  StillGood none = Unit
  StillGood (some state) = Good state.pool

  left_by-Good {ℓ} :
      {A : Type ℓ} (answer : Option (Result A × State crate server))
      → EndsGood crate server Good kept answer
      → StillGood (left_by crate server answer)
  left_by-Good none g = tt
  left_by-Good (some (r, state)) g = g

  look_again-Good :
      (name : Text) (end : Option (Result (Unit {0}) × State crate server))
      → EndsGood crate server Good kept end
      → EndsGood crate server Good kept (look_again crate server name end)
  look_again-Good name none g = tt
  look_again-Good name (some (fail e, state)) g = g
  look_again-Good name (some (done u, state)) g = g

  take_symbol_response-Good :
      (fuel : ℕ) (name : Text) (response : Result MessageResponse × (Version × World))
      (state : State crate server)
      → Good state.pool
      → EndsGood crate server Good kept (take_symbol_response crate server fuel name response state)
  take_symbol_response-Good fuel name (fail e, connection) state g = g
  take_symbol_response-Good fuel name (done (file_descriptor_response files), connection) state g =
      look_again-Good name
        (add_file_descriptors crate server fuel files (connected crate server connection state))
        (add_file_descriptors-Good crate server Good kept fuel files
          (connected crate server connection state) g)
  take_symbol_response-Good fuel name (done r, connection) state g = g

  symbol_or_fetch-Good :
      (fuel : ℕ) (name : Text) (found : Result (SymbolDescriptor descriptors))
      (state : State crate server)
      → Good state.pool
      → EndsGood crate server Good kept (symbol_or_fetch crate server fuel name found state)
  symbol_or_fetch-Good fuel name (done s) state g = g
  symbol_or_fetch-Good fuel name (fail e) state g =
      take_symbol_response-Good fuel name
        (reflect server state.connection (file_containing_symbol name)) state g

  state_of-Good :
      (end : Option (Result (Unit {0}) × State crate server))
      → EndsGood crate server Good kept end
      → StillGood (state_of crate server end)
  state_of-Good none g = tt
  state_of-Good (some (r, state)) g = g

  take_extension_response-Good :
      (fuel : ℕ) (response : Result MessageResponse × (Version × World))
      (state : State crate server)
      → Good state.pool
      → StillGood (take_extension_response crate server fuel response state)
  take_extension_response-Good fuel (done (file_descriptor_response files), connection) state g =
      state_of-Good
        (add_file_descriptors crate server fuel files (connected crate server connection state))
        (add_file_descriptors-Good crate server Good kept fuel files
          (connected crate server connection state) g)
  take_extension_response-Good fuel (r, connection) state g = g

  and_then-Good :
      (next : State crate server → Option (State crate server))
      → ((state : State crate server) → Good state.pool → StillGood (next state))
      → (end : Option (State crate server)) → StillGood end
      → StillGood (and_then crate server next end)
  and_then-Good next h none g = tt
  and_then-Good next h (some state) g = h state g

  fetch_extensions-Good :
      (fuel : ℕ) (name : Text) (ns : List ℤ) (state : State crate server)
      → Good state.pool
      → StillGood (fetch_extensions crate server fuel name ns state)
  unfolding fetch_extensions
  fetch_extensions-Good fuel name [] state g = g
  fetch_extensions-Good fuel name (n ∷ ns) state g =
      let response = reflect server state.connection (file_containing_extension name n) in
      and_then-Good (fetch_extensions crate server fuel name ns)
        (fetch_extensions-Good fuel name ns)
        (take_extension_response crate server fuel response state)
        (take_extension_response-Good fuel response state g)

  collect_extensions-Good :
      (name : Text) (end : Option (State crate server))
      → StillGood end
      → EndsGood crate server Good kept (collect_extensions crate server name end)
  collect_extensions-Good name none g = tt
  collect_extensions-Good name (some state) g = g

  take_numbers-Good :
      (fuel : ℕ) (name : Text) (response : Result MessageResponse × (Version × World))
      (state : State crate server)
      → Good state.pool
      → EndsGood crate server Good kept (take_numbers crate server fuel name response state)
  take_numbers-Good fuel name (fail e, connection) state g = g
  take_numbers-Good fuel name (done (all_extension_numbers_response base ns), connection) state g =
      collect_extensions-Good name
        (fetch_extensions crate server fuel name ns (connected crate server connection state))
        (fetch_extensions-Good fuel name ns (connected crate server connection state) g)
  take_numbers-Good fuel name (done r, connection) state g = g

  services_of_keep :
      (response : Result MessageResponse × (Version × World)) (state : State crate server)
      → (services_of crate server response state).1.pool ≡ state.pool
  services_of_keep (done (list_services_response names), connection) state = refl
  services_of_keep (fail e, connection) state = refl
  services_of_keep (done r, connection) state = refl

  services_keep :
      (state : State crate server) → (list_services_async crate server state).1.pool ≡ state.pool
  unfolding list_services_async
  services_keep state = services_of_keep (reflect server state.connection (list_services [])) state

  ask-Good :
      (fuel : ℕ) (q : Query) (state : State crate server)
      → Good state.pool
      → StillGood (ask crate server fuel q state)
  unfolding ask find_symbol_async all_extensions_async
  ask-Good fuel services state g = rw (services_keep state) g
  ask-Good fuel (symbol name) state g =
      left_by-Good
        (symbol_or_fetch crate server fuel name (find_symbol_in_pool descriptors state.pool name)
          state)
        (symbol_or_fetch-Good fuel name (find_symbol_in_pool descriptors state.pool name) state g)
  ask-Good fuel (extensions name) state g =
      let response = reflect server state.connection (all_extension_numbers_of_type name) in
      left_by-Good (take_numbers crate server fuel name response state)
        (take_numbers-Good fuel name response state g)

  pub ask_all-Good :
      (fuel : ℕ) (qs : List Query) (state : State crate server)
      → Good state.pool
      → StillGood (ask_all crate server fuel qs state)
  ask_all-Good fuel [] state g = g
  ask_all-Good fuel (q ∷ qs) state g =
      and_then-Good (ask_all crate server fuel qs) (ask_all-Good fuel qs)
        (ask crate server fuel q state) (ask-Good fuel q state g)
