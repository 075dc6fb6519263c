-- ===== src/Reflection/Source/Remembered.antt =====
-- grpcurl-core/src/reflection.rs: what a source has found, it finds again.
use grpcurl_rs.Base.{ℕ, Text, List, Option, none, some, ◌≡◌, refl}
use mathlib.Core.Path.{subst}
use grpcurl_rs.Error.{Result, done, fail}
use grpcurl_rs.Descriptor.{Reflect, SymbolDescriptor}
use grpcurl_rs.Descriptor.Lookup.{find_symbol_in_pool}
use grpcurl_rs.Reflection.{
  file_containing_symbol, MessageResponse, file_descriptor_response, Server, Version, reflect,
}
use grpcurl_rs.Reflection.Pool.{PoolCrate, connected, add_file_descriptors}
use grpcurl_rs.Reflection.Source.{
  State, look_again, take_symbol_response, symbol_or_fetch, find_symbol_async,
}
use grpcurl_rs.Reflection.Source.Answers.{Query, ask_all, StillGood, ask_all-Good}

module _ {descriptors : Reflect} {World : Type 0} (crate : PoolCrate descriptors)
    (server : Server World) where
  look_again-done :
      (name : Text) (end : Option (Result (Unit {0}) × State crate server))
      (found : SymbolDescriptor descriptors) (after : State crate server)
      → look_again crate server name end ≡ some (done found, after)
      → find_symbol_in_pool descriptors after.pool name ≡ done found
  look_again-done name none found after e = cc
  look_again-done name (some (fail x, state)) found after e = cc
  look_again-done name (some (done u, state)) found after e = cc

  take_symbol_response-done :
      (fuel : ℕ) (name : Text) (response : Result MessageResponse × (Version × World))
      (state : State crate server) (found : SymbolDescriptor descriptors)
      (after : State crate server)
      → take_symbol_response crate server fuel name response state ≡ some (done found, after)
      → find_symbol_in_pool descriptors after.pool name ≡ done found
  take_symbol_response-done fuel name (fail x, connection) state found after e = cc
  take_symbol_response-done fuel name (done (file_descriptor_response files), connection) state
        found after e =
      look_again-done name
        (add_file_descriptors crate server fuel files (connected crate server connection state))
        found after e
  take_symbol_response-done fuel name (done r, connection) state found after e =
      look_again-done name (some (done tt, connected crate server connection state)) found after e

  symbol_or_fetch-done :
      (fuel : ℕ) (name : Text) (first : Result (SymbolDescriptor descriptors))
      (state : State crate server) (found : SymbolDescriptor descriptors)
      (after : State crate server)
      → find_symbol_in_pool descriptors state.pool name ≡ first
      → symbol_or_fetch crate server fuel name first state ≡ some (done found, after)
      → find_symbol_in_pool descriptors after.pool name ≡ done found
  symbol_or_fetch-done fuel name (done s) state found after h e = cc
  symbol_or_fetch-done fuel name (fail x) state found after h e =
      take_symbol_response-done fuel name
        (reflect server state.connection (file_containing_symbol name)) state found after e

  ask_all-ended :
      (Good : descriptors.Pool → Type 0)
      (kept : (pool : descriptors.Pool) (files : List descriptors.FileProto)
        → Good pool
        → Good (crate.add_file_descriptor_set pool files).0)
      (fuel : ℕ) (queries : List Query) (state last : State crate server)
      → Good state.pool
      → ask_all crate server fuel queries state ≡ some last
      → Good last.pool
  ask_all-ended Good kept fuel queries state last g e =
      subst (StillGood crate server Good kept) e
        (ask_all-Good crate server Good kept fuel queries state g)

  -- Where a set that is added to a pool keeps the symbols that are found in it, a symbol that the
  -- source has once found is, after any sequence of queries that ends, found again, with no fuel,
  -- no exchange with the server and no change of the source's state.
  pub find_symbol_async_remembers :
      ((name : Text) (found : SymbolDescriptor descriptors) (pool : descriptors.Pool)
          (files : List descriptors.FileProto)
        → find_symbol_in_pool descriptors pool name ≡ done found
        → find_symbol_in_pool descriptors (crate.add_file_descriptor_set pool files).0 name
          ≡ done found)
      → (fuel more : ℕ) (name : Text) (queries : List Query) (found : SymbolDescriptor descriptors)
        (before after last : State crate server)
      → find_symbol_async crate server fuel name before ≡ some (done found, after)
      → ask_all crate server more queries after ≡ some last
      → find_symbol_async crate server 0 name last ≡ some (done found, last)
  unfolding find_symbol_async
  find_symbol_async_remembers kept fuel more name queries found before after last first later =
      let now =
        symbol_or_fetch-done fuel name (find_symbol_in_pool descriptors before.pool name) before
          found after refl first in
      let still =
        ask_all-ended (λ pool. find_symbol_in_pool descriptors pool name ≡ done found)
          (kept name found) more queries after last now later in
      rw still refl
