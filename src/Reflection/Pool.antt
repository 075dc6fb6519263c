-- ===== src/Reflection/Pool.antt =====
-- grpcurl-core/src/reflection.rs: the pool of descriptors that grows with a server's answers.
-- A poisoned lock is left out: nothing panics while it is held.
pub mod Cycles
pub mod Ends
pub mod Kept
use grpcurl_rs.Base.{
  ℕ, zero, suc, Text, text, text_eq, List, [], ◌∷◌, ◌++◌, Bool, true, false, not, ◌||◌, ◌&&◌,
  Option, none, some, if◌then◌else◌, is_empty, any, keep,
}
use grpcurl_rs.Error.{GrpcurlError, proto, Result, done, fail}
use grpcurl_rs.Descriptor.{Reflect}
use grpcurl_rs.Reflection.{
  MessageRequest, file_by_filename, MessageResponse, file_descriptor_response, Server, Version,
  reflect,
}

-- prost and prost-reflect: the decoding of a file, what is read of it, and the pool's methods.
pub record PoolCrate (descriptors : Reflect) : Type 0 where
  -- a file, or the error's text
  pub decode_file : List ℕ → Option descriptors.FileProto × Text
  pub proto_name : descriptors.FileProto → Option Text
  pub proto_dependency : descriptors.FileProto → List Text
  -- `get_file_by_name(name).is_some()`
  pub has_file : descriptors.Pool → Text → Bool
  -- the pool afterwards, and the error's text
  pub add_file_descriptor_set :
      descriptors.Pool → List descriptors.FileProto → descriptors.Pool × Option Text

-- `ServerSource`: the cached version with the server's state, the pool, and what it has warned of.
pub record SourceState (descriptors : Reflect) (World : Type 0) : Type 0 where
  pub connection : Version × World
  pub pool : descriptors.Pool
  pub warnings : List Text

module _ {descriptors : Reflect} {World : Type 0} (crate : PoolCrate descriptors)
    (server : Server World) where
  abbrev State : Type 0
  State = SourceState descriptors World

  -- What ends: a result and the state afterwards.
  abbrev Ended : Type 0
  Ended = Result (Unit {0}) × State

  abbrev name_or_empty : descriptors.FileProto → Text
  name_or_empty fdp = elim (crate.proto_name fdp) [ some name ↦ name | none ↦ [] ]

  abbrev is_new : descriptors.Pool → descriptors.FileProto → Bool
  is_new pool fdp = not (crate.has_file pool (name_or_empty fdp))

  abbrev add_new :
      descriptors.Pool
      → descriptors.FileProto
      → Result (List descriptors.FileProto)
      → Result (List descriptors.FileProto)
  add_new pool fdp (done files) = done (if is_new pool fdp then fdp ∷ files else files)
  add_new pool fdp (fail e) = fail e

  -- The first of a decoding's errors wins, so that the files behind it do not count.
  abbrev after_decoding :
      descriptors.Pool
      → Option descriptors.FileProto × Text
      → Result (List descriptors.FileProto)
      → Result (List descriptors.FileProto)
  after_decoding pool (none, e) rest = fail (proto (text "failed to decode file descriptor: " ++ e))
  after_decoding pool (some fdp, e) rest = add_new pool fdp rest

  -- The files of a response that the pool does not have.
  unfoldable pub new_files : descriptors.Pool → List (List ℕ) → Result (List descriptors.FileProto)
  new_files pool [] = done []
  new_files pool (bytes ∷ more) =
      after_decoding pool (crate.decode_file bytes) (new_files pool more)

  unfoldable pub is_named : Text → descriptors.FileProto → Bool
  is_named name fdp = elim (crate.proto_name fdp) [ some own ↦ text_eq own name | none ↦ false ]

  -- The imports that are neither in the pool nor among the new files.
  unfoldable pub is_missing : descriptors.Pool → List descriptors.FileProto → Text → Bool
  unfolding is_named
  is_missing pool files dep = not (crate.has_file pool dep) && not (any (is_named dep) files)

  abbrev missing_of : descriptors.Pool → List descriptors.FileProto → List Text → List Text
  missing_of pool files deps = keep (is_missing pool files) deps

  unfoldable pub missing_files :
      descriptors.Pool → List descriptors.FileProto → List descriptors.FileProto → List Text
  unfolding is_missing
  missing_files pool files [] = []
  missing_files pool files (fdp ∷ more) =
      missing_of pool files (crate.proto_dependency fdp) ++ missing_files pool files more

  abbrev pub connected : Version × World → State → State
  connected connection state = record state { connection = connection }

  -- A response that is no list of files, or an error, is passed over.
  abbrev take_response :
      (List (List ℕ) → State → Option Ended)
      → Result MessageResponse × (Version × World)
      → State
      → Option Ended
  take_response add (done (file_descriptor_response files), connection) state =
      add files (connected connection state)
  take_response add (_, connection) state = some (done tt, connected connection state)

  abbrev continue : (State → Option Ended) → Option Ended → Option Ended
  continue next none = none
  continue next (some (fail e, state)) = some (fail e, state)
  continue next (some (done u, state)) = next state

  unfoldable pub fetch_missing :
      (List (List ℕ) → State → Option Ended) → List Text → State → Option Ended
  fetch_missing add [] state = some (done tt, state)
  fetch_missing add (dep ∷ deps) state =
      continue (fetch_missing add deps)
        (take_response add (reflect server state.connection (file_by_filename dep)) state)

  abbrev shown_name : descriptors.FileProto → Text
  shown_name fdp = elim (crate.proto_name fdp) [ some name ↦ name | none ↦ text "<unknown>" ]

  abbrev warn_of : descriptors.FileProto → Option Text → List Text → List Text
  warn_of fdp none warnings = warnings
  warn_of fdp (some e) warnings =
      warnings
      ++ (text "warning: skipping file descriptor " ++ (shown_name fdp ++ (text ": " ++ e))) ∷ []

  -- One file at a time.
  unfoldable pub add_singly : List descriptors.FileProto → State → State
  add_singly [] state = state
  add_singly (fdp ∷ more) state =
      let (pool, error) = crate.add_file_descriptor_set state.pool (fdp ∷ []) in
      add_singly more (record state { pool = pool; warnings = warn_of fdp error state.warnings })

  abbrev settle_set : List descriptors.FileProto → State → descriptors.Pool × Option Text → State
  settle_set files state (pool, none) = record state { pool = pool }
  settle_set files state (pool, some e) = add_singly files (record state { pool = pool })

  -- The files that are still new, in one set or, where the set fails, one at a time.
  unfoldable pub add_final : List descriptors.FileProto → State → State
  add_final files state =
      let final_files = keep (is_new state.pool) files in
      if is_empty final_files
      then state
      else settle_set final_files state (crate.add_file_descriptor_set state.pool final_files)

  abbrev finish_adding : List descriptors.FileProto → State → Option Ended
  finish_adding files state = some (done tt, add_final files state)

  -- The fetching of what the new files miss, before they are added.
  abbrev add_files :
      (List (List ℕ) → State → Option Ended)
      → Result (List descriptors.FileProto)
      → State
      → Option Ended
  add_files add (fail e) state = some (fail e, state)
  add_files add (done []) state = some (done tt, state)
  add_files add (done (fdp ∷ files)) state =
      continue (finish_adding (fdp ∷ files))
        (fetch_missing add (missing_files state.pool (fdp ∷ files) (fdp ∷ files)) state)

  -- `none` where the fuel for the depth of the recursion ends.
  unfoldable pub add_file_descriptors : ℕ → List (List ℕ) → State → Option Ended
  add_file_descriptors zero serialized state = none
  add_file_descriptors (suc fuel) serialized state =
      add_files (add_file_descriptors fuel) (new_files state.pool serialized) state
