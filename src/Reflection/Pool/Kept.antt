-- ===== src/Reflection/Pool/Kept.antt =====
-- grpcurl-core/src/reflection.rs: what adding files to the pool keeps.
use grpcurl_rs.Base.{
  ℕ, zero, suc, Text, List, [], ◌∷◌, Option, none, some, keep, is_empty, inl, inr, Bool-cases,
}
use grpcurl_rs.Error.{Result, done, fail}
use grpcurl_rs.Descriptor.{Reflect}
use grpcurl_rs.Reflection.{
  file_by_filename, MessageResponse, file_descriptor_response, Server, Version, reflect,
}
use grpcurl_rs.Reflection.Pool.{
  PoolCrate, SourceState, Ended, is_new, take_response, continue, fetch_missing, add_singly,
  settle_set, warn_of, add_final, finish_adding, add_files, new_files, missing_files,
  add_file_descriptors,
}

module _ {descriptors : Reflect} {World : Type 0} (crate : PoolCrate descriptors)
    (server : Server World) (Good : descriptors.Pool → Type 0)
    (kept : (pool : descriptors.Pool) (files : List descriptors.FileProto)
      → Good pool
      → Good (crate.add_file_descriptor_set pool files).0) where
  abbrev State : Type 0
  State = SourceState descriptors World

  -- Where the recursion ends, what holds of the pool before holds of it afterwards.
  abbrev pub EndsGood {ℓ} : {A : Type ℓ} → Option (Result A × State) → Type 0
  EndsGood none = Unit
  EndsGood (some (result, state)) = Good state.pool

  add_singly-Good :
      (files : List descriptors.FileProto) (state : State)
      → Good state.pool
      → Good (add_singly crate server files state).pool
  unfolding add_singly
  add_singly-Good [] state g = g
  add_singly-Good (fdp ∷ files) state g =
      let (pool, error) = crate.add_file_descriptor_set state.pool (fdp ∷ []) in
      add_singly-Good files
        (record state { pool = pool; warnings = warn_of crate server fdp error state.warnings })
        (kept state.pool (fdp ∷ []) g)

  settle_set-Good :
      (files : List descriptors.FileProto) (state : State) (set : descriptors.Pool × Option Text)
      → Good set.0
      → Good (settle_set crate server files state set).pool
  settle_set-Good files state (pool, none) g = g
  settle_set-Good files state (pool, some e) g =
      add_singly-Good files (record state { pool = pool }) g

  add_final-Good :
      (files : List descriptors.FileProto) (state : State)
      → Good state.pool
      → Good (add_final crate server files state).pool
  unfolding add_final
  add_final-Good files state g =
      elim (Bool-cases (is_empty (keep (is_new crate server state.pool) files))) [
        | inl e ↦ rw e g
        | inr e ↦ rw e (
            settle_set-Good (keep (is_new crate server state.pool) files) state
              (crate.add_file_descriptor_set state.pool
                (keep (is_new crate server state.pool) files))
              (kept state.pool (keep (is_new crate server state.pool) files) g))
      ]

  take_response-Good :
      (add : List (List ℕ) → State → Option (Ended crate server))
      → ((files : List (List ℕ)) (state : State) → Good state.pool → EndsGood (add files state))
      → (response : Result MessageResponse × (Version × World)) (state : State) → Good state.pool
      → EndsGood (take_response crate server add response state)
  take_response-Good add body (done (file_descriptor_response files), connection) state g =
      body files (record state { connection = connection }) g
  take_response-Good add body (r, connection) state g = g

  continue-Good :
      (next : State → Option (Ended crate server))
      → ((state : State) → Good state.pool → EndsGood (next state))
      → (end : Option (Ended crate server)) → EndsGood end
      → EndsGood (continue crate server next end)
  continue-Good next h none g = tt
  continue-Good next h (some (fail e, state)) g = g
  continue-Good next h (some (done u, state)) g = h state g

  fetch_missing-Good :
      (add : List (List ℕ) → State → Option (Ended crate server))
      → ((files : List (List ℕ)) (state : State) → Good state.pool → EndsGood (add files state))
      → (deps : List Text) (state : State) → Good state.pool
      → EndsGood (fetch_missing crate server add deps state)
  unfolding fetch_missing
  fetch_missing-Good add body [] state g = g
  fetch_missing-Good add body (dep ∷ deps) state g =
      let response = reflect server state.connection (file_by_filename dep) in
      continue-Good (fetch_missing crate server add deps) (fetch_missing-Good add body deps)
        (take_response crate server add response state)
        (take_response-Good add body response state g)

  add_files-Good :
      (add : List (List ℕ) → State → Option (Ended crate server))
      → ((files : List (List ℕ)) (state : State) → Good state.pool → EndsGood (add files state))
      → (files : Result (List descriptors.FileProto)) (state : State) → Good state.pool
      → EndsGood (add_files crate server add files state)
  add_files-Good add body (fail e) state g = g
  add_files-Good add body (done []) state g = g
  add_files-Good add body (done (fdp ∷ files)) state g =
      continue-Good (finish_adding crate server (fdp ∷ files)) (add_final-Good (fdp ∷ files))
        (fetch_missing crate server add
          (missing_files crate server state.pool (fdp ∷ files) (fdp ∷ files)) state)
        (fetch_missing-Good add body
          (missing_files crate server state.pool (fdp ∷ files) (fdp ∷ files)) state g)

  -- What every set that is added keeps of a pool, adding the files of a response keeps too.
  pub add_file_descriptors-Good :
      (fuel : ℕ) (serialized : List (List ℕ)) (state : State)
      → Good state.pool
      → EndsGood (add_file_descriptors crate server fuel serialized state)
  unfolding add_file_descriptors
  add_file_descriptors-Good zero serialized state g = tt
  add_file_descriptors-Good (suc fuel) serialized state g =
      add_files-Good (add_file_descriptors crate server fuel) (add_file_descriptors-Good fuel)
        (new_files crate server state.pool serialized) state g
