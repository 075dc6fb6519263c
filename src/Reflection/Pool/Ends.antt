-- ===== src/Reflection/Pool/Ends.antt =====
-- grpcurl-core/src/reflection.rs: adding the files of a response, with those that they import, ends.
use grpcurl_rs.Base.{
  ℕ, zero, suc, ◌<◌, Text, List, [], ◌∷◌, Option, none, some, ◌≡◌, refl, All, All-append, keep,
  Bool, inl, inr, Bool-cases, arith,
}
use grpcurl_rs.Error.{Result, done, fail}
use grpcurl_rs.Descriptor.{Reflect}
use grpcurl_rs.Reflection.{
  file_by_filename, MessageResponse, file_descriptor_response, Server, Version, reflect,
}
use grpcurl_rs.Reflection.Pool.{
  PoolCrate, SourceState, Ended, is_new, add_new, after_decoding, new_files, is_missing, missing_of,
  missing_files, connected, take_response, continue, fetch_missing, finish_adding, add_final,
  add_files, add_file_descriptors,
}

All-keep {ℓ κ} :
    {A : Type ℓ} (P : A → Type κ) (p : A → Bool) (xs : List A) → All P xs → All P (keep p xs)
All-keep P p [] h = h
All-keep P p (x ∷ xs) (h, hs) = elim (Bool-cases (p x)) [
  | inl e ↦ rw e (h, All-keep P p xs hs)
  | inr e ↦ rw e (All-keep P p xs hs)
]

module _ {descriptors : Reflect} {World : Type 0} (crate : PoolCrate descriptors)
    (server : Server World) (rank : Text → ℕ) where
  abbrev State : Type 0
  State = SourceState descriptors World

  -- The imports of a file are below a rank.
  abbrev pub IsBelow : ℕ → descriptors.FileProto → Type 0
  IsBelow r fdp = All (λ dep. rank dep < r) (crate.proto_dependency fdp)

  abbrev pub DecodesBelow : ℕ → Option descriptors.FileProto × Text → Type 0
  DecodesBelow r (none, e) = Unit
  DecodesBelow r (some fdp, e) = IsBelow r fdp

  abbrev pub AllBelow : ℕ → List (List ℕ) → Type 0
  AllBelow r serialized = All (λ bytes. DecodesBelow r (crate.decode_file bytes)) serialized

  abbrev pub AnswersBelow : ℕ → Result MessageResponse × (Version × World) → Type 0
  AnswersBelow r (done (file_descriptor_response files), connection) = AllBelow r files
  AnswersBelow r _ = Unit

  abbrev FilesBelow : ℕ → Result (List descriptors.FileProto) → Type 0
  FilesBelow r (done files) = All (IsBelow r) files
  FilesBelow r (fail e) = Unit

  abbrev Ends : Option (Ended crate server) → Type 0
  Ends end = (last : Ended crate server) × (end ≡ some last)

  add_new-FilesBelow :
      (r : ℕ) (pool : descriptors.Pool) (fdp : descriptors.FileProto)
      (files : Result (List descriptors.FileProto))
      → IsBelow r fdp
      → FilesBelow r files
      → FilesBelow r (add_new crate server pool fdp files)
  add_new-FilesBelow r pool fdp (fail e) h hs = hs
  add_new-FilesBelow r pool fdp (done files) h hs =
      elim (Bool-cases (is_new crate server pool fdp)) [ inl e ↦ rw e (h, hs) | inr e ↦ rw e hs ]

  after_decoding-FilesBelow :
      (r : ℕ) (pool : descriptors.Pool) (decoded : Option descriptors.FileProto × Text)
      (files : Result (List descriptors.FileProto))
      → DecodesBelow r decoded
      → FilesBelow r files
      → FilesBelow r (after_decoding crate server pool decoded files)
  after_decoding-FilesBelow r pool (none, e) files h hs = tt
  after_decoding-FilesBelow r pool (some fdp, e) files h hs =
      add_new-FilesBelow r pool fdp files h hs

  new_files-FilesBelow :
      (r : ℕ) (pool : descriptors.Pool) (serialized : List (List ℕ))
      → AllBelow r serialized
      → FilesBelow r (new_files crate server pool serialized)
  unfolding new_files
  new_files-FilesBelow r pool [] h = tt
  new_files-FilesBelow r pool (bytes ∷ more) (h, hs) =
      after_decoding-FilesBelow r pool (crate.decode_file bytes) (new_files crate server pool more)
        h (new_files-FilesBelow r pool more hs)

  missing_below :
      (r : ℕ) (pool : descriptors.Pool) (all files : List descriptors.FileProto)
      → All (IsBelow r) files
      → All (λ dep. rank dep < r) (missing_files crate server pool all files)
  unfolding missing_files
  missing_below r pool all [] h = tt
  missing_below r pool all (fdp ∷ files) (h, hs) =
      All-append (λ dep. rank dep < r)
        (missing_of crate server pool all (crate.proto_dependency fdp))
        (missing_files crate server pool all files)
        (All-keep (λ dep. rank dep < r) (is_missing crate server pool all)
          (crate.proto_dependency fdp) h)
        (missing_below r pool all files hs)

  continue-Ends :
      (next : State → Option (Ended crate server))
      → ((state : State) → Ends (next state))
      → (end : Option (Ended crate server)) → Ends end
      → Ends (continue crate server next end)
  continue-Ends next h none (last, n) = cc
  continue-Ends next h (some (fail x, state)) e = ((fail x, state), refl)
  continue-Ends next h (some (done u, state)) e = h state

  take_response-Ends :
      (add : List (List ℕ) → State → Option (Ended crate server)) (r : ℕ)
      → ((files : List (List ℕ)) (state : State) → AllBelow r files → Ends (add files state))
      → (response : Result MessageResponse × (Version × World)) (state : State)
      → AnswersBelow r response
      → Ends (take_response crate server add response state)
  take_response-Ends add r body (done (file_descriptor_response files), connection) state h =
      body files (connected crate server connection state) h
  take_response-Ends add r body (x, connection) state h =
      ((done tt, connected crate server connection state), refl)

  module _
      (acyclic : (connection : Version × World) (dep : Text)
        → AnswersBelow (rank dep) (reflect server connection (file_by_filename dep))) where
    fetch_missing-Ends :
        (add : List (List ℕ) → State → Option (Ended crate server)) (r : ℕ)
        → ((q : ℕ) (files : List (List ℕ)) (state : State)
            → q < r
            → AllBelow q files
            → Ends (add files state))
        → (deps : List Text) (state : State) → All (λ dep. rank dep < r) deps
        → Ends (fetch_missing crate server add deps state)
    unfolding fetch_missing
    fetch_missing-Ends add r body [] state h = ((done tt, state), refl)
    fetch_missing-Ends add r body (dep ∷ deps) state (h, hs) =
        let response = reflect server state.connection (file_by_filename dep) in
        continue-Ends (fetch_missing crate server add deps)
          (λ next. fetch_missing-Ends add r body deps next hs)
          (take_response crate server add response state)
          (take_response-Ends add (rank dep)
            (λ files next below. body (rank dep) files next h below) response state
            (acyclic state.connection dep))

    add_files-Ends :
        (add : List (List ℕ) → State → Option (Ended crate server)) (r : ℕ)
        → ((q : ℕ) (files : List (List ℕ)) (state : State)
            → q < r
            → AllBelow q files
            → Ends (add files state))
        → (files : Result (List descriptors.FileProto)) (state : State) → FilesBelow r files
        → Ends (add_files crate server add files state)
    add_files-Ends add r body (fail e) state h = ((fail e, state), refl)
    add_files-Ends add r body (done []) state h = ((done tt, state), refl)
    add_files-Ends add r body (done (fdp ∷ files)) state h =
        let missing = missing_files crate server state.pool (fdp ∷ files) (fdp ∷ files) in
        continue-Ends (finish_adding crate server (fdp ∷ files))
          (λ next. ((done tt, add_final crate server (fdp ∷ files) next), refl))
          (fetch_missing crate server add missing state)
          (fetch_missing-Ends add r body missing state
            (missing_below r state.pool (fdp ∷ files) (fdp ∷ files) h))

    -- Where a file that the server gives by its name imports only files of lower rank, and the
    -- files to add import only files below a rank, adding them ends with fuel above that rank.
    pub add_file_descriptors-ends :
        (fuel r : ℕ) (serialized : List (List ℕ)) (state : State)
        → AllBelow r serialized
        → r < fuel
        → (last : Result (Unit {0}) × State) × (add_file_descriptors crate server fuel serialized
              state
            ≡ some last)
    unfolding add_file_descriptors
    add_file_descriptors-ends zero r serialized state h less = absurd (omega arith)
    add_file_descriptors-ends (suc fuel) r serialized state h less =
        add_files-Ends (add_file_descriptors crate server fuel) r
          (λ q files next below all. add_file_descriptors-ends fuel q files next all (omega arith))
          (new_files crate server state.pool serialized) state
          (new_files-FilesBelow r state.pool serialized h)
