-- ===== src/Reflection/Pool/Cycles.antt =====
-- grpcurl-core/src/reflection.rs: a server whose files import one another keeps the client busy.
use grpcurl_rs.Base.{
  ℕ, zero, suc, Text, text_eq, List, [], ◌∷◌, Option, none, some, ◌≡◌, refl, sym, ◌∙◌, false, arith,
}
use mathlib.Core.Path.{subst}
use grpcurl_rs.Error.{Result, done}
use grpcurl_rs.Descriptor.{Reflect}
use grpcurl_rs.Reflection.{
  file_by_filename, MessageResponse, file_descriptor_response, Server, Version, reflect,
}
use grpcurl_rs.Reflection.Pool.{
  PoolCrate, SourceState, Ended, new_files, missing_files, fetch_missing, add_file_descriptors,
  connected, is_missing, is_named, take_response,
}

module _ {descriptors : Reflect} {World : Type 0} (crate : PoolCrate descriptors)
    (server : Server World) where
  abbrev State : Type 0
  State = SourceState descriptors World

  -- A file that imports another one, neither of which the pool has, and which the server gives.
  pub record Imports (pool : descriptors.Pool) (bytes : List ℕ) (name dep : Text) : Type 0 where
    pub fdp : descriptors.FileProto
    pub decodes : crate.decode_file bytes ≡ (some fdp, [])
    pub named : crate.proto_name fdp ≡ some name
    pub imports_dep : crate.proto_dependency fdp ≡ dep ∷ []
    pub differs : text_eq name dep ≡ false
    pub absent : crate.has_file pool name ≡ false
    pub given :
        (connection : Version × World)
        → (reflect server connection (file_by_filename name)).0
          ≡ done (file_descriptor_response (bytes ∷ []))

  new_one :
      (pool : descriptors.Pool) (bytes : List ℕ) (name dep : Text) (i : Imports pool bytes name dep)
      → new_files crate server pool (bytes ∷ []) ≡ done (i.fdp ∷ [])
  unfolding new_files
  new_one pool bytes name dep i = ground (arith, i.decodes, i.named, i.absent)

  missing_one :
      (pool : descriptors.Pool) (bytes : List ℕ) (name dep : Text) (i : Imports pool bytes name dep)
      → crate.has_file pool dep ≡ false
      → missing_files crate server pool (i.fdp ∷ []) (i.fdp ∷ []) ≡ dep ∷ []
  unfolding missing_files is_missing is_named
  missing_one pool bytes name dep i absent =
      ground (arith, i.imports_dep, absent, i.named, i.differs)

  take_response_files :
      (add : List (List ℕ) → State → Option (Ended crate server)) (files : List (List ℕ))
      (response : Result MessageResponse × (Version × World)) (state : State)
      → response.0 ≡ done (file_descriptor_response files)
      → take_response crate server add response state
        ≡ add files (connected crate server response.1 state)
  take_response_files add files (r, connection) state e = rw e refl

  add_one :
      (fuel : ℕ) (a b : List ℕ) (x y : Text) (state : State) (i : Imports state.pool a x y)
      (j : Imports state.pool b y x)
      → ((next : State)
          → next.pool ≡ state.pool
          → add_file_descriptors crate server fuel (b ∷ []) next ≡ none)
      → add_file_descriptors crate server (suc fuel) (a ∷ []) state ≡ none
  unfolding add_file_descriptors fetch_missing
  add_one fuel a b x y state i j rest =
      let asked = reflect server state.connection (file_by_filename y) in
      rw
        (
          new_one state.pool a x y i,
          missing_one state.pool a x y i j.absent,
          take_response_files (add_file_descriptors crate server fuel) (b ∷ []) asked state
              (j.given state.connection),
          rest (connected crate server asked.1 state) refl,
        )
        refl

  cycle_step :
      (fuel : ℕ) (pool : descriptors.Pool) (a b : List ℕ) (x y : Text)
      → Imports pool a x y
      → Imports pool b y x
      → (state : State) → state.pool ≡ pool
      → add_file_descriptors crate server fuel (a ∷ []) state ≡ none
  unfolding add_file_descriptors
  cycle_step zero pool a b x y i j state e = refl
  cycle_step (suc fuel) pool a b x y i j state e =
      add_one fuel a b x y state (subst (λ p. Imports p a x y) (sym e) i)
        (subst (λ p. Imports p b y x) (sym e) j)
        (λ next same. cycle_step fuel pool b a y x j i next (same ∙ e))

  -- Where a server gives two files that import one another, and the pool has neither, the adding
  -- of the one does not end: no fuel is enough.
  pub add_file_descriptors_endless :
      (fuel : ℕ) (state : State) (a b : List ℕ) (x y : Text)
      → Imports state.pool a x y
      → Imports state.pool b y x
      → add_file_descriptors crate server fuel (a ∷ []) state ≡ none
  add_file_descriptors_endless fuel state a b x y i j =
      cycle_step fuel state.pool a b x y i j state refl
