-- ===== src/Metadata/Expand/Pieces/Reading.antt =====
-- The pieces that a text is read as, and its expansion.
use grpcurl_rs.Base.{
  ℕ, zero, suc, ◌+◌, ◌≤◌, Text, List, [], ◌∷◌, ◌++◌, Bool, true, false, Option, none, some, length,
  drop, drop-drop, drop-append, length-append, All, ◌≡◌, refl, sym, ap, ◌∙◌, arith, inl, inr,
  Bool-cases, Option-cases,
}
use grpcurl_rs.Metadata.Expand.{is_word, span_word, match_here, expand_env_vars, starts_with_brace}
use grpcurl_rs.Metadata.Expand.Pieces.{
  Piece, prefix_nil, substitute, IsVarName, reference, StartsVar, Spells, end, plain, refers,
  pieces,
}
use grpcurl_rs.Metadata.Expand.Pieces.Loop.{expand_loop-substitute}

module _ (unicode : ℕ → Bool) where
  -- What the matcher accepts.
  span_word-All : (s : Text) → All (λ c. is_word unicode c ≡ true) (span_word unicode s).0
  unfolding span_word
  span_word-All [] = tt
  span_word-All (c ∷ s) = elim (Bool-cases (is_word unicode c)) [
    | inl e ↦ rw e (e, span_word-All s)
    | inr e ↦ rw e tt
  ]

  span_word-append : (s : Text) → (span_word unicode s).0 ++ (span_word unicode s).1 ≡ s
  unfolding span_word
  span_word-append [] = refl
  span_word-append (c ∷ s) = elim (Bool-cases (is_word unicode c)) [
    | inl e ↦ rw e (ap (◌∷◌ c) (span_word-append s))
    | inr e ↦ rw e refl
  ]

  brace_is_no_word : is_word unicode b'}' ≡ false
  unfolding is_word
  brace_is_no_word = refl

  span_word_name :
      (name s : Text)
      → All (λ c. is_word unicode c ≡ true) name
      → span_word unicode (name ++ b'}' ∷ s) ≡ (name, b'}' ∷ s)
  unfolding span_word
  span_word_name [] s h = rw brace_is_no_word
  span_word_name (c ∷ name) s h = rw (h.0, span_word_name name s h.1)

  brace_first : (s : Text) → starts_with_brace unicode s ≡ true → (t : Text) × (s ≡ b'}' ∷ t)
  unfolding starts_with_brace
  brace_first [] h = cc
  brace_first (c ∷ s) h = (s, ground arith)

  match_here_sound :
      (s name : Text)
      → match_here unicode s ≡ some name
      → IsVarName unicode name × ((rest : Text) × (s ≡ reference unicode name rest))
  unfolding match_here
  match_here_sound [] name h = cc
  match_here_sound (c ∷ []) name h = cc
  match_here_sound (c ∷ d ∷ s) name h =
      let closed : starts_with_brace unicode (span_word unicode s).1 ≡ true = ground arith in
      let (t, e) = brace_first (span_word unicode s).1 closed in
      let same : (span_word unicode s).0 ≡ name = ground arith in
      (
        record { given = ground arith; word = rw same at (span_word-All s) },
        (t, ground (arith, span_word-append s)),
      )

  match_here_complete :
      (name rest : Text)
      → IsVarName unicode name
      → match_here unicode (reference unicode name rest) ≡ some name
  unfolding match_here starts_with_brace
  match_here_complete [] rest v = absurd (v.given refl)
  match_here_complete (c ∷ name) rest v = rw (span_word_name (c ∷ name) rest v.word)

  pieces-drop : (skip : ℕ) (s : Text) → pieces unicode skip s ≡ pieces unicode 0 (drop skip s)
  unfolding pieces
  pieces-drop zero s = refl
  pieces-drop (suc skip) [] = refl
  pieces-drop (suc skip) (c ∷ s) = pieces-drop skip s

  no_reference : (s : Text) → match_here unicode s ≡ none → ¬ StartsVar unicode s
  no_reference s e (name, rest, shape, v) =
      let found : match_here unicode s ≡ some name = rw shape (match_here_complete name rest v) in
      cc

  drop-reference :
      (name rest : Text) (c : ℕ) (s : Text)
      → c ∷ s ≡ reference unicode name rest
      → drop (length name + 2) s ≡ rest
  drop-reference name rest c s e =
      let tail : s ≡ b'{' ∷ (name ++ b'}' ∷ rest) = cc in
      let n : length name + 2 ≡ suc (length name + 1) = omega arith in
      rw (tail, n)
        (sym (drop-drop 1 (length name) (name ++ b'}' ∷ rest))
          ∙ ap (drop 1) (drop-append name (b'}' ∷ rest)))

  -- Reading with fuel for the length of the text, since a reference is read at once.
  Spells-pieces : (n : ℕ) (s : Text) → length s ≤ n → Spells unicode (pieces unicode 0 s) s
  unfolding pieces
  Spells-pieces n [] h = end
  Spells-pieces zero (c ∷ s) h = absurd (omega arith)
  Spells-pieces (suc n) (c ∷ s) h = elim (Option-cases (match_here unicode (c ∷ s))) [
    | inl e ↦ rw (e, pieces) (plain (no_reference (c ∷ s) e) (Spells-pieces n s (omega arith)))
    | inr (name, e) ↦
        let (v, spelled) = match_here_sound (c ∷ s) name e in
        let (rest, shape) = spelled in
        rw (e, pieces, pieces-drop (length name + 2) s, drop-reference name rest c s shape)
          (refers name (c ∷ s) v shape (
            Spells-pieces n rest (
              let l : length (c ∷ s) ≡ length (reference unicode name rest) = ap length shape in
              omega (arith, length-append name (b'}' ∷ rest)))))
  ]

  -- Expanding a text gives the substitution into its pieces: every reference `${name}` is
  -- replaced by its value and all else is kept, or the first name with no value is the error.
  pub expand_env_vars-substitute :
      (env : Text → Option Text) (input : Text)
      → (ps : List Piece) × Spells unicode ps input
        × (expand_env_vars unicode env input ≡ substitute env ps)
  unfolding expand_env_vars
  expand_env_vars-substitute env input = (
    pieces unicode 0 input,
    Spells-pieces (length input) input (omega arith),
    expand_loop-substitute unicode env input 0 0 0 input []
          (λ z. omega arith, λ z. absurd (omega arith)) refl
        ∙ prefix_nil (substitute env (pieces unicode 0 input)),
  )
