-- ===== src/Metadata/Expand/Pieces.antt =====
-- What an expanded text is, stated on the pieces that the input is made of.
pub mod Loop
pub mod Reading
use grpcurl_rs.Base.{
  ℕ, zero, suc, ◌+◌, ◌-◌, ◌≤◌, ◌<◌, Text, text, List, [], ◌∷◌, ◌++◌, Bool, true, false, Option,
  none, some, length, take, drop, drop-drop, drop-append, length-drop, length-append, All, ◌≡◌, ◌≢◌,
  refl, sym, ap, ◌∙◌, arith, inl, inr, Bool-cases, Option-cases, append_assoc, append-nil,
}
use grpcurl_rs.Error.{invalid_argument, Result, done, fail}
use grpcurl_rs.Metadata.Expand.{
  is_word, span_word, match_here, captures, slice, expand_loop, expand_env_vars, starts_with_brace,
}

pub data Piece : Type 0 where
  letter : ℕ → Piece
  variable : Text → Piece

-- A text put in front of a result.
abbrev pub prefix : Text → Result Text → Result Text
prefix s (done t) = done (s ++ t)
prefix s (fail e) = fail e

pub prefix_nil : (r : Result Text) → prefix [] r ≡ r
prefix_nil (done t) = refl
prefix_nil (fail e) = refl

-- The pieces with each variable replaced, or the error that names the first one with no value.
unfoldable pub substitute : (Text → Option Text) → List Piece → Result Text
substitute env [] = done []
substitute env (letter c ∷ ps) = prefix (c ∷ []) (substitute env ps)
substitute env (variable name ∷ ps) = elim (env name) [
  | none ↦ fail (invalid_argument (text "no value for environment variable " ++ name))
  | some value ↦ prefix value (substitute env ps)
]

module _ (unicode : ℕ → Bool) where
  pub record IsVarName (name : Text) : Type 0 where
    pub given : name ≢ []
    pub word : All (λ c. is_word unicode c ≡ true) name

  -- A reference `${name}` and what follows it.
  abbrev pub reference : Text → Text → Text
  reference name s = b'$' ∷ b'{' ∷ (name ++ b'}' ∷ s)

  abbrev pub StartsVar : Text → Type 0
  StartsVar s = (name rest : Text) × (s ≡ reference name rest) × IsVarName name

  -- A text is read from the left: a reference where one starts, else a single character.
  pub data Spells : List Piece → Text → Type 0 where
    end : Spells [] []
    plain :
        {c : ℕ} {s : Text} {ps : List Piece}
        → ¬ StartsVar (c ∷ s)
        → Spells ps s
        → Spells (letter c ∷ ps) (c ∷ s)
    refers :
        {s : Text} {ps : List Piece} (name t : Text)
        → IsVarName name
        → t ≡ reference name s
        → Spells ps s
        → Spells (variable name ∷ ps) t

  unfoldable pub pieces : ℕ → Text → List Piece
  pieces skip [] = []
  pieces zero (c ∷ s) = elim (match_here unicode (c ∷ s)) [
    | none ↦ letter c ∷ pieces zero s
    | some name ↦ variable name ∷ pieces (length name + 2) s
  ]
  pieces (suc skip) (c ∷ s) = pieces skip s
