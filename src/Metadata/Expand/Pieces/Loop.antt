-- ===== src/Metadata/Expand/Pieces/Loop.antt =====
-- The loop of `expand_env_vars` against the pieces of the input.
use grpcurl_rs.Base.{
  ℕ, zero, suc, ◌+◌, ◌-◌, ◌≤◌, ◌<◌, Text, [], ◌∷◌, ◌++◌, Bool, Option, length, take, drop,
  drop-drop, length-drop, ◌≡◌, refl, sym, ap, ◌∙◌, arith, inl, inr, Option-cases, append_assoc,
  append-nil,
}
use grpcurl_rs.Error.{Result, done, fail}
use grpcurl_rs.Metadata.Expand.{match_here, captures, slice, expand_loop}
use grpcurl_rs.Metadata.Expand.Pieces.{prefix, substitute, pieces}

module _ (unicode : ℕ → Bool) where
  -- The loop over positions computes the substitution into the pieces.
  module _ (env : Text → Option Text) (input : Text) where
    prefix-prefix : (s t : Text) (r : Result Text) → prefix s (prefix t r) ≡ prefix (s ++ t) r
    prefix-prefix s t (done u) = ap done (sym (append_assoc s t u))
    prefix-prefix s t (fail e) = refl

    -- The characters from `last` up to `pos` are pending, none while a match is being skipped.
    abbrev Pends : (skip pos last : ℕ) → Type 0
    Pends skip pos last = (skip ≡ 0 → last ≤ pos) × (0 < skip → last ≡ pos + skip)

    take_all : (n : ℕ) (s : Text) → length s ≤ n → take n s ≡ s
    take_all zero [] h = refl
    take_all zero (c ∷ s) h = absurd (omega arith)
    take_all (suc n) [] h = refl
    take_all (suc n) (c ∷ s) h = ap (◌∷◌ c) (take_all n s (omega arith))

    drop_beyond : (n : ℕ) (s : Text) → length s ≤ n → drop n s ≡ []
    drop_beyond zero [] h = refl
    drop_beyond zero (c ∷ s) h = absurd (omega arith)
    drop_beyond (suc n) [] h = refl
    drop_beyond (suc n) (c ∷ s) h = drop_beyond n s (omega arith)

    take_one_more : (n c : ℕ) (s t : Text) → drop n s ≡ c ∷ t → take (suc n) s ≡ take n s ++ c ∷ []
    take_one_more zero c [] t e = cc
    take_one_more zero c (d ∷ s) t e = cc
    take_one_more (suc n) c [] t e = cc
    take_one_more (suc n) c (d ∷ s) t e = ap (◌∷◌ d) (take_one_more n c s t e)

    slice_empty : (a b : ℕ) → b ≤ a → slice unicode input a b ≡ []
    slice_empty a b h = let e : b - a ≡ 0 = omega arith in rw e

    slice_step :
        (last pos c : ℕ) (s : Text)
        → last ≤ pos
        → drop pos input ≡ c ∷ s
        → slice unicode input last (pos + 1) ≡ slice unicode input last pos ++ c ∷ []
    slice_step last pos c s h e =
        let more : pos + 1 - last ≡ suc (pos - last) = omega arith in
        let whole : last + (pos - last) ≡ pos = omega arith in
        let here : drop (pos - last) (drop last input) ≡ c ∷ s =
          drop-drop (pos - last) last input ∙ rw whole e in
        rw more (take_one_more (pos - last) c (drop last input) s here)

    slice_to_end :
        (last pos skip : ℕ)
        → Pends skip pos last
        → drop pos input ≡ []
        → drop last input ≡ slice unicode input last pos
    slice_to_end last pos zero p e =
        let none_left : length input - pos ≡ 0 = sym (length-drop pos input) ∙ ap length e in
        sym (
          take_all (pos - last) (drop last input)
            (let l = p.0 refl in omega (arith, length-drop last input)))
    slice_to_end last pos (suc skip) p e =
        let none_left : length input - pos ≡ 0 = sym (length-drop pos input) ∙ ap length e in
        let l = p.1 (omega arith) in
        drop_beyond last input (omega arith) ∙ sym (slice_empty last pos (omega arith))

    drop_next : (pos c : ℕ) (s : Text) → drop pos input ≡ c ∷ s → drop (pos + 1) input ≡ s
    drop_next pos c s e = sym (drop-drop 1 pos input) ∙ ap (drop 1) e

    pub expand_loop-substitute :
        (skip pos last : ℕ) (s result : Text)
        → Pends skip pos last
        → drop pos input ≡ s
        → expand_loop unicode env input result last (captures unicode skip pos s)
          ≡ prefix (result ++ slice unicode input last pos) (substitute env (pieces unicode skip s))
    unfolding expand_loop captures pieces substitute
    expand_loop-substitute skip pos last [] result p e = ap done (
        ap (◌++◌ result) (slice_to_end last pos skip p e)
        ∙ sym (append-nil (result ++ slice unicode input last pos)))
    expand_loop-substitute (suc skip) pos last (c ∷ s) result p e =
        let l = p.1 (omega arith) in
        let ih =
          expand_loop-substitute skip (pos + 1) last s result (λ z. omega arith, λ z. omega arith)
            (drop_next pos c s e) in
        let before = slice_empty last pos (omega arith) in
        let after = slice_empty last (pos + 1) (omega arith) in rw before (rw after at ih)
    expand_loop-substitute zero pos last (c ∷ s) result p e =
        elim (Option-cases (match_here unicode (c ∷ s))) [
          | inl none_here ↦
              let rest = substitute env (pieces unicode zero s) in
              let ih =
                expand_loop-substitute zero (pos + 1) last s result
                  (λ z. let l = p.0 refl in omega arith, λ z. absurd (omega arith))
                  (drop_next pos c s e) in
              rw (none_here, captures, pieces)
                (ih
                  ∙ ap (λ t. prefix t rest)
                      (ap (◌++◌ result) (slice_step last pos c s (p.0 refl) e)
                        ∙ sym (append_assoc result (slice unicode input last pos) (c ∷ [])))
                  ∙ sym (prefix-prefix (result ++ slice unicode input last pos) (c ∷ []) rest))
          | inr (name, found) ↦ elim (Option-cases (env name)) [
            | inl unset ↦ rw (found, captures, pieces, unset, expand_loop, substitute)
            | inr (value, set) ↦
                let pending = result ++ slice unicode input last pos in
                let rest = substitute env (pieces unicode (length name + 2) s) in
                let next = pos + (length name + 3) in
                let ih =
                  expand_loop-substitute (length name + 2) (pos + 1) next s (pending ++ value)
                    (λ z. absurd (omega arith), λ z. omega arith) (drop_next pos c s e) in
                rw (found, captures, pieces, set, expand_loop, substitute)
                  (ih
                    ∙ ap (λ t. prefix t rest)
                        (ap (◌++◌ (pending ++ value)) (slice_empty next (pos + 1) (omega arith))
                          ∙ append-nil (pending ++ value))
                    ∙ sym (prefix-prefix pending value rest))
          ]
        ]
