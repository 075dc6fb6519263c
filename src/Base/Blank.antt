-- ===== src/Base/Blank.antt =====
-- When nothing is left of a text that is trimmed.
use mathlib.Core.Path.{◌≡◌, refl, ap, ◌∙◌}
use mathlib.Core.Bool.{Bool, true, false, ◌&&◌}
use mathlib.Core.List.{[], ◌∷◌, ◌++◌, reverse, reverse-cons}
use native.Mathlib.Omega.{arith}
use grpcurl_rs.Base.Lists.{is_empty}
use grpcurl_rs.Base.Texts.{Text, is_whitespace, trim_start, trim}

unfoldable pub is_blank : Text → Bool
is_blank [] = true
is_blank (c ∷ s) = is_whitespace c && is_blank s

pub is_blank-append : (s t : Text) → is_blank (s ++ t) ≡ (is_blank s && is_blank t)
unfolding is_blank
is_blank-append [] t = refl
is_blank-append (c ∷ s) t = ground (arith, is_blank-append s t)

is_blank-reverse : (s : Text) → is_blank (reverse s) ≡ is_blank s
unfolding is_blank
is_blank-reverse [] = refl
is_blank-reverse (c ∷ s) =
    ap is_blank (reverse-cons c s)
    ∙ is_blank-append (reverse s) (c ∷ [])
    ∙ ground (arith, is_blank-reverse s)

is_empty-trim_start : (s : Text) → is_empty (trim_start s) ≡ is_blank s
unfolding trim_start is_blank
is_empty-trim_start [] = refl
is_empty-trim_start (c ∷ s) = ground (arith, is_empty-trim_start s)

is_blank-trim_start : (s : Text) → is_blank (trim_start s) ≡ is_blank s
unfolding trim_start is_blank
is_blank-trim_start [] = refl
is_blank-trim_start (c ∷ s) = ground (arith, is_blank-trim_start s)

-- `trim().is_empty()`
pub is_empty-trim : (s : Text) → is_empty (trim s) ≡ is_blank s
unfolding trim
is_empty-trim s =
    is_empty_reverse (trim_start (reverse (trim_start s)))
    ∙ is_empty-trim_start (reverse (trim_start s))
    ∙ is_blank-reverse (trim_start s)
    ∙ is_blank-trim_start s
  where
    is_empty_reverse : (t : Text) → is_empty (reverse t) ≡ is_empty t
    is_empty_reverse [] = refl
    is_empty_reverse (c ∷ t) = ap is_empty (reverse-cons c t) ∙ nonempty (reverse t)
      where
        nonempty : (u : Text) → is_empty (u ++ c ∷ []) ≡ false
        nonempty [] = refl
        nonempty (d ∷ u) = refl
