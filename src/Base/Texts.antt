-- ===== src/Base/Texts.antt =====
-- Text as the list of its characters' code points. Where the source counts bytes, the model
-- counts characters: both name the same places between characters.
use Prim.Native.Nat.{ℕ, ◌+◌, ◌/◌, ◌%◌}
use Prim.Native.Char.{code}
use Prim.Native.String.{String}
use mathlib.Core.Path.{◌≡◌, refl, ap}
use mathlib.Core.Bool.{Bool, true, false, ◌&&◌, ◌||◌}
use mathlib.Core.List.{List, [], ◌∷◌, ◌++◌, reverse, map}
use mathlib.Core.Logic.{◌↔◌, ◌≢◌, inl, inr}
use mathlib.Core.Option.{Option, none, some}
use native.Mathlib.Omega.{arith}
use grpcurl_rs.Base.Bools.{◌==◌, ltb, leb, is_some, if◌then◌else◌, Option-cases}
use grpcurl_rs.Base.Lists.{length}
use grpcurl_rs.Base.Sorts.{IsTotalOrder}

abbrev pub Text : Type 0
Text = List ℕ

abbrev codes : String → Text
codes String.[] = []
codes (String.◌∷◌ c s) = code c ∷ codes s

-- A literal. It is shut, so that a proof sees a name and not a list of numbers.
unfoldable pub text : String → Text
text s = codes s

-- `==` on strings
unfoldable pub text_eq : Text → Text → Bool
text_eq [] [] = true
text_eq [] (d ∷ t) = false
text_eq (c ∷ s) [] = false
text_eq (c ∷ s) (d ∷ t) = c == d && text_eq s t

pub text_eq_sound : (s t : Text) → text_eq s t ≡ true → s ≡ t
unfolding text_eq
text_eq_sound [] [] h = refl
text_eq_sound [] (d ∷ t) h = cc
text_eq_sound (c ∷ s) [] h = cc
text_eq_sound (c ∷ s) (d ∷ t) h = ground (arith, text_eq_sound s t)

pub text_eq_refl : (s : Text) → text_eq s s ≡ true
unfolding text_eq
text_eq_refl [] = refl
text_eq_refl (c ∷ s) = ground (arith, text_eq_refl s)

pub text_eq_iff : (s t : Text) → (text_eq s t ≡ true) ↔ (s ≡ t)
text_eq_iff s t = (text_eq_sound s t, λ e. rw e (text_eq_refl t))

-- `char::is_whitespace`: the White_Space characters of Unicode
unfoldable pub is_whitespace : ℕ → Bool
is_whitespace c =
    (leb 9 c && leb c 13)
    || c == 32
    || c == 0x85
    || c == 0xA0
    || c == 0x1680
    || (leb 0x2000 c && leb c 0x200A)
    || c == 0x2028
    || c == 0x2029
    || c == 0x202F
    || c == 0x205F
    || c == 0x3000

-- `trim_start`
unfoldable pub trim_start : Text → Text
trim_start [] = []
trim_start (c ∷ s) = if is_whitespace c then trim_start s else c ∷ s

-- `trim`
unfoldable pub trim : Text → Text
unfolding trim_start
trim s = reverse (trim_start (reverse (trim_start s)))

-- `strip_prefix`
unfoldable pub strip_prefix : Text → Text → Option Text
strip_prefix [] s = some s
strip_prefix (p ∷ ps) [] = none
strip_prefix (p ∷ ps) (c ∷ s) = if p == c then strip_prefix ps s else none

-- `ends_with`
unfoldable pub ends_with : Text → Text → Bool
unfolding strip_prefix
ends_with suffix s = is_some (strip_prefix (reverse suffix) (reverse s))

-- The bytes of a character in UTF-8.
utf8_char : ℕ → List ℕ
utf8_char c =
    if ltb c 0x80
    then c ∷ []
    else if ltb c 0x800
    then (0xC0 + c / 64) ∷ (0x80 + c % 64) ∷ []
    else if ltb c 0x10000
    then (0xE0 + c / 4096) ∷ (0x80 + c / 64 % 64) ∷ (0x80 + c % 64) ∷ []
    else (0xF0 + c / 262144) ∷ (0x80 + c / 4096 % 64) ∷ (0x80 + c / 64 % 64) ∷ (0x80 + c % 64) ∷ []

-- `into_bytes`
unfoldable pub utf8 : Text → List ℕ
unfolding utf8_char
utf8 [] = []
utf8 (c ∷ s) = utf8_char c ++ utf8 s

is_ascii : Text → Bool
is_ascii [] = true
is_ascii (c ∷ s) = ltb c 0x80 && is_ascii s

lower_char : ℕ → ℕ
lower_char c = if leb b'A' c && leb c b'Z' then c + 32 else c

-- `to_lowercase`: on ASCII text as written here, and by the tables of Unicode, which are given,
-- on any other.
unfoldable pub to_lowercase : (Text → Text) → Text → Text
unfolding is_ascii lower_char
to_lowercase unicode s = if is_ascii s then map lower_char s else unicode s

-- The order of strings: by their characters, from the left.
unfoldable pub text_le : Text → Text → Bool
text_le [] t = true
text_le (c ∷ s) [] = false
text_le (c ∷ s) (d ∷ t) = ltb c d || (c == d && text_le s t)

text_le_total : (s t : Text) → text_le s t ≡ false → text_le t s ≡ true
unfolding text_le
text_le_total [] t h = cc
text_le_total (c ∷ s) [] h = refl
text_le_total (c ∷ s) (d ∷ t) h = ground (arith, text_le_total s t)

text_le_trans : (s t u : Text) → text_le s t ≡ true → text_le t u ≡ true → text_le s u ≡ true
unfolding text_le
text_le_trans [] t u h k = refl
text_le_trans (c ∷ s) [] u h k = cc
text_le_trans (c ∷ s) (d ∷ t) [] h k = cc
text_le_trans (c ∷ s) (d ∷ t) (e ∷ u) h k = ground (arith, text_le_trans s t u)

pub text_le_order : IsTotalOrder text_le
text_le_order = record { total = text_le_total; trans = text_le_trans }

pub text_le_antisym : (s t : Text) → text_le s t ≡ true → text_le t s ≡ true → s ≡ t
unfolding text_le
text_le_antisym [] [] h k = refl
text_le_antisym [] (d ∷ t) h k = cc
text_le_antisym (c ∷ s) [] h k = cc
text_le_antisym (c ∷ s) (d ∷ t) h k = ground (arith, text_le_antisym s t)

-- `split_once` at the first such character
unfoldable pub split_once : ℕ → Text → Option (Text × Text)
split_once d [] = none
split_once d (c ∷ s) =
    if c == d
    then some ([], s)
    else elim (split_once d s) [ none ↦ none | some (a, b) ↦ some (c ∷ a, b) ]

-- `rsplit_once` at the last such character
unfoldable pub rsplit_once : ℕ → Text → Option (Text × Text)
rsplit_once d [] = none
rsplit_once d (c ∷ s) = elim (rsplit_once d s) [
  | none ↦ if c == d then some ([], s) else none
  | some (a, b) ↦ some (c ∷ a, b)
]

-- `join`
unfoldable pub join : Text → List Text → Text
join sep [] = []
join sep (t ∷ []) = t
join sep (t ∷ u ∷ ts) = t ++ (sep ++ join sep (u ∷ ts))

-- The text lacks a character.
abbrev pub Lacks : ℕ → Text → Type 0
Lacks d [] = Unit
Lacks d (c ∷ s) = ((c == d) ≡ false) × Lacks d s

pub split_once_found : (d : ℕ) (a b : Text) → Lacks d a → split_once d (a ++ d ∷ b) ≡ some (a, b)
unfolding split_once
split_once_found d [] b h = ground arith
split_once_found d (c ∷ a) b h = rw (h.0, split_once_found d a b h.1)

pub split_once-none : (d : ℕ) (a : Text) → Lacks d a → split_once d a ≡ none
unfolding split_once
split_once-none d [] h = refl
split_once-none d (c ∷ a) h = rw (h.0, split_once-none d a h.1)

pub split_once_sound :
    (d : ℕ) (s a b : Text) → split_once d s ≡ some (a, b) → (s ≡ a ++ d ∷ b) × Lacks d a
unfolding split_once
split_once_sound d [] a b h = cc
split_once_sound d (c ∷ s) a b h = elim (Option-cases (split_once d s)) [
  | inl e ↦ ground arith
  | inr ((u, v), e) ↦ ground (arith, split_once_sound d s u v)
]

pub rsplit_once_sound : (d : ℕ) (s a b : Text) → rsplit_once d s ≡ some (a, b) → s ≡ a ++ d ∷ b
unfolding rsplit_once
rsplit_once_sound d [] a b h = cc
rsplit_once_sound d (c ∷ s) a b h = elim (Option-cases (rsplit_once d s)) [
  | inl e ↦ ground arith
  | inr ((u, v), e) ↦ ground (arith, rsplit_once_sound d s u v)
]

pub rsplit_once-none : (d : ℕ) (a : Text) → Lacks d a → rsplit_once d a ≡ none
unfolding rsplit_once
rsplit_once-none d [] h = refl
rsplit_once-none d (c ∷ a) h = rw (rsplit_once-none d a h.1, h.0)

pub rsplit_once_found : (d : ℕ) (a b : Text) → Lacks d b → rsplit_once d (a ++ d ∷ b) ≡ some (a, b)
unfolding rsplit_once
rsplit_once_found d [] b h = rw (rsplit_once-none d b h) (ground arith)
rsplit_once_found d (c ∷ a) b h = rw (rsplit_once_found d a b h)

pub cons-ne_self : (d : ℕ) (a : Text) → a ≢ d ∷ a
cons-ne_self d a e = let n : length a ≡ length (d ∷ a) = ap length e in omega arith
