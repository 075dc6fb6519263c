-- ===== src/DescriptorText/Names.antt =====
-- grpcurl-core/src/descriptor_text.rs: `short_name` against the way a proto file reads a name.
use grpcurl_rs.Base.{
  ℕ, Text, strip_prefix, List, [], ◌∷◌, ◌++◌, Bool, true, false, Option, none, some, if◌then◌else◌,
  is_empty, ◌==◌, ◌≡◌, refl, sym, ◌∙◌, append_assoc, Option-cases, inl, inr, arith,
}
use grpcurl_rs.DescriptorText.{short_name}

abbrev pub starts_with_dot : Text → Bool
starts_with_dot [] = false
starts_with_dot (c ∷ s) = c == b'.'

-- No dot follows a dot.
abbrev pub HasNoTwoDots : Text → Type 0
HasNoTwoDots [] = Unit {0}
HasNoTwoDots (c ∷ s) = ((c == b'.') ≡ true → starts_with_dot s ≡ false) × HasNoTwoDots s

-- A name in a scope: what is behind a leading dot, or the name in the scope's.
abbrev in_scope : Text → Text → Text
in_scope scope name = if is_empty scope then name else scope ++ b'.' ∷ name

-- A name at the top of a file of this package.
unfoldable pub resolve : Text → Text → Text
resolve pkg [] = in_scope pkg []
resolve pkg (c ∷ s) = if c == b'.' then s else in_scope pkg (c ∷ s)

-- The first scope, from the innermost, in which a name is declared.
abbrev first_declared : (Text → Bool) → List Text → Text → Option Text
first_declared declared [] name = none
first_declared declared (scope ∷ scopes) name =
    if declared (in_scope scope name)
    then some (in_scope scope name)
    else first_declared declared scopes name

-- A name in these scopes.
unfoldable pub resolve_in : (Text → Bool) → List Text → Text → Option Text
resolve_in declared scopes [] = none
resolve_in declared scopes (c ∷ s) =
    if c == b'.' then some s else first_declared declared scopes (c ∷ s)

resolve_plain : (pkg s : Text) → starts_with_dot s ≡ false → resolve pkg s ≡ in_scope pkg s
unfolding resolve
resolve_plain pkg [] h = refl
resolve_plain pkg (c ∷ s) h = rw h refl

resolve_dot : (pkg s : Text) → resolve pkg (b'.' ∷ s) ≡ s
unfolding resolve
resolve_dot pkg s = refl

strip_prefix_sound : (p s t : Text) → strip_prefix p s ≡ some t → s ≡ p ++ t
unfolding strip_prefix
strip_prefix_sound [] s t h = ground (arith, h)
strip_prefix_sound (c ∷ p) [] t h = cc
strip_prefix_sound (c ∷ p) (d ∷ s) t h = ground (arith, strip_prefix_sound p s t)

strip_prefix_append : (p s : Text) → strip_prefix p (p ++ s) ≡ some s
unfolding strip_prefix
strip_prefix_append [] s = refl
strip_prefix_append (c ∷ p) s = ground (arith, strip_prefix_append p s)

behind_dot : (p s : Text) → HasNoTwoDots (p ++ b'.' ∷ s) → starts_with_dot s ≡ false
behind_dot [] s h = h.0 refl
behind_dot (c ∷ p) s h = behind_dot p s h.1

behind_dot_of : (p s t : Text) → t ≡ p ++ b'.' ∷ s → HasNoTwoDots t → starts_with_dot s ≡ false
behind_dot_of p s t same h = behind_dot p s (rw (← same) h)

-- A name that does not start with a dot, and in which no dot follows a dot, is read back at the
-- top of a file of the package as the name that it was shortened from.
pub resolve-short_name :
    (full_name pkg : Text)
    → starts_with_dot full_name ≡ false
    → HasNoTwoDots full_name
    → resolve pkg (short_name full_name pkg) ≡ full_name
unfolding short_name
resolve-short_name full_name [] h d = resolve_plain [] full_name h
resolve-short_name full_name (c ∷ pkg) h d =
    elim (Option-cases (strip_prefix (c ∷ (pkg ++ b'.' ∷ [])) full_name)) [
      | inl e ↦ rw e (resolve_dot (c ∷ pkg) full_name)
      | inr (short, e) ↦
          let same : full_name ≡ c ∷ (pkg ++ b'.' ∷ short) =
            strip_prefix_sound (c ∷ (pkg ++ b'.' ∷ [])) full_name short e
            ∙ append_assoc (c ∷ pkg) (b'.' ∷ []) short in
          rw e (
            resolve_plain (c ∷ pkg) short (behind_dot_of (c ∷ pkg) short full_name same d)
            ∙ sym same)
    ]

short_name-prefix :
    (c : ℕ) (pkg name : Text) → short_name (c ∷ (pkg ++ b'.' ∷ name)) (c ∷ pkg) ≡ name
unfolding short_name
short_name-prefix c pkg name =
    rw
      (← append_assoc (c ∷ pkg) (b'.' ∷ []) name, strip_prefix_append (c ∷ (pkg ++ b'.' ∷ [])) name)

-- In a message of the package, the name of a message at the package's top is read as a nested
-- message of that name, where the message has one: the printed field has another type.
pub resolve_in-short_name :
    (declared : Text → Bool) (pkg msg name : Text)
    → is_empty pkg ≡ false
    → is_empty name ≡ false
    → starts_with_dot name ≡ false
    → declared (pkg ++ b'.' ∷ (msg ++ b'.' ∷ name)) ≡ true
    → resolve_in declared ((pkg ++ b'.' ∷ msg) ∷ pkg ∷ []) (short_name (pkg ++ b'.' ∷ name) pkg)
      ≡ some (pkg ++ b'.' ∷ (msg ++ b'.' ∷ name))
unfolding resolve_in
resolve_in-short_name declared [] msg name h k d nested = cc
resolve_in-short_name declared (c ∷ pkg) msg [] h k d nested = cc
resolve_in-short_name declared (c ∷ pkg) msg (x ∷ name) h k d nested = rw (
  short_name-prefix c pkg (x ∷ name),
  d,
  append_assoc (c ∷ pkg) (b'.' ∷ msg) (b'.' ∷ x ∷ name),
  nested,
)
