-- ===== src/Cli/Args/Laws.antt =====
-- Which arguments `normalize_args` rewrites.
use grpcurl_rs.Base.{
  Text, text_eq, text_eq_iff, split_once, split_once_found, split_once-none, split_once_sound,
  cons-ne_self, Lacks, List, [], ◌∷◌, ◌++◌, Bool, true, false, ◌&&◌, not, any, ◌==◌, ◌≡◌, ◌⊎◌, ◌↔◌,
  inl, inr, refl, arith, Bool-cases, Option-cases,
}
use grpcurl_rs.Cli.Args.{
  long_flags, is_long_flag, flag_name, starts_with_dash, normalize_arg, normalize_args,
}

-- Idempotence: a rewritten argument is left alone by a second pass.
normalize_arg_idempotent : (a : Text) → normalize_arg (normalize_arg a) ≡ normalize_arg a
unfolding normalize_arg
normalize_arg_idempotent [] = refl
normalize_arg_idempotent (c ∷ rest) = ground arith

-- Normalising a command line twice gives what normalising it once gives.
pub normalize_args_idempotent :
    (args : List Text) → normalize_args (normalize_args args) ≡ normalize_args args
unfolding normalize_args
normalize_args_idempotent [] = refl
normalize_args_idempotent (a ∷ args) =
    cc (normalize_arg_idempotent a, normalize_args_idempotent args)

-- `-name` or `-name=value`, for a flag that has a long name.
pub record IsGoFlag (a : Text) : Type 0 where
  pub name : Text
  pub value : Text
  pub known : is_long_flag name ≡ true
  pub shape : (a ≡ b'-' ∷ name) ⊎ (a ≡ b'-' ∷ (name ++ b'=' ∷ value))

-- No long name holds `=` or begins with a dash.
lacks_equals : Text → Bool
lacks_equals [] = true
lacks_equals (c ∷ s) = not (c == b'=') && lacks_equals s

is_plain : Text → Bool
unfolding lacks_equals starts_with_dash
is_plain s = lacks_equals s && not (starts_with_dash s)

all_plain : List Text → Bool
all_plain [] = true
all_plain (s ∷ l) = is_plain s && all_plain l

all_plain-long_flags : all_plain long_flags ≡ true
unfolding all_plain is_plain long_flags
all_plain-long_flags = refl

plain_of_any :
    (name : Text) (l : List Text)
    → any (text_eq name) l ≡ true
    → all_plain l ≡ true
    → is_plain name ≡ true
unfolding all_plain
plain_of_any name [] h k = cc
plain_of_any name (s ∷ l) h k = ground (arith, text_eq_iff name s, plain_of_any name l)

Lacks_of_lacks_equals : (s : Text) → lacks_equals s ≡ true → Lacks b'=' s
unfolding lacks_equals
Lacks_of_lacks_equals [] h = tt
Lacks_of_lacks_equals (c ∷ s) h = ground (arith, Lacks_of_lacks_equals s)

long_flag-Lacks :
    (name : Text) → is_long_flag name ≡ true → Lacks b'=' name × (starts_with_dash name ≡ false)
unfolding is_long_flag is_plain
long_flag-Lacks name h =
    let p : is_plain name ≡ true = plain_of_any name long_flags h all_plain-long_flags in
    (Lacks_of_lacks_equals name (ground arith), ground arith)

flag_name_bare : (name : Text) → Lacks b'=' name → flag_name name ≡ name
unfolding flag_name
flag_name_bare name h = rw (split_once-none b'=' name h, flag_name)

flag_name_value : (name value : Text) → Lacks b'=' name → flag_name (name ++ b'=' ∷ value) ≡ name
unfolding flag_name
flag_name_value name value h = rw (split_once_found b'=' name value h, flag_name)

starts_with_dash-append :
    (name value : Text) → is_long_flag name ≡ true → starts_with_dash (name ++ b'=' ∷ value) ≡ false
unfolding starts_with_dash
starts_with_dash-append [] value h = ground arith
starts_with_dash-append (c ∷ name) value h = (long_flag-Lacks (c ∷ name) h).1

rewritten_of_IsGoFlag : (a : Text) → IsGoFlag a → normalize_arg a ≡ b'-' ∷ a
unfolding normalize_arg
rewritten_of_IsGoFlag a g = elim g.shape [
  | inl e ↦ rw e (ground (arith, flag_name_bare g.name, long_flag-Lacks g.name g.known))
  | inr e ↦ rw e (
      ground (
        arith,
        flag_name_value g.name g.value,
        starts_with_dash-append g.name g.value g.known,
        long_flag-Lacks g.name g.known,
      ))
]

flag_name_shape :
    (rest : Text) → (flag_name rest ≡ rest) ⊎ ((v : Text) × (rest ≡ flag_name rest ++ b'=' ∷ v))
unfolding flag_name
flag_name_shape rest = elim (Option-cases (split_once b'=' rest)) [
  | inl e ↦ inl (rw (e, flag_name))
  | inr ((n, v), e) ↦ inr (v, rw (e, flag_name) (split_once_sound b'=' rest n v e).0)
]

IsGoFlag-of_rewritten : (a : Text) → normalize_arg a ≡ b'-' ∷ a → IsGoFlag a
unfolding normalize_arg
IsGoFlag-of_rewritten [] h = cc
IsGoFlag-of_rewritten (c ∷ rest) h = elim (Bool-cases (is_long_flag (flag_name rest))) [
  | inl known ↦ elim (flag_name_shape rest) [
    | inl e ↦ record {
      name = rest;
      value = [];
      known = rw e at known;
      shape = inl (ground (arith, cons-ne_self b'-' (c ∷ rest)));
    }
    | inr (v, e) ↦ record {
      name = flag_name rest;
      value = v;
      known = known;
      shape = inr (ground (arith, cons-ne_self b'-' (c ∷ rest)));
    }
  ]
  | inr unknown ↦ absurd (ground (arith, cons-ne_self b'-' (c ∷ rest)))
]

kept_or_dashed : (a : Text) → (normalize_arg a ≡ a) ⊎ (normalize_arg a ≡ b'-' ∷ a)
unfolding normalize_arg
kept_or_dashed [] = inl refl
kept_or_dashed (c ∷ rest) = ground arith

-- An argument is left as it is or gets one more dash in front, and it gets the dash exactly when
-- it is `-name` or `-name=value` for the name of a long flag.
pub normalize_arg_iff :
    (a : Text)
    → ((normalize_arg a ≡ a) ⊎ (normalize_arg a ≡ b'-' ∷ a))
      × ((normalize_arg a ≡ b'-' ∷ a) ↔ IsGoFlag a)
normalize_arg_iff a = (kept_or_dashed a, (IsGoFlag-of_rewritten a, rewritten_of_IsGoFlag a))
