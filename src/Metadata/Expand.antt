-- ===== src/Metadata/Expand.antt =====
-- grpcurl-core/src/metadata.rs: `${NAME}` in headers, replaced from the environment. The matcher
-- is the regular expression `\$\{(\w+)\}`, taken from the left with no overlap.
pub mod Pieces
pub mod Headers
use grpcurl_rs.Base.{
  ℕ, zero, suc, ◌+◌, ◌-◌, Text, text, split_once, List, [], ◌∷◌, ◌++◌, Bool, true, false, not, ◌&&◌,
  ◌||◌, Option, none, some, if◌then◌else◌, is_some, is_empty, length, take, drop, ◌==◌, leb, ltb,
}
use grpcurl_rs.Error.{invalid_argument, Result, done, fail, ◌>>=◌}

-- `\w`; `unicode` tells the word characters beyond ASCII.
unfoldable pub is_word : (ℕ → Bool) → ℕ → Bool
is_word unicode c =
    if ltb c 128
    then (leb b'a' c && leb c b'z')
      || (leb b'A' c && leb c b'Z')
      || (leb b'0' c && leb c b'9')
      || c == b'_'
    else unicode c

-- `captures_iter` yields where a match starts and the name in it.
pub record Capture : Type 0 where
  pub start : ℕ
  pub name : Text

-- `full_match.end()`: past the dollar sign, the braces and the name.
abbrev pub end_of : Capture → ℕ
end_of cap = cap.start + (length cap.name + 3)

module _ (unicode : ℕ → Bool) where
  -- The longest run of word characters, and what follows it.
  unfoldable pub span_word : Text → Text × Text
  span_word [] = ([], [])
  span_word (c ∷ s) =
      if is_word unicode c then (c ∷ (span_word s).0, (span_word s).1) else ([], c ∷ s)

  starts_with_brace : Text → Bool
  starts_with_brace [] = false
  starts_with_brace (c ∷ s) = c == b'}'

  -- The name of a match that starts here.
  unfoldable pub match_here : Text → Option Text
  unfolding starts_with_brace
  match_here [] = none
  match_here (c ∷ []) = none
  match_here (c ∷ d ∷ s) =
      if c == b'$'
        && d == b'{'
        && not (is_empty (span_word s).0)
        && starts_with_brace (span_word s).1
      then some (span_word s).0
      else none

  -- The matches in a text that starts at `pos`; `skip` characters are still part of the last one.
  unfoldable pub captures : (skip pos : ℕ) → Text → List Capture
  captures skip pos [] = []
  captures zero pos (c ∷ s) = elim (match_here (c ∷ s)) [
    | none ↦ captures zero (pos + 1) s
    | some name ↦ record { start = pos; name = name } ∷ captures (length name + 2) (pos + 1) s
  ]
  captures (suc skip) pos (c ∷ s) = captures skip (pos + 1) s

  -- `&input[a..b]`
  abbrev pub slice : Text → ℕ → ℕ → Text
  slice input a b = take (b - a) (drop a input)

  module _ (env : Text → Option Text) where
    unfoldable pub expand_loop : Text → Text → ℕ → List Capture → Result Text
    expand_loop input result last_end [] = done (result ++ drop last_end input)
    expand_loop input result last_end (cap ∷ caps) = elim (env cap.name) [
      | none ↦ fail (invalid_argument (text "no value for environment variable " ++ cap.name))
      | some value ↦
          expand_loop input ((result ++ slice input last_end cap.start) ++ value) (end_of cap) caps
    ]

    unfoldable pub expand_env_vars : Text → Result Text
    expand_env_vars input = expand_loop input [] 0 (captures 0 0 input)

    -- A header's name and value; with no colon the value is empty.
    abbrev pub name_value_of : Text → Text × Text
    name_value_of header = elim (split_once b':' header) [
      | some (n, v) ↦ (n, v)
      | none ↦ (header, [])
    ]

    -- One round of `expand_headers`.
    unfoldable pub expand_header : Text → Result Text
    expand_header header = do
      let (name, value) = name_value_of header
      expanded ← expand_env_vars value
      done (if is_some (split_once b':' header) then name ++ b':' ∷ expanded else expanded)

    unfoldable pub expand_headers : List Text → Result (List Text)
    expand_headers [] = done []
    expand_headers (header ∷ rest) = do done ((← expand_header header) ∷ (← expand_headers rest))
