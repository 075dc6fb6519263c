-- ===== src/Metadata/Expand/Headers.antt =====
-- `expand_headers` on whole headers, and what it does to one with no colon.
use grpcurl_rs.Base.{
  ℕ, Text, split_once, split_once_found, split_once-none, Lacks, List, [], ◌∷◌, ◌++◌, Bool, false,
  Option, none, length, ◌≡◌, refl, trim, to_lowercase, is_empty, ◌==◌, ◌+◌, All, ap, ◌∙◌,
}
use grpcurl_rs.Error.{Result, done, ◌>>=◌}
use grpcurl_rs.Metadata.{
  Crates, CratesLaws, metadata_from_headers, add_headers, add_header, name_value,
}
use grpcurl_rs.Metadata.Counts.{metadata_from_headers_counts}
use grpcurl_rs.Metadata.Expand.{
  expand_loop, captures, expand_env_vars, expand_header, expand_headers, name_value_of, match_here,
}

empty_header :
    (crates : Crates)
    → metadata_from_headers crates ([] ∷ []) ≡ record { metadata = []; warnings = [] }
unfolding metadata_from_headers add_headers add_header name_value split_once trim to_lowercase
empty_header crates = refl

module _ (unicode : ℕ → Bool) (env : Text → Option Text) where
  -- What one header comes to, when its value expands.
  expand_header_value :
      (name value : Text)
      → Lacks b':' name
      → expand_header unicode env (name ++ b':' ∷ value)
        ≡ (expand_env_vars unicode env value >>= λ v. done (name ++ b':' ∷ v))
  unfolding expand_header
  expand_header_value name value h = rw (split_once_found b':' name value h, name_value_of)

  expand_empty : expand_env_vars unicode env [] ≡ done []
  unfolding expand_env_vars expand_loop captures
  expand_empty = refl

  expand_header_bare :
      (header : Text) → Lacks b':' header → expand_header unicode env header ≡ done []
  unfolding expand_header
  expand_header_bare header h = rw (split_once-none b':' header h, name_value_of, expand_empty)

  -- A header with a colon and no dollar sign in its value.
  pub record IsConstant (header : Text) : Type 0 where
    pub name : Text
    pub value : Text
    pub shape : header ≡ name ++ b':' ∷ value
    pub one_word : Lacks b':' name
    pub constant : Lacks b'$' value

  no_match : (c : ℕ) (s : Text) → (c == b'$') ≡ false → match_here unicode (c ∷ s) ≡ none
  unfolding match_here
  no_match c [] h = refl
  no_match c (d ∷ s) h = rw h

  no_captures : (pos : ℕ) (s : Text) → Lacks b'$' s → captures unicode 0 pos s ≡ []
  unfolding captures
  no_captures pos [] h = refl
  no_captures pos (c ∷ s) h = rw (no_match c s h.0, captures) (no_captures (pos + 1) s h.1)

  expand_constant : (s : Text) → Lacks b'$' s → expand_env_vars unicode env s ≡ done s
  unfolding expand_env_vars expand_loop
  expand_constant s h = rw (no_captures 0 s h, expand_loop)

  -- Expansion changes no header that has a colon and no dollar sign behind it.
  pub expand_headers_constant :
      (headers : List Text)
      → All IsConstant headers
      → expand_headers unicode env headers ≡ done headers
  unfolding expand_headers
  expand_headers_constant [] h = refl
  expand_headers_constant (header ∷ rest) (k, h) =
      let here : expand_header unicode env header ≡ done header = rw k.shape (
        expand_header_value k.name k.value k.one_word
        ∙ ap (λ (r : Result Text). r >>= λ v. done (k.name ++ b':' ∷ v))
            (expand_constant k.value k.constant)) in
      rw (here, expand_headers_constant rest h)

  -- Where the crates keep `CratesLaws`, a header with a name and no colon is kept without
  -- expansion, as an entry with an empty value or as a
  -- warning; `expand_headers` turns it into an empty text, which is then dropped in silence.
  pub expand_headers_drops_bare :
      (crates : Crates) (laws : CratesLaws crates) (header : Text)
      → Lacks b':' header
      → is_empty (name_value crates header).0 ≡ false
      → let kept = metadata_from_headers crates (header ∷ []) in
        (length kept.metadata + length kept.warnings ≡ 1)
        × (expand_headers unicode env (header ∷ []) ≡ done ([] ∷ []))
        × (metadata_from_headers crates ([] ∷ []) ≡ record { metadata = []; warnings = [] })
  expand_headers_drops_bare crates laws header h named = (
    rw named at (metadata_from_headers_counts crates laws (header ∷ [])),
    unfold expand_headers in rw (expand_header_bare header h),
    empty_header crates,
  )
