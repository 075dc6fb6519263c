-- ===== src/DescriptorText/Camel.antt =====
-- grpcurl-core/src/descriptor_text.rs: `to_lower_camel_case` against a description by the pieces
-- between the underscores.
use grpcurl_rs.Base.{
  ℕ, Text, List, [], ◌∷◌, ◌++◌, true, false, if◌then◌else◌, ◌==◌, ◌≡◌, refl, append_assoc,
  Bool-cases, inl, inr,
}
use grpcurl_rs.Descriptor.{Reflect}
use grpcurl_rs.DescriptorText.{Syntax, camel, to_lower_camel_case}

-- The piece before the first `_`, and the pieces behind each.
abbrev add_char : ℕ → Text × List Text → Text × List Text
add_char c (piece, more) = (c ∷ piece, more)

abbrev pub pieces_of : Text → Text × List Text
pieces_of [] = ([], [])
pieces_of (c ∷ s) =
    let (piece, more) = pieces_of s in if c == b'_' then ([], piece ∷ more) else (c ∷ piece, more)

module _ {reflect : Reflect} (syntax : Syntax reflect) where
  -- A piece with its first character in upper case.
  abbrev pub capitalized : Text → Text
  capitalized [] = []
  capitalized (c ∷ s) = syntax.to_uppercase c ++ s

  abbrev pub all_capitalized : List Text → Text
  all_capitalized [] = []
  all_capitalized (piece ∷ more) = capitalized piece ++ all_capitalized more

  camel-pieces :
      (s : Text)
      → (camel syntax false s ≡ (pieces_of s).0 ++ all_capitalized (pieces_of s).1)
        × (camel syntax true s ≡ capitalized (pieces_of s).0 ++ all_capitalized (pieces_of s).1)
  unfolding camel
  camel-pieces [] = (refl, refl)
  camel-pieces (c ∷ s) =
      let (plain, capital) = camel-pieces s in
      elim (Bool-cases (c == b'_')) [
        | inl e ↦ rw e (capital, capital)
        | inr e ↦ rw (e, plain, append_assoc) (refl, refl)
      ]

  -- The default name in JSON is the text before the first underscore as it stands, followed by
  -- each piece behind an underscore with its first character in upper case: the underscores,
  -- those in a row and at the ends too, are gone.
  pub to_lower_camel_case-pieces :
      (s : Text) → to_lower_camel_case syntax s ≡ (pieces_of s).0 ++ all_capitalized (pieces_of s).1
  unfolding to_lower_camel_case
  to_lower_camel_case-pieces s = (camel-pieces s).0
