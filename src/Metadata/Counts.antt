-- ===== src/Metadata/Counts.antt =====
-- What becomes of each header that is parsed.
use grpcurl_rs.Base.{
  ℕ, Text, List, [], ◌∷◌, ◌++◌, length, length-append, length-perm, keep, is_empty, not, Bool,
  if◌then◌else◌, ◌≡◌, ◌+◌, arith,
}
use grpcurl_rs.Error.{Header, Metadata}
use grpcurl_rs.Metadata.{
  Crates, CratesLaws, Parsed, Warning, name_value, add_named, add_header, add_headers,
  metadata_from_headers,
}

module _ (crates : Crates) (laws : CratesLaws crates) where
  length-append_entry : (md : Metadata) (h : Header) → length (crates.append md h) ≡ length md + 1
  length-append_entry md h = omega (arith, length-perm (laws.append_perm md h))

  length-warn : (ws : List Warning) (w : Warning) → length (ws ++ w ∷ []) ≡ length ws + 1
  length-warn ws w = length-append ws (w ∷ [])

  abbrev size : Parsed → ℕ
  size s = length s.metadata + length s.warnings

  size-add_named :
      (s : Parsed) (header name value : Text)
      → size (add_named crates s header name value) ≡ size s + 1
  unfolding add_named
  size-add_named s header name value = grind (arith, length-append_entry, length-warn)

  abbrev pub is_named : Text → Bool
  is_named header = not (is_empty (name_value crates header).0)

  size-add_header :
      (s : Parsed) (h : Text)
      → size (add_header crates s h) ≡ size s + (if is_named h then 1 else 0)
  unfolding add_header
  size-add_header s h =
      ground (arith, size-add_named s h (name_value crates h).0 (name_value crates h).1)

  size-add_headers :
      (s : Parsed) (headers : List Text)
      → size (add_headers crates s headers) ≡ size s + length (keep is_named headers)
  unfolding add_headers
  size-add_headers s [] = omega arith
  size-add_headers s (h ∷ rest) =
      ground (arith, size-add_header s h, size-add_headers (add_header crates s h) rest)

  -- Where the crates keep `CratesLaws`, no header with a name is lost in silence: the entries of the map and the warnings together
  -- are as many as the headers that have a name.
  pub metadata_from_headers_counts :
      (headers : List Text)
      → let p = metadata_from_headers crates headers in
        length p.metadata + length p.warnings ≡ length (keep is_named headers)
  unfolding metadata_from_headers
  metadata_from_headers_counts headers =
      omega (arith, size-add_headers (record { metadata = []; warnings = [] }) headers)
