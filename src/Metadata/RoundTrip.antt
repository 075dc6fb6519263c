-- ===== src/Metadata/RoundTrip.antt =====
-- Headers that are written in the form that `metadata_to_string` prints come back unchanged.
use mathlib.Core.List.Permᴰ
use grpcurl_rs.Base.{
  ℕ, Text, text, text_le, text_le_order, text_le_antisym, ends_with, trim, split_once_found,
  is_whitespace, to_lowercase, Lacks, sort, sort-eq_of_perm, join, List, [], ◌∷◌, ◌++◌, map,
  length-perm, All, Permᴰ, true, false, some, is_empty, ◌≡◌, ◌≢◌, ◌∙◌, refl, ap, arith,
}
use grpcurl_rs.Error.{Header, ascii, binary}
use grpcurl_rs.Metadata.{
  Crates, CratesLaws, Parsed, name_value, add_named, add_header, add_headers, metadata_from_headers,
  header_line, metadata_to_string, try_base64_decode,
}

-- A header as a user means it.
pub data Item : Type 0 where
  plain : (name value : Text) → Item
  coded : (name : Text) (bytes : List ℕ) → Item

is_empty_of_perm : {A : Type 0} {xs ys : List A} {y : A} → Permᴰ xs (y ∷ ys) → is_empty xs ≡ false
is_empty_of_perm {xs = []} p = let e = length-perm p in absurd (omega arith)
is_empty_of_perm {xs = x ∷ xs} p = refl

module _ (crates : Crates) where
  pub record IsName (name : Text) : Type 0 where
    pub given : is_empty name ≡ false
    pub one_word : Lacks b':' name
    pub trimmed : trim name ≡ name
    pub lower : to_lowercase crates.unicode_lowercase name ≡ name

  pub record IsPlain (name value : Text) : Type 0 where
    pub is_name : IsName name
    pub ordinary : ends_with (text "-bin") name ≡ false
    pub key_ok : crates.ascii_key name ≡ true
    pub value_ok : crates.ascii_value value ≡ true
    pub value_trimmed : trim value ≡ value
    pub readable : crates.to_str value ≡ some value

  pub record IsCoded (name : Text) : Type 0 where
    pub is_name : IsName name
    pub marked : ends_with (text "-bin") name ≡ true
    pub key_ok : crates.binary_key name ≡ true

  abbrev pub IsItem : Item → Type 0
  IsItem (plain name value) = IsPlain name value
  IsItem (coded name bytes) = IsCoded name

  -- The header's text: the name, a colon, a space and the value.
  abbrev pub item_text : Item → Text
  item_text (plain name value) = name ++ (text ": " ++ value)
  item_text (coded name bytes) = name ++ (text ": " ++ crates.encode bytes)

  abbrev item_header : Item → Header
  item_header (plain name value) = ascii name value
  item_header (coded name bytes) = binary name (crates.from_bytes bytes)

  trim_space : (v : Text) → trim v ≡ v → trim (b' ' ∷ v) ≡ v
  unfolding trim is_whitespace
  trim_space v h = h

  name_value_printed :
      (name value : Text)
      → IsName name
      → trim value ≡ value
      → name_value crates (name ++ (text ": " ++ value)) ≡ (name, value)
  unfolding name_value text
  name_value_printed name value n t = rw (
    split_once_found b':' name (b' ' ∷ value) n.one_word,
    name_value,
    n.trimmed,
    n.lower,
    trim_space value t,
  )

  module _ (laws : CratesLaws crates) where
    decode_encoded : (bytes : List ℕ) → try_base64_decode crates (crates.encode bytes) ≡ some bytes
    unfolding try_base64_decode
    decode_encoded bytes = rw (laws.encode_trimmed bytes, laws.decode-encode bytes)

    add_header_item :
        (s : Parsed) (item : Item)
        → IsItem item
        → add_header crates s (item_text item)
          ≡ record s { metadata = crates.append s.metadata (item_header item) }
    unfolding add_header add_named
    add_header_item s (plain name value) p = rw (
      name_value_printed name value p.is_name p.value_trimmed,
      p.is_name.given,
      p.ordinary,
      p.value_ok,
      p.key_ok,
    )
    add_header_item s (coded name bytes) p = rw (
      name_value_printed name (crates.encode bytes) p.is_name (laws.encode_trimmed bytes),
      p.is_name.given,
      p.marked,
      p.key_ok,
      decode_encoded bytes,
    )

    add_headers-perm :
        (s : Parsed) (items : List Item)
        → All IsItem items
        → Permᴰ
            (add_headers crates s (map item_text items)).metadata
            (map item_header items ++ s.metadata)
    unfolding add_headers
    add_headers-perm s [] h = Permᴰ.refl s.metadata
    add_headers-perm s (item ∷ items) (p, h) =
        rw (add_header_item s item p, add_headers)
          (Permᴰ.trans
            (add_headers-perm (record s { metadata = crates.append s.metadata (item_header item) })
              items h)
            (Permᴰ.trans
              (Permᴰ.append_left (map item_header items)
                (laws.append_perm s.metadata (item_header item)))
              (Permᴰ.middle (item_header item) (map item_header items) s.metadata)))

    header_line_item :
        (item : Item) → IsItem item → header_line crates (item_header item) ≡ item_text item
    unfolding header_line
    header_line_item (plain name value) p = rw p.readable
    header_line_item (coded name bytes) p = rw (laws.to_bytes-from_bytes bytes)

    lines_of_items :
        (items : List Item)
        → All IsItem items
        → map (header_line crates) (map item_header items ++ []) ≡ map item_text items
    lines_of_items [] h = refl
    lines_of_items (item ∷ items) (p, h) = cc (header_line_item item p, lines_of_items items h)

    -- Where the crates keep `CratesLaws`, parsing headers, at least one, that are written as `name: value`, with the values of binary names in
    -- standard base64, and printing the result gives the lines that were parsed, sorted.
    pub metadata_to_string-from_headers :
        (items : List Item)
        → items ≢ []
        → All IsItem items
        → metadata_to_string crates (metadata_from_headers crates (map item_text items)).metadata
          ≡ join (text "\n") (sort text_le (map item_text items))
    unfolding metadata_to_string metadata_from_headers
    metadata_to_string-from_headers [] ne h = absurd (ne refl)
    metadata_to_string-from_headers (item ∷ items) ne h =
        let start : Parsed = record { metadata = []; warnings = [] } in
        let p = add_headers-perm start (item ∷ items) h in
        rw (is_empty_of_perm p, metadata_to_string)
          (ap (join (text "\n")) (
            sort-eq_of_perm text_le text_le_order text_le_antisym (Permᴰ.map (header_line crates) p)
            ∙ ap (sort text_le) (lines_of_items (item ∷ items) h)))
