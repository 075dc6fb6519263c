-- ===== src/Tests/Headers.antt =====
-- Runs of the theorems on headers.
use mathlib.Core.List.{reverse-reverse, reverse-cons}
use mathlib.Core.List.Permᴰ
use grpcurl_rs.Base.{
  ℕ, ◌+◌, Text, text, text_le, trim, is_whitespace, to_lowercase, ends_with, sort, join, is_empty,
  reverse, keep, length, drop, map, List, [], ◌∷◌, ◌++◌, All, Bool, true, false, Option, none, some,
  if◌then◌else◌, text_eq, ◌≡◌, refl, sym, ap, ◌∙◌, split_once,
}
use grpcurl_rs.Error.{done}
use grpcurl_rs.Metadata.{Crates, CratesLaws, metadata_from_headers, metadata_to_string, name_value}
use grpcurl_rs.Metadata.Counts.{is_named, metadata_from_headers_counts}
use grpcurl_rs.Metadata.RoundTrip.{
  Item, plain, coded, IsItem, item_text, metadata_to_string-from_headers,
}
use grpcurl_rs.Metadata.Expand.{expand_env_vars, expand_headers}
use grpcurl_rs.Metadata.Expand.Pieces.{Piece, Spells, substitute}
use grpcurl_rs.Metadata.Expand.Pieces.Reading.{expand_env_vars-substitute}
use grpcurl_rs.Metadata.Expand.Headers.{
  IsConstant, expand_headers_constant, expand_headers_drops_bare,
}

-- An encoding: the bytes between angle brackets.
abbrev encoded : List ℕ → Text
encoded bytes = b'<' ∷ reverse (b'>' ∷ bytes)

abbrev pub plain_crates : Crates
plain_crates = record {
  ascii_key = λ k. true;
  binary_key = λ k. true;
  ascii_value = λ v. true;
  to_str = λ v. some v;
  from_bytes = λ bytes. bytes;
  to_bytes = λ raw. some raw;
  append = λ md h. h ∷ md;
  encode = encoded;
  decode = λ engine t. some (drop 1 (reverse (drop 1 t)));
  unicode_lowercase = λ s. s;
}

encoded_backwards : (bytes : List ℕ) → reverse (encoded bytes) ≡ b'>' ∷ (bytes ++ b'<' ∷ [])
encoded_backwards bytes =
    reverse-cons b'<' (reverse (b'>' ∷ bytes))
    ∙ ap (λ (t : Text). t ++ b'<' ∷ []) (reverse-reverse (b'>' ∷ bytes))

encoded_trimmed : (bytes : List ℕ) → trim (encoded bytes) ≡ encoded bytes
unfolding trim is_whitespace
encoded_trimmed bytes =
    rw (encoded_backwards bytes)
      (ap reverse (sym (encoded_backwards bytes)) ∙ reverse-reverse (encoded bytes))

plain_laws : CratesLaws plain_crates
plain_laws = record {
  append_perm = λ md h. Permᴰ.refl (h ∷ md);
  to_bytes-from_bytes = λ bytes. refl;
  decode-encode = λ bytes. ap (λ (t : Text). some (drop 1 t)) (reverse-reverse (b'>' ∷ bytes));
  encode_trimmed = encoded_trimmed;
}

abbrev items : List Item
items = plain (b'b' ∷ []) (b'1' ∷ []) ∷ coded (text "a-bin") (7 ∷ []) ∷ []

items-IsItem : All (IsItem plain_crates) items
unfolding trim is_whitespace to_lowercase ends_with text
items-IsItem = (
  record {
    is_name = record { given = refl; one_word = (refl, tt); trimmed = refl; lower = refl };
    ordinary = refl;
    key_ok = refl;
    value_ok = refl;
    value_trimmed = refl;
    readable = refl;
  },
  (
    record {
      is_name = record {
        given = refl;
        one_word = (refl, (refl, (refl, (refl, (refl, tt)))));
        trimmed = refl;
        lower = refl;
      };
      marked = refl;
      key_ok = refl;
    },
    tt,
  ),
)

metadata_to_string-from_headers_example :
    metadata_to_string plain_crates
      (metadata_from_headers plain_crates (map (item_text plain_crates) items)).metadata
    ≡ join (text "\n") (sort text_le (map (item_text plain_crates) items))
metadata_to_string-from_headers_example =
    metadata_to_string-from_headers plain_crates plain_laws items (λ e. cc) items-IsItem

abbrev headers : List Text
headers = text "a: 1" ∷ text ": nameless" ∷ text "bare" ∷ []

metadata_from_headers_counts_example :
    let p = metadata_from_headers plain_crates headers in
    length p.metadata + length p.warnings ≡ length (keep (is_named plain_crates plain_laws) headers)
metadata_from_headers_counts_example = metadata_from_headers_counts plain_crates plain_laws headers

abbrev no_unicode : ℕ → Bool
no_unicode c = false

abbrev home_only : Text → Option Text
home_only name = if text_eq name (text "HOME") then some (text "/root") else none

expand_env_vars-substitute_example :
    (ps : List Piece) × Spells no_unicode ps (text "in ${HOME}, ${TMP")
    × (expand_env_vars no_unicode home_only (text "in ${HOME}, ${TMP") ≡ substitute home_only ps)
expand_env_vars-substitute_example =
    expand_env_vars-substitute no_unicode home_only (text "in ${HOME}, ${TMP")

abbrev constant : Text
constant = b'a' ∷ b':' ∷ b'1' ∷ []

constant_IsConstant : IsConstant no_unicode home_only constant
constant_IsConstant = record {
  name = b'a' ∷ [];
  value = b'1' ∷ [];
  shape = refl;
  one_word = (refl, tt);
  constant = (refl, tt);
}

expand_headers_constant_example :
    expand_headers no_unicode home_only (constant ∷ []) ≡ done (constant ∷ [])
expand_headers_constant_example =
    expand_headers_constant no_unicode home_only (constant ∷ []) (constant_IsConstant, tt)

bare_named : is_empty (name_value plain_crates (b'a' ∷ [])).0 ≡ false
unfolding name_value trim is_whitespace to_lowercase split_once
bare_named = refl

expand_headers_drops_bare_example :
    let kept = metadata_from_headers plain_crates ((b'a' ∷ []) ∷ []) in
    (length kept.metadata + length kept.warnings ≡ 1)
    × (expand_headers no_unicode home_only ((b'a' ∷ []) ∷ []) ≡ done ([] ∷ []))
    × (metadata_from_headers plain_crates ([] ∷ []) ≡ record { metadata = []; warnings = [] })
expand_headers_drops_bare_example =
    expand_headers_drops_bare no_unicode home_only plain_crates plain_laws (b'a' ∷ []) (refl, tt)
      bare_named
