-- ===== src/Metadata.antt =====
-- grpcurl-core/src/metadata.rs: headers as text, and the metadata of a request.
pub mod Expand
pub mod Counts
pub mod RoundTrip
use grpcurl_rs.Base.{
  ℕ, Text, text, text_le, ends_with, trim, split_once, utf8, to_lowercase, sort, join, List, [],
  ◌∷◌, ◌++◌, map, Permᴰ, Bool, true, false, Option, none, some, if◌then◌else◌, is_empty, ◌≡◌,
}
use grpcurl_rs.Error.{Header, ascii, binary, Metadata}

-- The codecs of `BASE64_ENGINES`.
pub data Engine : Type 0 where
  standard url_safe standard_no_pad url_safe_no_pad : Engine

-- What the crates tonic, http and base64 provide, and the lower-case tables of Unicode.
pub record Crates : Type 0 where
  -- `AsciiMetadataKey::from_bytes`, `BinaryMetadataKey::from_bytes` and
  -- `parse::<AsciiMetadataValue>` succeed
  pub ascii_key : Text → Bool
  pub binary_key : Text → Bool
  pub ascii_value : Text → Bool
  -- `AsciiMetadataValue::to_str`
  pub to_str : Text → Option Text
  -- `BinaryMetadataValue::from_bytes` and `to_bytes`
  pub from_bytes : List ℕ → Text
  pub to_bytes : Text → Option (List ℕ)
  -- `append` and `append_bin`
  pub append : Metadata → Header → Metadata
  pub encode : List ℕ → Text
  pub decode : Engine → Text → Option (List ℕ)
  pub unicode_lowercase : Text → Text

-- A header that is dropped with a warning, and why.
pub data Warning : Type 0 where
  invalid_binary_key invalid_key invalid_value : Text → Warning

pub record Parsed : Type 0 where
  pub metadata : Metadata
  pub warnings : List Warning

abbrev pub engines : List Engine
engines = standard ∷ url_safe ∷ standard_no_pad ∷ url_safe_no_pad ∷ []

module _ (crates : Crates) where
  first_decode : List Engine → Text → Option (List ℕ)
  first_decode [] value = none
  first_decode (engine ∷ rest) value = elim (crates.decode engine (trim value)) [
    | some decoded ↦ some decoded
    | none ↦ first_decode rest value
  ]

  unfoldable pub try_base64_decode : Text → Option (List ℕ)
  unfolding first_decode
  try_base64_decode = first_decode engines

  -- The name in lower case and the value, each trimmed.
  unfoldable pub name_value : Text → Text × Text
  name_value header = elim (split_once b':' header) [
    | some (n, v) ↦ (to_lowercase crates.unicode_lowercase (trim n), trim v)
    | none ↦ (to_lowercase crates.unicode_lowercase (trim header), [])
  ]

  abbrev bytes_or_raw : Option (List ℕ) → Text → List ℕ
  bytes_or_raw (some bytes) value = bytes
  bytes_or_raw none value = utf8 value

  -- One round of the loop, on a named header.
  unfoldable pub add_named : Parsed → Text → Text → Text → Parsed
  add_named s header name value =
      if ends_with (text "-bin") name
      then (if crates.binary_key name
          then record s {
            metadata =
                crates.append s.metadata
                  (binary name (crates.from_bytes (bytes_or_raw (try_base64_decode value) value)));
          }
          else record s { warnings = s.warnings ++ invalid_binary_key header ∷ [] })
      else if crates.ascii_value value
      then (if crates.ascii_key name
          then record s { metadata = crates.append s.metadata (ascii name value) }
          else record s { warnings = s.warnings ++ invalid_key header ∷ [] })
      else record s { warnings = s.warnings ++ invalid_value header ∷ [] }

  -- One round of the loop: a header with no name is skipped.
  unfoldable pub add_header : Parsed → Text → Parsed
  add_header s header =
      let (name, value) = name_value header in
      if is_empty name then s else add_named s header name value

  unfoldable pub add_headers : Parsed → List Text → Parsed
  add_headers s [] = s
  add_headers s (header ∷ rest) = add_headers (add_header s header) rest

  unfoldable pub metadata_from_headers : List Text → Parsed
  metadata_from_headers headers = add_headers (record { metadata = []; warnings = [] }) headers

  abbrev str_or_mark : Option Text → Text
  str_or_mark (some s) = s
  str_or_mark none = text "<non-utf8>"

  abbrev bytes_or_none : Option (List ℕ) → List ℕ
  bytes_or_none (some bytes) = bytes
  bytes_or_none none = []

  -- A line of `metadata_to_string`.
  unfoldable pub header_line : Header → Text
  header_line (ascii key value) = key ++ (text ": " ++ str_or_mark (crates.to_str value))
  header_line (binary key raw) =
      key ++ (text ": " ++ crates.encode (bytes_or_none (crates.to_bytes raw)))

  unfoldable pub metadata_to_string : Metadata → Text
  metadata_to_string md =
      if is_empty md then text "(empty)" else join (text "\n") (sort text_le (map header_line md))

-- What the documentation of those crates promises.
pub record CratesLaws (crates : Crates) : Type 0 where
  -- a map keeps what is appended, in an order of its own
  pub append_perm : (md : Metadata) (h : Header) → Permᴰ (crates.append md h) (h ∷ md)
  -- the bytes of a binary value come back
  pub to_bytes-from_bytes :
      (bytes : List ℕ) → crates.to_bytes (crates.from_bytes bytes) ≡ some bytes
  -- the standard codec decodes what it encodes, and its text has no space around it
  pub decode-encode : (bytes : List ℕ) → crates.decode standard (crates.encode bytes) ≡ some bytes
  pub encode_trimmed : (bytes : List ℕ) → trim (crates.encode bytes) ≡ crates.encode bytes
