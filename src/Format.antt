-- ===== src/Format.antt =====
-- grpcurl-core/src/format.rs
pub mod Output
pub mod Requests
pub mod Status
pub mod Template
use grpcurl_rs.Base.{Text, text, text_eq, ◌++◌, Bool, true, false, if◌then◌else◌}

pub data Format : Type 0 where
  json text_format : Format

pub data FormatArg : Type 0 where
  parsed : Format → FormatArg
  refused : Text → FormatArg

-- `FromStr for Format`
unfoldable pub from_str : Text → FormatArg
unfolding text text_eq
from_str s =
    if text_eq s (text "json")
    then parsed json
    else if text_eq s (text "text")
    then parsed text_format
    else refused (text "The --format option must be 'json' or 'text', got '" ++ (s ++ text "'."))

-- `Display for Format`
unfoldable pub display : Format → Text
unfolding text
display json = text "json"
display text_format = text "text"

-- `format != Format::Json`
abbrev pub is_json : Format → Bool
is_json json = true
is_json text_format = false

pub record FormatOptions : Type 0 where
  pub emit_defaults : Bool
  pub allow_unknown_fields : Bool
