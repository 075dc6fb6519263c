-- ===== src/DescriptorText.antt =====
-- grpcurl-core/src/descriptor_text.rs: what the printing of descriptors asks of prost-reflect, and
-- the names and options in it.
pub mod Camel
pub mod Describe
pub mod Entries
pub mod Extend
pub mod FirstValue
pub mod Groups
pub mod Head
pub mod Lines
pub mod Names
pub mod Nesting
pub mod ProtoFile
pub mod Reserved
use grpcurl_rs.Base.{
  ℕ, Text, text, text_eq, strip_prefix, join, List, [], ◌∷◌, ◌++◌, map, Bool, true, false, Option,
  none, some, if◌then◌else◌, is_empty, length, ◌==◌,
}
use grpcurl_rs.Base.Ints.{ℤ, pos, negsuc}
use grpcurl_rs.Descriptor.{Reflect}

-- `prost_reflect::Kind`
pub data Kind (Message Enum : Type 0) : Type 0 where
  double float int64 uint64 int32 fixed64 fixed32 bool string bytes : Kind Message Enum
  uint32 sfixed32 sfixed64 sint32 sint64 : Kind Message Enum
  message_kind : Message → Kind Message Enum
  enum_kind : Enum → Kind Message Enum

-- The options of a field that are read.
pub record FieldOptions : Type 0 where
  pub deprecated : Option Bool
  pub packed : Option Bool
  pub jstype : Option ℤ

-- A reserved range, whose end is exclusive.
pub record ReservedRange : Type 0 where
  pub start : Option ℤ
  pub end : Option ℤ

-- Descriptors as they are printed, and Rust's formatting of numbers and characters.
pub record Syntax (reflect : Reflect) : Type 0 where
  pub service_name : reflect.Service → Text
  pub message_name : reflect.Message → Text
  pub enum_name : reflect.Enum → Text
  pub extension_name : reflect.Extension → Text
  pub field_number : reflect.Field → ℕ
  pub enum_value_number : reflect.EnumValue → ℤ
  pub oneof_fields : reflect.OneOf → List reflect.Field
  pub child_messages : reflect.Message → List reflect.Message
  pub child_enums : reflect.Message → List reflect.Enum
  pub is_map : reflect.Field → Bool
  pub is_list : reflect.Field → Bool
  pub extension_is_list : reflect.Extension → Bool
  pub field_kind : reflect.Field → Kind reflect.Message reflect.Enum
  pub extension_kind : reflect.Extension → Kind reflect.Message reflect.Enum
  -- `get_field_by_name` of `key` and of `value` in the entry of a map, which has both
  pub entry_key : reflect.Message → reflect.Field
  pub entry_value : reflect.Message → reflect.Field
  -- the parts of the field's and the message's prototype
  pub field_options : reflect.Field → Option FieldOptions
  pub json_name : reflect.Field → Option Text
  pub proto3_optional : reflect.Field → Option Bool
  pub reserved_range : reflect.Message → List ReservedRange
  pub reserved_name : reflect.Message → List Text
  pub decimal : ℕ → Text
  pub decimal_int : ℤ → Text
  -- `char::to_uppercase`
  pub to_uppercase : ℕ → Text

abbrev pub is_some_true : Option Bool → Bool
is_some_true (some b) = b
is_some_true none = false

abbrev pub is_some_false : Option Bool → Bool
is_some_false (some true) = false
is_some_false (some false) = true
is_some_false none = false

abbrev pub line_if : Bool → Text → List Text
line_if b t = if b then t ∷ [] else []

unfoldable pub js_name : ℤ → Text
js_name (pos n) = if n == 1 then text "JS_STRING" else if n == 2 then text "JS_NUMBER" else []
js_name (negsuc n) = []

-- A name behind the package's, short; another's behind a dot.
unfoldable pub short_name : Text → Text → Text
short_name full_name pkg =
    if is_empty pkg then full_name else elim (strip_prefix (pkg ++ b'.' ∷ []) full_name) [
      | some short ↦ short
      | none ↦ b'.' ∷ full_name
    ]

module _ {reflect : Reflect} (syntax : Syntax reflect) where
  -- The loop of `to_lower_camel_case`, with its flag.
  unfoldable pub camel : Bool → Text → Text
  camel capitalize_next [] = []
  camel capitalize_next (ch ∷ s) =
      let capital = camel true s in
      let plain = camel false s in
      if ch == b'_'
      then capital
      else if capitalize_next
      then syntax.to_uppercase ch ++ plain
      else ch ∷ plain

  unfoldable pub to_lower_camel_case : Text → Text
  to_lower_camel_case s = camel false s

  abbrev js_option : Option ℤ → List Text
  js_option none = []
  js_option (some v) = if is_empty (js_name v) then [] else (text "jstype = " ++ js_name v) ∷ []

  options_of : Option FieldOptions → List Text
  unfolding js_name
  options_of none = []
  options_of (some o) =
      line_if (is_some_true o.deprecated) (text "deprecated = true")
      ++ (line_if (is_some_true o.packed) (text "packed = true")
          ++ (line_if (is_some_false o.packed) (text "packed = false") ++ js_option o.jstype))

  json_option : Text → Option Text → List Text
  json_option name none = []
  json_option name (some json_name) =
      if text_eq json_name (to_lower_camel_case name)
      then []
      else (text "json_name = \"" ++ (json_name ++ text "\"")) ∷ []

  unfoldable pub format_field_options : reflect.Field → Text
  unfolding options_of json_option
  format_field_options field =
      let opts =
        options_of (syntax.field_options field)
        ++ json_option (reflect.field_name field) (syntax.json_name field) in
      if is_empty opts then [] else text " [" ++ (join (text ", ") opts ++ text "]")

  unfoldable pub fully_qualified_name : reflect.Message → Text
  fully_qualified_name msg = b'.' ∷ reflect.message_full_name msg

  unfoldable pub kind_to_type_name : Kind reflect.Message reflect.Enum → Text
  kind_to_type_name double = text "double"
  kind_to_type_name float = text "float"
  kind_to_type_name int64 = text "int64"
  kind_to_type_name uint64 = text "uint64"
  kind_to_type_name int32 = text "int32"
  kind_to_type_name fixed64 = text "fixed64"
  kind_to_type_name fixed32 = text "fixed32"
  kind_to_type_name bool = text "bool"
  kind_to_type_name string = text "string"
  kind_to_type_name bytes = text "bytes"
  kind_to_type_name uint32 = text "uint32"
  kind_to_type_name sfixed32 = text "sfixed32"
  kind_to_type_name sfixed64 = text "sfixed64"
  kind_to_type_name sint32 = text "sint32"
  kind_to_type_name sint64 = text "sint64"
  kind_to_type_name (message_kind msg) = fully_qualified_name msg
  kind_to_type_name (enum_kind e) = b'.' ∷ reflect.enum_full_name e

  -- `field_type_name` and `scalar_type_name`
  unfoldable pub field_type_name : reflect.Field → Text
  field_type_name field = kind_to_type_name (syntax.field_kind field)

  unfoldable pub extension_type_name : reflect.Extension → Text
  extension_type_name ext = kind_to_type_name (syntax.extension_kind ext)

  -- `file_field_type_name`
  unfoldable pub file_type_name : Text → Kind reflect.Message reflect.Enum → Text
  file_type_name pkg (message_kind msg) = short_name (reflect.message_full_name msg) pkg
  file_type_name pkg (enum_kind e) = short_name (reflect.enum_full_name e) pkg
  file_type_name pkg kind = kind_to_type_name kind

  abbrev only_optional : List reflect.Field → Bool
  only_optional (field ∷ []) = is_some_true (syntax.proto3_optional field)
  only_optional _ = false

  unfoldable pub is_synthetic_oneof : reflect.OneOf → Bool
  is_synthetic_oneof oneof = only_optional (syntax.oneof_fields oneof)
