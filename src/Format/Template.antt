-- ===== src/Format/Template.antt =====
-- grpcurl-core/src/format.rs: the template of a message. The messages of prost-reflect are given.
pub mod Ends
use grpcurl_rs.Base.{
  ℕ, zero, suc, Text, text, text_eq, List, [], ◌∷◌, Bool, true, false, Option, none, some,
  if◌then◌else◌, any,
}
use grpcurl_rs.Base.Ints.{ℤ}
use grpcurl_rs.Descriptor.{Reflect}
use grpcurl_rs.Descriptor.Export.{contains}
use grpcurl_rs.DescriptorText.{Kind, Syntax}
use grpcurl_rs.DescriptorText.Kind.{
  double, float, int64, uint64, int32, fixed64, fixed32, bool, string, bytes, uint32, sfixed32,
  sfixed64, sint32, sint64, message_kind, enum_kind,
}

-- `prost_reflect::MapKey`, with the default of each kind.
pub data MapKey : Type 0 where
  i32_key i64_key u32_key u64_key bool_key : MapKey
  string_key : Text → MapKey

-- `prost_reflect::Value`, with the default of each kind of scalar; a list has one element and a
-- map one entry.
pub data Value (Dynamic : Type 0) : Type 0 where
  f64_value f32_value i32_value i64_value u32_value u64_value bool_value bytes_value : Value Dynamic
  string_value : Text → Value Dynamic
  enum_number : ℤ → Value Dynamic
  message_value : Dynamic → Value Dynamic
  list_of : Value Dynamic → Value Dynamic
  map_of : MapKey → Value Dynamic → Value Dynamic

-- `DynamicMessage`, and what else is asked of a descriptor.
pub record Dynamics (reflect : Reflect) : Type 1 where
  pub Dynamic : Type 0
  pub new_message : reflect.Message → Dynamic
  pub set_field : Dynamic → reflect.Field → Value Dynamic → Dynamic
  pub get_field_by_name : reflect.Message → Text → Option reflect.Field
  pub get_field : reflect.Message → ℕ → Option reflect.Field
  -- `get_field` of 1 and of 2 in the entry of a map field, which has both
  pub entry_fields : reflect.Field → reflect.Field × reflect.Field
  pub default_value : reflect.Enum → ℤ

unfoldable pub default_map_key : {Message Enum : Type 0} → Kind Message Enum → MapKey
default_map_key int32 = i32_key
default_map_key sint32 = i32_key
default_map_key sfixed32 = i32_key
default_map_key int64 = i64_key
default_map_key sint64 = i64_key
default_map_key sfixed64 = i64_key
default_map_key uint32 = u32_key
default_map_key fixed32 = u32_key
default_map_key uint64 = u64_key
default_map_key fixed64 = u64_key
default_map_key bool = bool_key
default_map_key string = string_key []
default_map_key _ = i32_key

abbrev pub option_map {ℓ κ} : {A : Type ℓ} {B : Type κ} → (A → B) → Option A → Option B
option_map f none = none
option_map f (some a) = some (f a)

module _ {reflect : Reflect} (syntax : Syntax reflect) (dynamics : Dynamics reflect) where
  unfoldable pub default_value_for_kind : Kind reflect.Message reflect.Enum → Value dynamics.Dynamic
  default_value_for_kind double = f64_value
  default_value_for_kind float = f32_value
  default_value_for_kind int32 = i32_value
  default_value_for_kind sint32 = i32_value
  default_value_for_kind sfixed32 = i32_value
  default_value_for_kind int64 = i64_value
  default_value_for_kind sint64 = i64_value
  default_value_for_kind sfixed64 = i64_value
  default_value_for_kind uint32 = u32_value
  default_value_for_kind fixed32 = u32_value
  default_value_for_kind uint64 = u64_value
  default_value_for_kind fixed64 = u64_value
  default_value_for_kind bool = bool_value
  default_value_for_kind string = string_value []
  default_value_for_kind bytes = bytes_value
  default_value_for_kind (enum_kind e) = enum_number (dynamics.default_value e)
  default_value_for_kind (message_kind m) = message_value (dynamics.new_message m)

  -- The field of this name is set, where the message has one.
  abbrev set_named : reflect.Message → Text → Text → dynamics.Dynamic → dynamics.Dynamic
  set_named desc name value msg = elim (dynamics.get_field_by_name desc name) [
    | some field ↦ dynamics.set_field msg field (string_value value)
    | none ↦ msg
  ]

  abbrev hinted : reflect.Message → Text → dynamics.Dynamic
  hinted desc hint = set_named desc (text "string_value") hint (dynamics.new_message desc)

  abbrev list_hint :
      reflect.Field → Kind reflect.Message reflect.Enum → dynamics.Dynamic → dynamics.Dynamic
  list_hint field (message_kind m) msg =
      dynamics.set_field msg field
        (list_of (message_value (hinted m (text "google.protobuf.Value supports arbitrary JSON"))))
  list_hint field _ msg = msg

  abbrev list_value : reflect.Message → dynamics.Dynamic
  list_value desc = elim (dynamics.get_field_by_name desc (text "values")) [
    | some field ↦ list_hint field (syntax.field_kind field) (dynamics.new_message desc)
    | none ↦ dynamics.new_message desc
  ]

  abbrev entry_hint :
      reflect.Field → Kind reflect.Message reflect.Enum → dynamics.Dynamic → dynamics.Dynamic
  entry_hint field (message_kind m) msg = dynamics.set_field msg field (
      map_of (string_key (text "key"))
        (message_value (hinted m (text "google.protobuf.Struct supports arbitrary JSON objects"))))
  entry_hint field _ msg = msg

  abbrev struct_hint :
      reflect.Field → Kind reflect.Message reflect.Enum → dynamics.Dynamic → dynamics.Dynamic
  struct_hint field (message_kind entry) msg = elim (dynamics.get_field entry 2) [
    | some value ↦ entry_hint field (syntax.field_kind value) msg
    | none ↦ msg
  ]
  struct_hint field _ msg = msg

  abbrev struct_value : reflect.Message → dynamics.Dynamic
  struct_value desc = elim (dynamics.get_field_by_name desc (text "fields")) [
    | some field ↦ struct_hint field (syntax.field_kind field) (dynamics.new_message desc)
    | none ↦ dynamics.new_message desc
  ]

  -- The types with a form of their own in JSON.
  unfoldable pub well_known : reflect.Message → Option dynamics.Dynamic
  well_known desc =
      let name = reflect.message_full_name desc in
      if text_eq name (text "google.protobuf.Any")
      then some (
          set_named desc (text "type_url") (text "type.googleapis.com/google.protobuf.Empty")
            (dynamics.new_message desc))
      else if text_eq name (text "google.protobuf.Value")
      then some (hinted desc (text "google.protobuf.Value supports arbitrary JSON"))
      else if text_eq name (text "google.protobuf.ListValue")
      then some (list_value desc)
      else if text_eq name (text "google.protobuf.Struct")
      then some (struct_value desc)
      else none

  -- A message's template, or the default of a scalar.
  abbrev pub element_of :
      (reflect.Message → Option dynamics.Dynamic)
      → Kind reflect.Message reflect.Enum
      → Option (Value dynamics.Dynamic)
  element_of fill (message_kind m) = option_map message_value (fill m)
  element_of fill kind = some (default_value_for_kind kind)

  -- The value that a single field is set to: a scalar one is left.
  abbrev pub single_value :
      (reflect.Message → Option dynamics.Dynamic)
      → Kind reflect.Message reflect.Enum
      → Option (Option (Value dynamics.Dynamic))
  single_value fill (message_kind m) = option_map (λ t. some (message_value t)) (fill m)
  single_value fill kind = some none

  abbrev pub field_value :
      (reflect.Message → Option dynamics.Dynamic)
      → reflect.Field
      → Option (Option (Value dynamics.Dynamic))
  field_value fill field =
      if syntax.is_map field
      then option_map
          (λ v.
            some (map_of (default_map_key (syntax.field_kind (dynamics.entry_fields field).0)) v))
          (element_of fill (syntax.field_kind (dynamics.entry_fields field).1))
      else if syntax.is_list field
      then option_map (λ v. some (list_of v)) (element_of fill (syntax.field_kind field))
      else single_value fill (syntax.field_kind field)

  abbrev set_value :
      dynamics.Dynamic → reflect.Field → Option (Value dynamics.Dynamic) → dynamics.Dynamic
  set_value msg field none = msg
  set_value msg field (some v) = dynamics.set_field msg field v

  -- The loop over the fields.
  abbrev pub fill_fields :
      (reflect.Message → Option dynamics.Dynamic)
      → List reflect.Field
      → dynamics.Dynamic
      → Option dynamics.Dynamic
  fill_fields fill [] msg = some msg
  fill_fields fill (field ∷ fields) msg = elim (field_value fill field) [
    | some v ↦ fill_fields fill fields (set_value msg field v)
    | none ↦ none
  ]

  abbrev pub unless_known :
      Option dynamics.Dynamic → Option dynamics.Dynamic → Option dynamics.Dynamic
  unless_known (some msg) later = some msg
  unless_known none later = later

  -- `path` has the messages that the template is inside; `none` where the fuel ends.
  unfoldable pub make_template_inner : ℕ → List Text → reflect.Message → Option dynamics.Dynamic
  make_template_inner zero path desc = none
  make_template_inner (suc fuel) path desc =
      let name = reflect.message_full_name desc in
      let filled =
        fill_fields (make_template_inner fuel (name ∷ path)) (reflect.fields desc)
          (dynamics.new_message desc) in
      unless_known (well_known desc)
        (if contains name path then some (dynamics.new_message desc) else filled)

  unfoldable pub make_template : ℕ → reflect.Message → Option dynamics.Dynamic
  make_template fuel desc = make_template_inner fuel [] desc
