-- ===== src/Descriptor/Lookup.antt =====
-- grpcurl-core/src/descriptor.rs: `find_symbol_in_pool`.
pub mod Names
use grpcurl_rs.Base.{
  Text, text, text_eq, rsplit_once, List, [], find, ◌++◌, ◌∷◌, Option, some, none, ◌≡◌, All, Bool,
  true, false, refl, arith, Bool-cases, inl, inr, rsplit_once_sound, sym, ap, ◌∙◌, text_eq_sound,
  Option-cases,
}
use grpcurl_rs.Error.{Result, done, fail, not_found}
use grpcurl_rs.Descriptor.{
  Reflect, SymbolDescriptor, service, method, message, enumeration, field, extension, one_of,
  enum_value, file, full_name,
}

module _ (reflect : Reflect) (pool : reflect.Pool) where
  -- The descriptor that an earlier lookup gave, or that of a later one.
  abbrev pub or_try :
      Option (SymbolDescriptor reflect)
      → Option (SymbolDescriptor reflect)
      → Option (SymbolDescriptor reflect)
  or_try (some d) later = some d
  or_try none later = later

  abbrev pub found :
      {A : Type 0} → (A → SymbolDescriptor reflect) → Option A → Option (SymbolDescriptor reflect)
  found make (some d) = some (make d)
  found make none = none

  unfoldable pub find_top_level : Text → Option (SymbolDescriptor reflect)
  find_top_level name = or_try (found service (reflect.get_service_by_name pool name)) (
      or_try (found message (reflect.get_message_by_name pool name)) (
        or_try (found enumeration (reflect.get_enum_by_name pool name))
          (found extension (reflect.get_extension_by_name pool name))))

  abbrev pub find_method : Option reflect.Service → Text → Option (SymbolDescriptor reflect)
  find_method (some svc) child =
      found method (find (λ m. text_eq (reflect.method_name m) child) (reflect.methods svc))
  find_method none child = none

  abbrev pub find_member : Option reflect.Message → Text → Option (SymbolDescriptor reflect)
  find_member (some msg) child =
      or_try (found field (find (λ f. text_eq (reflect.field_name f) child) (reflect.fields msg)))
        (found one_of (find (λ o. text_eq (reflect.one_of_name o) child) (reflect.oneofs msg)))
  find_member none child = none

  abbrev pub find_value : Option reflect.Enum → Text → Option (SymbolDescriptor reflect)
  find_value (some e) child =
      found enum_value (find (λ v. text_eq (reflect.enum_value_name v) child) (reflect.values e))
  find_value none child = none

  unfoldable pub find_child : Option (Text × Text) → Option (SymbolDescriptor reflect)
  find_child (some (parent, child)) =
      or_try (find_method (reflect.get_service_by_name pool parent) child) (
        or_try (find_member (reflect.get_message_by_name pool parent) child)
          (find_value (reflect.get_enum_by_name pool parent) child))
  find_child none = none

  abbrev pub or_not_found :
      Text → Option (SymbolDescriptor reflect) → Result (SymbolDescriptor reflect)
  or_not_found name (some d) = done d
  or_not_found name none = fail (not_found name)

  unfoldable pub find_symbol_in_pool : Text → Result (SymbolDescriptor reflect)
  find_symbol_in_pool name = or_not_found name (
      or_try (find_top_level name) (
        or_try (find_child (rsplit_once b'.' name))
          (found file (find (λ f. text_eq (reflect.file_name f) name) (reflect.files pool)))))
