-- ===== src/DescriptorText/ProtoFile.antt =====
-- grpcurl-core/src/descriptor_text.rs: the printing of a whole file.
use grpcurl_rs.Base.{
  ℕ, zero, suc, ◌-◌, Text, text, List, [], ◌∷◌, ◌++◌, map, Option, none, some, sort, keep, not,
}
use grpcurl_rs.Base.Ints.{ℤ, pos, negsuc}
use grpcurl_rs.Descriptor.{Reflect}
use grpcurl_rs.DescriptorText.{Syntax, short_name, file_type_name}
use grpcurl_rs.DescriptorText.Describe.{
  block, write_method, write_field, write_oneof, format_enum_value, sorted_values,
}
use grpcurl_rs.DescriptorText.Entries.{FieldEntry, entry_le, minimum, write_spaced, field_entries}
use grpcurl_rs.DescriptorText.Extend.{group_by_extendee, format_extends}
use grpcurl_rs.DescriptorText.Head.{FileHead, format_head, or_text}

-- What a file holds, in the file's order.
pub record Contents (reflect : Reflect) : Type 0 where
  pub head : reflect.FileProto → FileHead
  pub file_messages : reflect.File → List reflect.Message
  pub file_enums : reflect.File → List reflect.Enum
  pub file_extensions : reflect.File → List reflect.Extension
  pub file_services : reflect.File → List reflect.Service

-- `as u32`
abbrev as_u32 : ℤ → ℕ
as_u32 (pos n) = n
as_u32 (negsuc n) = 0xFFFFFFFF - n

-- Lines behind two spaces, with a blank line between them.
unfoldable pub spaced : List Text → Text
spaced [] = []
spaced (line ∷ []) = text "  " ++ (line ++ text "\n")
spaced (line ∷ next ∷ more) = text "  " ++ (line ++ (text "\n\n" ++ spaced (next ∷ more)))

-- The texts in order, where all are there.
abbrev pub add_entry : ℕ → Option Text → Option (List FieldEntry) → Option (List FieldEntry)
add_entry n (some t) (some more) = some (record { number = n; shown = t } ∷ more)
add_entry n _ _ = none

module _ {reflect : Reflect} (syntax : Syntax reflect) (pkg : Text) where
  unfoldable pub file_format_method : reflect.Method → Text
  file_format_method method =
      write_method syntax (λ msg. short_name (reflect.message_full_name msg) pkg) method

  unfoldable pub file_format_service : reflect.Service → Text
  file_format_service svc =
      block (text "service") (syntax.service_name svc)
        (spaced (map file_format_method (reflect.methods svc)))

  unfoldable pub file_format_enum : reflect.Enum → Text
  file_format_enum e =
      block (text "enum") (syntax.enum_name e)
        (spaced (map (format_enum_value syntax) (sorted_values syntax e)))

  unfoldable pub file_format_field : reflect.Field → Text
  file_format_field field = write_field syntax (file_type_name syntax pkg) field

  unfoldable pub file_format_oneof : reflect.OneOf → Text
  file_format_oneof oneof = write_oneof syntax file_format_field oneof

  abbrev enum_entry : reflect.Enum → FieldEntry
  enum_entry e = record {
    number = minimum (map (λ v. as_u32 (syntax.enum_value_number v)) (reflect.values e));
    shown = file_format_enum e;
  }

  -- The nested messages that the source declares.
  abbrev pub nested_messages : reflect.Message → List reflect.Message
  nested_messages msg =
      keep (λ nested. not (reflect.is_map_entry nested)) (syntax.child_messages msg)

  abbrev pub message_entries :
      (reflect.Message → Option Text) → List reflect.Message → Option (List FieldEntry)
  message_entries print [] = some []
  message_entries print (nested ∷ more) =
      add_entry (minimum (map syntax.field_number (reflect.fields nested))) (print nested)
        (message_entries print more)

  -- A message with the entries of its nested messages.
  unfoldable pub message_text : reflect.Message → List FieldEntry → Text
  message_text msg nested = block (text "message") (syntax.message_name msg) (
      write_spaced (
        sort entry_le (
          field_entries syntax file_format_field file_format_oneof msg
          ++ (nested ++ map enum_entry (syntax.child_enums msg)))))

  abbrev write_message : reflect.Message → Option (List FieldEntry) → Option Text
  write_message msg none = none
  write_message msg (some nested) = some (message_text msg nested)

  -- `none` where the fuel ends.
  unfoldable pub file_format_message : ℕ → reflect.Message → Option Text
  file_format_message zero msg = none
  file_format_message (suc fuel) msg =
      write_message msg (message_entries (file_format_message fuel) (nested_messages msg))

-- Each text between line ends, where all are there.
abbrev pub framed : List Text → Text
framed [] = []
framed (t ∷ ts) = b'\n' ∷ (t ++ b'\n' ∷ framed ts)

module _ {reflect : Reflect} (syntax : Syntax reflect) (contents : Contents reflect) where
  abbrev pub format_messages : ℕ → Text → List reflect.Message → Option Text
  format_messages fuel pkg [] = some []
  format_messages fuel pkg (msg ∷ more) = elim (file_format_message syntax pkg fuel msg) [
    | none ↦ none
    | some t ↦ elim (format_messages fuel pkg more) [
      | none ↦ none
      | some rest ↦ some (b'\n' ∷ (t ++ b'\n' ∷ rest))
    ]
  ]

  -- What follows the messages.
  format_rest : Text → reflect.File → Text
  format_rest pkg fd =
      framed (map (file_format_enum syntax pkg) (contents.file_enums fd))
      ++ (format_extends syntax (group_by_extendee syntax pkg (contents.file_extensions fd))
          ++ framed (map (file_format_service syntax pkg) (contents.file_services fd)))

  unfoldable pub format_proto_file : ℕ → reflect.File → Option Text
  unfolding format_rest
  format_proto_file fuel fd =
      let head = contents.head (reflect.file_descriptor_proto fd) in
      let pkg = or_text [] head.package_name in
      elim (format_messages fuel pkg (contents.file_messages fd)) [
        | none ↦ none
        | some messages ↦ some (format_head head ++ (messages ++ format_rest pkg fd))
      ]
