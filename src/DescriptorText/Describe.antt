-- ===== src/DescriptorText/Describe.antt =====
-- grpcurl-core/src/descriptor_text.rs: the printing of one symbol, as `describe` shows it.
use grpcurl_rs.Base.{Text, text, text_le, List, [], ◌∷◌, ◌++◌, map, Bool, if◌then◌else◌, sort, leb}
use grpcurl_rs.Base.Ints.{int_le}
use grpcurl_rs.Descriptor.{Reflect, SymbolDescriptor}
use grpcurl_rs.DescriptorText.{
  Kind, Syntax, fully_qualified_name, field_type_name, extension_type_name, format_field_options,
  kind_to_type_name,
}
use grpcurl_rs.DescriptorText.Kind.{message_kind}
use grpcurl_rs.DescriptorText.Entries.{entry_le, write_entries, indent, field_entries}
use grpcurl_rs.DescriptorText.Reserved.{format_reserved_ranges}

-- `keyword name {`, the body and `}`
unfoldable pub block : Text → Text → Text → Text
block keyword name body = keyword ++ (b' ' ∷ name) ++ (text " {\n" ++ (body ++ text "}"))

abbrev pub stream_word : Bool → Text
stream_word b = if b then text "stream " else []

module _ {reflect : Reflect} (syntax : Syntax reflect) where
  -- The line of a method, with its messages named as `qualify` says.
  unfoldable pub write_method : (reflect.Message → Text) → reflect.Method → Text
  write_method qualify method =
      text "rpc "
      ++ (reflect.method_name method
          ++ (text " ( "
              ++ (stream_word (reflect.is_client_streaming method)
                  ++ (qualify (reflect.method_input method)
                      ++ (text " ) returns ( "
                          ++ (stream_word (reflect.is_server_streaming method)
                              ++ (qualify (reflect.method_output method) ++ text " );")))))))

  unfoldable pub format_method : reflect.Method → Text
  format_method method = write_method (fully_qualified_name syntax) method

  abbrev pub sorted_methods : reflect.Service → List reflect.Method
  sorted_methods svc =
      sort (λ a b. text_le (reflect.method_name a) (reflect.method_name b)) (reflect.methods svc)

  unfoldable pub format_service : reflect.Service → Text
  format_service svc =
      block (text "service") (syntax.service_name svc)
        (indent (map format_method (sorted_methods svc)))

  abbrev pub repeated_word : Bool → Text
  repeated_word b = if b then text "repeated " else []

  -- The end of a field's line.
  abbrev name_and_number : reflect.Field → Text
  name_and_number field =
      reflect.field_name field
      ++ (text " = "
          ++ (syntax.decimal (syntax.field_number field)
              ++ (format_field_options syntax field ++ text ";")))

  plain_field : (Kind reflect.Message reflect.Enum → Text) → reflect.Field → Text
  plain_field type_name field =
      repeated_word (syntax.is_list field)
      ++ (type_name (syntax.field_kind field) ++ (b' ' ∷ name_and_number field))

  map_field :
      (Kind reflect.Message reflect.Enum → Text)
      → reflect.Field
      → Kind reflect.Message reflect.Enum
      → Text
  unfolding plain_field
  map_field type_name field (message_kind entry_msg) =
      text "map<"
      ++ (field_type_name syntax (syntax.entry_key entry_msg)
          ++ (text ", "
              ++ (type_name (syntax.field_kind (syntax.entry_value entry_msg))
                  ++ (text "> " ++ name_and_number field))))
  map_field type_name field _ = plain_field type_name field

  -- The line of a field, with its types named as `type_name` says.
  unfoldable pub write_field : (Kind reflect.Message reflect.Enum → Text) → reflect.Field → Text
  unfolding plain_field map_field
  write_field type_name field =
      if syntax.is_map field
      then map_field type_name field (syntax.field_kind field)
      else plain_field type_name field

  unfoldable pub format_field : reflect.Field → Text
  format_field field = write_field (kind_to_type_name syntax) field

  -- A oneof, with its fields printed as `show` says.
  unfoldable pub write_oneof : (reflect.Field → Text) → reflect.OneOf → Text
  write_oneof show oneof = block (text "oneof") (reflect.one_of_name oneof) (
      indent (
        map show (
          sort (λ a b. leb (syntax.field_number a) (syntax.field_number b))
            (syntax.oneof_fields oneof))))

  unfoldable pub format_oneof : reflect.OneOf → Text
  format_oneof oneof = write_oneof format_field oneof

  unfoldable pub format_message : reflect.Message → Text
  format_message msg = block (text "message") (syntax.message_name msg) (
      indent (format_reserved_ranges syntax msg)
      ++ write_entries (sort entry_le (field_entries syntax format_field format_oneof msg)))

  unfoldable pub format_extension : reflect.Extension → Text
  format_extension ext =
      repeated_word (syntax.extension_is_list ext)
      ++ (extension_type_name syntax ext
          ++ (b' '
              ∷ (syntax.extension_name ext
                  ++ (text " = " ++ (syntax.decimal (reflect.number ext) ++ text ";")))))

  unfoldable pub format_enum_value : reflect.EnumValue → Text
  format_enum_value val =
      reflect.enum_value_name val
      ++ (text " = " ++ (syntax.decimal_int (syntax.enum_value_number val) ++ text ";"))

  abbrev pub sorted_values : reflect.Enum → List reflect.EnumValue
  sorted_values e =
      sort (λ a b. int_le (syntax.enum_value_number a) (syntax.enum_value_number b))
        (reflect.values e)

  unfoldable pub format_enum : reflect.Enum → Text
  format_enum e =
      block (text "enum") (syntax.enum_name e) (indent (map format_enum_value (sorted_values e)))

  unfoldable pub get_descriptor_text : SymbolDescriptor reflect → Text
  get_descriptor_text (SymbolDescriptor.service d) = format_service d
  get_descriptor_text (SymbolDescriptor.method d) = format_method d
  get_descriptor_text (SymbolDescriptor.message d) = format_message d
  get_descriptor_text (SymbolDescriptor.enumeration d) = format_enum d
  get_descriptor_text (SymbolDescriptor.field d) = format_field d
  get_descriptor_text (SymbolDescriptor.extension d) = format_extension d
  get_descriptor_text (SymbolDescriptor.one_of d) = format_oneof d
  get_descriptor_text (SymbolDescriptor.enum_value d) = format_enum_value d
  get_descriptor_text (SymbolDescriptor.file d) = []
