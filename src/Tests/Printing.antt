-- ===== src/Tests/Printing.antt =====
-- Runs of the theorems on printed descriptors. A message nests the one named by its name less the
-- first character, an enum has the values `z`, of number 0, and `m`, of number -1, and a service
-- has the methods `b` and `a`.
use grpcurl_rs.Base.{
  ℕ, ◌<◌, ◌-◌, Text, text_eq, text_le, List, [], ◌∷◌, ◌++◌, map, Permᴰ, IsSorted, Bool, true, false,
  none, some, if◌then◌else◌, ◌≡◌, refl, leb, ltb, any, ◌&&◌, All, length, keep, arith, text,
}
use grpcurl_rs.Base.Ints.{pos, negsuc, int_le, is_negative}
use grpcurl_rs.Descriptor.{Reflect}
use grpcurl_rs.Format.Status.{lines}
use grpcurl_rs.DescriptorText.{Kind, Syntax, to_lower_camel_case, short_name, fully_qualified_name}
use grpcurl_rs.DescriptorText.Reserved.{covers, range_span, range_span-covers}
use grpcurl_rs.DescriptorText.Camel.{pieces_of, all_capitalized, to_lower_camel_case-pieces}
use grpcurl_rs.DescriptorText.Names.{resolve, resolve_in, resolve-short_name, resolve_in-short_name}
use grpcurl_rs.DescriptorText.Describe.{
  block, format_method, format_service, format_enum, format_enum_value,
}
use grpcurl_rs.DescriptorText.Lines.{
  block_lines, is_plain, IsPlainMethod, IsPlainValue, format_service-lines, format_enum-lines,
}
use grpcurl_rs.DescriptorText.ProtoFile.{nested_messages, file_format_message, file_format_enum}
use grpcurl_rs.DescriptorText.Nesting.{file_format_message-ends}
use grpcurl_rs.DescriptorText.Extend.{extendee_of, group_by_extendee}
use grpcurl_rs.DescriptorText.Groups.{IsGrouped, under, group_by_extendee-IsGrouped}
use grpcurl_rs.DescriptorText.FirstValue.{file_format_enum-negative}
use grpcurl_rs.Tests.Descriptors.{names_only, imports}

abbrev a_name : Text
a_name = b'a' ∷ []

abbrev b_name : Text
b_name = b'b' ∷ []

abbrev pub described : Reflect
described = record names_only {
  method_name = λ m. m;
  methods = λ s. b_name ∷ a_name ∷ [];
  values = λ e. (b'z' ∷ []) ∷ (b'm' ∷ []) ∷ [];
  containing_message = λ x. if x.1 then a_name else b_name;
}

abbrev pub plain_syntax : Syntax described
plain_syntax = record {
  service_name = λ s. s;
  message_name = λ m. m;
  enum_name = λ e. e;
  extension_name = λ x. b_name;
  field_number = λ f. 1;
  enum_value_number = λ v. if text_eq v (b'm' ∷ []) then negsuc 0 else pos 0;
  oneof_fields = λ o. [];
  child_messages = imports;
  child_enums = λ m. [];
  is_map = λ f. false;
  is_list = λ f. false;
  extension_is_list = λ x. false;
  field_kind = λ f. Kind.bool;
  extension_kind = λ x. Kind.bool;
  entry_key = λ m. m;
  entry_value = λ m. m;
  field_options = λ f. none;
  json_name = λ f. none;
  proto3_optional = λ f. none;
  reserved_range = λ m. [];
  reserved_name = λ m. [];
  decimal = λ n. b'0' ∷ [];
  decimal_int = λ n. b'0' ∷ [];
  to_uppercase = λ c. (c - 32) ∷ [];
}

range_span-covers_example :
    covers (range_span (record { start = some (pos 3); end = some (pos 6) })) 5
    ≡ (leb 3 5 && ltb 5 6)
range_span-covers_example = range_span-covers 3 6 5 (omega arith) (omega arith)

to_lower_camel_case-pieces_example :
    to_lower_camel_case plain_syntax (b'a' ∷ b'_' ∷ b'b' ∷ [])
    ≡ (pieces_of (b'a' ∷ b'_' ∷ b'b' ∷ [])).0
      ++ all_capitalized plain_syntax (pieces_of (b'a' ∷ b'_' ∷ b'b' ∷ [])).1
to_lower_camel_case-pieces_example =
    to_lower_camel_case-pieces plain_syntax (b'a' ∷ b'_' ∷ b'b' ∷ [])

abbrev dotted : Text
dotted = b'a' ∷ b'.' ∷ b'b' ∷ []

resolve-short_name_example : resolve a_name (short_name dotted a_name) ≡ dotted
resolve-short_name_example =
    resolve-short_name dotted a_name refl (λ e. cc, (λ e. refl, (λ e. cc, tt)))

resolve_in-short_name_example :
    resolve_in
      (λ n. true)
      ((a_name ++ b'.' ∷ b_name) ∷ a_name ∷ [])
      (short_name (a_name ++ b'.' ∷ b_name) a_name)
    ≡ some (a_name ++ b'.' ∷ (b_name ++ b'.' ∷ b_name))
resolve_in-short_name_example =
    resolve_in-short_name (λ n. true) a_name b_name b_name refl refl refl refl

plain_a : is_plain a_name ≡ true
unfolding is_plain
plain_a = refl

plain_methods : All (IsPlainMethod plain_syntax) (described.methods a_name)
unfolding is_plain fully_qualified_name
plain_methods = ((refl, refl, refl), ((refl, refl, refl), tt))

plain_values : All (IsPlainValue plain_syntax) (described.values a_name)
unfolding is_plain text_eq
plain_values = ((refl, refl), ((refl, refl), tt))

format_service-lines_example :
    (ms : List Text) × Permᴰ ms (described.methods a_name)
    × IsSorted (λ a b. text_le a b) ms
    × (lines (format_service plain_syntax a_name)
        ≡ block_lines (text "service") a_name (map (format_method plain_syntax) ms))
format_service-lines_example = format_service-lines plain_syntax a_name plain_a plain_methods

format_enum-lines_example :
    (vs : List Text) × Permᴰ vs (described.values a_name)
    × IsSorted
        (λ a b. int_le (plain_syntax.enum_value_number a) (plain_syntax.enum_value_number b))
        vs
    × (lines (format_enum plain_syntax a_name)
        ≡ block_lines (text "enum") a_name (map (format_enum_value plain_syntax) vs))
format_enum-lines_example = format_enum-lines plain_syntax a_name plain_a plain_values

has_negative :
    any (λ v. is_negative (plain_syntax.enum_value_number v)) (described.values a_name) ≡ true
unfolding text_eq
has_negative = refl

file_format_enum-negative_example :
    (v : Text) × (more : Text) × (is_negative (plain_syntax.enum_value_number v) ≡ true)
    × (file_format_enum plain_syntax [] a_name
        ≡ block (text "enum") a_name (text "  " ++ (format_enum_value plain_syntax v ++ more)))
file_format_enum-negative_example = file_format_enum-negative plain_syntax [] a_name has_negative

nested_less :
    (msg : Text) → All (λ nested. length nested < length msg) (nested_messages plain_syntax [] msg)
nested_less [] = tt
nested_less (c ∷ msg) = (omega arith, tt)

file_format_message-ends_example :
    (t : Text) × ((fuel : ℕ)
      → length dotted < fuel
      → file_format_message plain_syntax [] fuel dotted ≡ some t)
file_format_message-ends_example =
    file_format_message-ends plain_syntax [] (λ msg. length msg) nested_less dotted

abbrev extensions : List (ℕ × Bool)
extensions = (1, false) ∷ (2, true) ∷ (3, false) ∷ []

group_by_extendee-IsGrouped_example :
    IsGrouped (group_by_extendee plain_syntax [] extensions)
    × ((k : Text)
        → under k (group_by_extendee plain_syntax [] extensions)
          ≡ keep (λ ext. text_eq (extendee_of plain_syntax [] ext) k) extensions)
group_by_extendee-IsGrouped_example = group_by_extendee-IsGrouped plain_syntax [] extensions
