-- ===== src/DescriptorText/Entries.antt =====
-- grpcurl-core/src/descriptor_text.rs: the entries of a message, which its two printers collect
-- and sort in the same way.
use grpcurl_rs.Base.{
  ℕ, Text, text, List, [], ◌∷◌, ◌++◌, map, Bool, not, if◌then◌else◌, any, keep, ◌==◌, leb,
}
use grpcurl_rs.Descriptor.{Reflect}
use grpcurl_rs.Format.Status.{lines}
use grpcurl_rs.DescriptorText.{Syntax, is_synthetic_oneof}

pub record FieldEntry : Type 0 where
  pub number : ℕ
  pub shown : Text

abbrev pub entry_le : FieldEntry → FieldEntry → Bool
entry_le a b = leb a.number b.number

-- `u32::MAX`
abbrev pub u32_max : ℕ
u32_max = 0xFFFFFFFF

-- `min().unwrap_or(u32::MAX)`
unfoldable pub minimum : List ℕ → ℕ
minimum [] = u32_max
minimum (n ∷ []) = n
minimum (m ∷ n ∷ more) = let least = minimum (n ∷ more) in if leb m least then m else least

-- Each line behind two spaces.
unfoldable pub indent : List Text → Text
indent [] = []
indent (line ∷ more) = text "  " ++ (line ++ (b'\n' ∷ indent more))

-- The lines of the entries, behind two spaces each.
unfoldable pub write_entries : List FieldEntry → Text
unfolding indent
write_entries [] = []
write_entries (e ∷ more) = indent (lines e.shown) ++ write_entries more

-- The same, with a blank line between entries.
unfoldable pub write_spaced : List FieldEntry → Text
unfolding indent
write_spaced [] = []
write_spaced (e ∷ []) = indent (lines e.shown)
write_spaced (e ∷ f ∷ more) = indent (lines e.shown) ++ b'\n' ∷ write_spaced (f ∷ more)

module _ {reflect : Reflect} (syntax : Syntax reflect) where
  -- The oneofs that the source declares.
  abbrev pub real_oneofs : reflect.Message → List reflect.OneOf
  real_oneofs msg = keep (λ oneof. not (is_synthetic_oneof syntax oneof)) (reflect.oneofs msg)

  abbrev numbers_of : List reflect.OneOf → List ℕ
  numbers_of [] = []
  numbers_of (oneof ∷ more) = map syntax.field_number (syntax.oneof_fields oneof) ++ numbers_of more

  -- `oneof_fields.contains`
  unfoldable pub in_oneof : reflect.Message → reflect.Field → Bool
  in_oneof msg field = any (λ n. n == syntax.field_number field) (numbers_of (real_oneofs msg))

  -- The fields that no oneof prints.
  abbrev pub regular_fields : reflect.Message → List reflect.Field
  regular_fields msg = keep (λ field. not (in_oneof msg field)) (reflect.fields msg)

  -- The entries of the fields and the oneofs, before they are sorted.
  unfoldable pub field_entries :
      (reflect.Field → Text) → (reflect.OneOf → Text) → reflect.Message → List FieldEntry
  field_entries format_field format_oneof msg =
      map (λ field. record { number = syntax.field_number field; shown = format_field field })
        (regular_fields msg)
      ++ map
          (λ oneof. record {
            number = minimum (map syntax.field_number (syntax.oneof_fields oneof));
            shown = format_oneof oneof;
          })
          (real_oneofs msg)
