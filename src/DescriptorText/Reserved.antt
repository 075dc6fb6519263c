-- ===== src/DescriptorText/Reserved.antt =====
-- grpcurl-core/src/descriptor_text.rs: the reserved numbers and names of a message.
use grpcurl_rs.Base.{
  ℕ, zero, suc, ◌≤◌, ◌<◌, Text, text, join, List, [], ◌∷◌, ◌++◌, map, Bool, ◌&&◌, ◌||◌, Option,
  none, some, if◌then◌else◌, ◌==◌, leb, ltb, ◌≡◌, arith,
}
use grpcurl_rs.Base.Ints.{ℤ, pos, negsuc, int_le, int_eq}
use grpcurl_rs.Descriptor.{Reflect}
use grpcurl_rs.DescriptorText.{Syntax, ReservedRange}

-- What a range is printed as.
pub data Span : Type 0 where
  single : ℤ → Span
  to_max : ℤ → Span
  between : ℤ → ℤ → Span

-- `- 1` on `i32`, which wraps at the least.
abbrev i32_pred : ℤ → ℤ
i32_pred (pos zero) = negsuc 0
i32_pred (pos (suc n)) = pos n
i32_pred (negsuc n) = if n == 0x7FFFFFFF then pos 0x7FFFFFFF else negsuc (suc n)

abbrev or_zero : Option ℤ → ℤ
or_zero none = pos 0
or_zero (some n) = n

unfoldable pub range_span : ReservedRange → Span
range_span r =
    let start = or_zero r.start in
    let last = i32_pred (or_zero r.end) in
    if int_eq start last
    then single start
    else if int_eq last (pos 0x7FFFFFFE) || int_le (pos 536870911) last
    then to_max start
    else between start last

abbrev quoted : Text → Text
quoted n = b'"' ∷ (n ++ b'"' ∷ [])

reserved_line : List Text → List Text
reserved_line [] = []
reserved_line (t ∷ ts) = (text "reserved " ++ (join (text ", ") (t ∷ ts) ++ text ";")) ∷ []

module _ {reflect : Reflect} (syntax : Syntax reflect) where
  write_span : Span → Text
  write_span (single n) = syntax.decimal_int n
  write_span (to_max n) = syntax.decimal_int n ++ text " to max"
  write_span (between m n) = syntax.decimal_int m ++ (text " to " ++ syntax.decimal_int n)

  unfoldable pub format_reserved_ranges : reflect.Message → List Text
  unfolding write_span reserved_line
  format_reserved_ranges msg =
      reserved_line (map (λ r. write_span (range_span r)) (syntax.reserved_range msg))
      ++ reserved_line (map quoted (syntax.reserved_name msg))

-- The numbers that `reserved` covers in a proto file, where `max` is 536870911.
abbrev pub covers : Span → ℕ → Bool
covers (single m) n = int_eq m (pos n)
covers (to_max m) n = int_le m (pos n) && leb n 536870911
covers (between m k) n = int_le m (pos n) && int_le (pos n) k

-- A range of field numbers, whose end is exclusive and at most one above the greatest number, is
-- printed as a span that covers the numbers of the range and no other.
pub range_span-covers :
    (a b n : ℕ)
    → a < b
    → b ≤ 536870912
    → covers (range_span (record { start = some (pos a); end = some (pos b) })) n
      ≡ (leb a n && ltb n b)
unfolding range_span
range_span-covers a zero n less bound = absurd (omega arith)
range_span-covers a (suc b) n less bound = ground arith
