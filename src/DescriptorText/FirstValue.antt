-- ===== src/DescriptorText/FirstValue.antt =====
-- grpcurl-core/src/descriptor_text.rs: which value of an enum a file prints first.
use grpcurl_rs.Base.{
  Text, text, List, [], ◌∷◌, ◌++◌, map, Permᴰ, Bool, true, false, ◌≡◌, refl, ap, ◌∙◌, any, All,
  IsSorted, sort-perm, sort-IsSorted, arith, inl, inr, Bool-cases,
}
use grpcurl_rs.Base.Ints.{ℤ, pos, negsuc, int_le, int_le_order, is_negative}
use grpcurl_rs.Descriptor.{Reflect}
use grpcurl_rs.DescriptorText.{Syntax}
use grpcurl_rs.DescriptorText.Lines.{by_key}
use grpcurl_rs.DescriptorText.Describe.{block, format_enum_value, sorted_values}
use grpcurl_rs.DescriptorText.ProtoFile.{spaced, file_format_enum}

any-perm {ℓ} : {A : Type ℓ} (p : A → Bool) {xs ys : List A} → Permᴰ xs ys → any p xs ≡ any p ys
any-perm p Permᴰ.nil = refl
any-perm p (Permᴰ.cons e q) = cc (e, any-perm p q)
any-perm p (Permᴰ.swap {a} {b} {l = l} e f) = rw (← e, ← f) (ground arith)
any-perm p (Permᴰ.trans q r) = any-perm p q ∙ any-perm p r

not_negative : (x y : ℤ) → is_negative x ≡ false → int_le x y ≡ true → is_negative y ≡ false
not_negative (pos m) (pos n) h le = refl
not_negative (pos m) (negsuc n) h le = cc
not_negative (negsuc m) y h le = cc

none_negative {ℓ} :
    {A : Type ℓ} (key : A → ℤ) (x : A) (ys : List A)
    → is_negative (key x) ≡ false
    → All (λ y. int_le (key x) (key y) ≡ true) ys
    → any (λ y. is_negative (key y)) ys ≡ false
none_negative key x [] h all = refl
none_negative key x (y ∷ ys) h (le, all) =
    rw (not_negative (key x) (key y) h le) (none_negative key x ys h all)

-- The first of a sorted list that has a negative element is negative.
first_negative {ℓ} :
    {A : Type ℓ} (key : A → ℤ) (xs : List A)
    → IsSorted (λ a b. int_le (key a) (key b)) xs
    → any (λ x. is_negative (key x)) xs ≡ true
    → (x : A) × (ys : List A) × (xs ≡ x ∷ ys) × (is_negative (key x) ≡ true)
first_negative key [] s h = cc
first_negative key (x ∷ xs) (all, s) h = elim (Bool-cases (is_negative (key x))) [
  | inl e ↦ (x, xs, refl, e)
  | inr e ↦ ground (arith, e, h, none_negative key x xs e all)
]

spaced-first :
    (t : Text) (ts : List Text) → (more : Text) × (spaced (t ∷ ts) ≡ text "  " ++ (t ++ more))
unfolding spaced
spaced-first t [] = (text "\n", refl)
spaced-first t (u ∷ ts) = (text "\n\n" ++ spaced (u ∷ ts), refl)

module _ {reflect : Reflect} (syntax : Syntax reflect) (pkg : Text) where
  -- Where a value of an enum has a negative number, the value that the printed file has first is
  -- negative: in a file of proto3, whose enums start with zero, the text is no valid source.
  pub file_format_enum-negative :
      (e : reflect.Enum)
      → any (λ v. is_negative (syntax.enum_value_number v)) (reflect.values e) ≡ true
      → (v : reflect.EnumValue) × (more : Text) × (is_negative (syntax.enum_value_number v) ≡ true)
        × (file_format_enum syntax pkg e
            ≡ block
                (text "enum")
                (syntax.enum_name e)
                (text "  " ++ (format_enum_value syntax v ++ more)))
  unfolding file_format_enum
  file_format_enum-negative e h =
      let le = λ (a b : reflect.EnumValue).
        int_le (syntax.enum_value_number a) (syntax.enum_value_number b) in
      let negative = λ (v : reflect.EnumValue). is_negative (syntax.enum_value_number v) in
      let show = format_enum_value syntax in
      let (v, vs, same, neg) =
        first_negative syntax.enum_value_number (sorted_values syntax e)
          (sort-IsSorted le (by_key syntax.enum_value_number int_le_order) (reflect.values e))
          (any-perm negative (sort-perm le (reflect.values e)) ∙ h) in
      let (more, starts) = spaced-first (show v) (map show vs) in
      (
        v,
        more,
        neg,
        ap (λ ws. block (text "enum") (syntax.enum_name e) (spaced (map show ws))) same
            ∙ ap (block (text "enum") (syntax.enum_name e)) starts,
      )
