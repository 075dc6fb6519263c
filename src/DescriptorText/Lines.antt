-- ===== src/DescriptorText/Lines.antt =====
-- grpcurl-core/src/descriptor_text.rs: the lines of a printed service and of a printed enum.
use grpcurl_rs.Base.{
  ℕ, Text, text, text_le, text_le_order, List, [], ◌∷◌, ◌++◌, map, Permᴰ, Bool, true, false, not,
  ◌&&◌, ◌==◌, ◌≡◌, refl, sym, ap, ◌∙◌, append_assoc, All, IsSorted, IsTotalOrder, sort, sort-perm,
  sort-IsSorted, arith,
}
use grpcurl_rs.Base.Ints.{int_le, int_le_order}
use grpcurl_rs.Descriptor.{Reflect}
use grpcurl_rs.Format.Status.{lines}
use grpcurl_rs.DescriptorText.{Syntax, fully_qualified_name}
use grpcurl_rs.DescriptorText.Entries.{indent}
use grpcurl_rs.DescriptorText.Describe.{
  block, stream_word, write_method, format_method, format_service, format_enum_value, format_enum,
}

-- The text has no line break.
unfoldable pub is_plain : Text → Bool
is_plain [] = true
is_plain (c ∷ s) = not (c == b'\n') && not (c == b'\r') && is_plain s

pub is_plain-append :
    (s t : Text) → is_plain s ≡ true → is_plain t ≡ true → is_plain (s ++ t) ≡ true
unfolding is_plain
is_plain-append [] t h k = k
is_plain-append (c ∷ s) t h k = ground (arith, h, is_plain-append s t)

lines_cons : (t s : Text) → is_plain t ≡ true → lines (t ++ b'\n' ∷ s) ≡ t ∷ lines s
unfolding is_plain lines
lines_cons [] s h = refl
lines_cons (c ∷ t) s h = ground (arith, h, lines_cons t s)

-- The lines of a block.
abbrev pub behind_spaces : List Text → List Text
behind_spaces ls = map (λ l. text "  " ++ l) ls

abbrev pub block_lines : Text → Text → List Text → List Text
block_lines keyword name ls =
    (keyword ++ (b' ' ∷ name) ++ text " {") ∷ (behind_spaces ls ++ text "}" ∷ [])

closing : lines (text "}") ≡ text "}" ∷ []
unfolding lines text
closing = refl

opening : (rest : Text) → text " {\n" ++ rest ≡ text " {" ++ b'\n' ∷ rest
unfolding text
opening rest = refl

is_plain_spaces : is_plain (text "  ") ≡ true
unfolding is_plain text
is_plain_spaces = refl

is_plain_brace : is_plain (text " {") ≡ true
unfolding is_plain text
is_plain_brace = refl

is_plain_cons :
    (c : ℕ) (s : Text) → is_plain (c ∷ []) ≡ true → is_plain s ≡ true → is_plain (c ∷ s) ≡ true
is_plain_cons c s h k = is_plain-append (c ∷ []) s h k

-- The line's end in the middle of a text.
regroup : (a b r z : Text) (c : ℕ) → (a ++ (b ++ c ∷ r)) ++ z ≡ (a ++ b) ++ c ∷ (r ++ z)
regroup a b r z c =
    rw (append_assoc a (b ++ c ∷ r) z, append_assoc b (c ∷ r) z, append_assoc a b (c ∷ (r ++ z)))

lines-indent :
    (ls : List Text)
    → All (λ l. is_plain l ≡ true) ls
    → lines (indent ls ++ text "}") ≡ behind_spaces ls ++ text "}" ∷ []
unfolding indent
lines-indent [] h = closing
lines-indent (l ∷ ls) (h, hs) =
    ap lines (regroup (text "  ") l (indent ls) (text "}") b'\n')
    ∙ lines_cons (text "  " ++ l) (indent ls ++ text "}")
        (is_plain-append (text "  ") l is_plain_spaces h)
    ∙ ap (λ more. (text "  " ++ l) ∷ more) (lines-indent ls hs)

-- A block of lines reads as the line that opens it, its lines behind two spaces and the brace.
pub lines-block :
    (keyword name : Text) (ls : List Text)
    → is_plain (keyword ++ (b' ' ∷ name)) ≡ true
    → All (λ l. is_plain l ≡ true) ls
    → lines (block keyword name (indent ls)) ≡ block_lines keyword name ls
unfolding block
lines-block keyword name ls h plain =
    ap (λ t. lines (keyword ++ (b' ' ∷ name) ++ t)) (opening (indent ls ++ text "}"))
    ∙ ap lines (
        sym (append_assoc (keyword ++ (b' ' ∷ name)) (text " {") (b'\n' ∷ (indent ls ++ text "}"))))
    ∙ lines_cons (keyword ++ (b' ' ∷ name) ++ text " {") (indent ls ++ text "}")
        (is_plain-append (keyword ++ (b' ' ∷ name)) (text " {") h is_plain_brace)
    ∙ ap (λ more. (keyword ++ (b' ' ∷ name) ++ text " {") ∷ more) (lines-indent ls plain)

All-perm {ℓ κ} : {A : Type ℓ} (P : A → Type κ) {xs ys : List A} → Permᴰ xs ys → All P ys → All P xs
All-perm P Permᴰ.nil h = h
All-perm P (Permᴰ.cons e p) (h, hs) = (rw e h, All-perm P p hs)
All-perm P (Permᴰ.swap e f) (h, (k, hs)) = (rw e k, (rw f h, hs))
All-perm P (Permᴰ.trans p q) h = All-perm P p (All-perm P q h)

All-map {ℓ κ} :
    {A : Type ℓ} {B : Type 0} (P : B → Type κ) (f : A → B) (xs : List A)
    → All (λ x. P (f x)) xs
    → All P (map f xs)
All-map P f [] h = tt
All-map P f (x ∷ xs) (h, hs) = (h, All-map P f xs hs)

-- Elements in the order of their keys.
pub by_key {ℓ κ} :
    {A : Type ℓ} {B : Type κ} {le : B → B → Bool} (key : A → B)
    → IsTotalOrder le
    → IsTotalOrder (λ a b. le (key a) (key b))
by_key key order = record {
  total = λ x y. order.total (key x) (key y);
  trans = λ x y z. order.trans (key x) (key y) (key z);
}

is_plain_keywords : (is_plain (text "service") ≡ true) × (is_plain (text "enum") ≡ true)
unfolding is_plain text
is_plain_keywords = (refl, refl)

opens_plain :
    (keyword name : Text)
    → is_plain keyword ≡ true
    → is_plain name ≡ true
    → is_plain (keyword ++ (b' ' ∷ name)) ≡ true
opens_plain keyword name h k = is_plain-append keyword (b' ' ∷ name) h (unfold is_plain in k)

All-imp {ℓ κ} :
    {A : Type ℓ} {P Q : A → Type κ} → ((x : A) → P x → Q x) → (xs : List A) → All P xs → All Q xs
All-imp f [] h = tt
All-imp f (x ∷ xs) (h, hs) = (f x h, All-imp f xs hs)

-- The lines of a block that holds a line for each element, in an order.
IsSorted-block :
    {A : Type 0} (le : A → A → Bool)
    → IsTotalOrder le
    → (show : A → Text) (keyword name : Text) (xs : List A)
    → is_plain (keyword ++ (b' ' ∷ name)) ≡ true
    → All (λ x. is_plain (show x) ≡ true) xs
    → (ys : List A) × Permᴰ ys xs
      × IsSorted le ys
      × (lines (block keyword name (indent (map show (sort le xs))))
          ≡ block_lines keyword name (map show ys))
IsSorted-block le order show keyword name xs h plain = (
  sort le xs,
  sort-perm le xs,
  sort-IsSorted le order xs,
  lines-block keyword name (map show (sort le xs)) h (
      All-map (λ l. is_plain l ≡ true) show (sort le xs)
        (All-perm (λ x. is_plain (show x) ≡ true) (sort-perm le xs) plain)),
)

module _ {reflect : Reflect} (syntax : Syntax reflect) where
  -- The names in a method have no line break.
  abbrev pub IsPlainMethod : reflect.Method → Type 0
  IsPlainMethod m =
      (is_plain (reflect.method_name m) ≡ true)
      × (is_plain (fully_qualified_name syntax (reflect.method_input m)) ≡ true)
      × (is_plain (fully_qualified_name syntax (reflect.method_output m)) ≡ true)

  is_plain_stream : (b : Bool) → is_plain (stream_word b) ≡ true
  unfolding is_plain text
  is_plain_stream true = refl
  is_plain_stream false = refl

  is_plain_words :
      (is_plain (text "rpc ") ≡ true)
      × (is_plain (text " ( ") ≡ true)
      × (is_plain (text " ) returns ( ") ≡ true)
      × (is_plain (text " );") ≡ true)
  unfolding is_plain text
  is_plain_words = (refl, refl, refl, refl)

  is_plain-format_method :
      (m : reflect.Method) → IsPlainMethod m → is_plain (format_method syntax m) ≡ true
  unfolding format_method write_method
  is_plain-format_method m h =
      let (rpc, opened, returns, closed) = is_plain_words in
      search (is_plain-append, is_plain_stream) depth 20

  -- Where the names in a service have no line break, its text reads as the line of the service, a
  -- line for each of its methods behind two spaces, in the order of the methods' names, and the
  -- brace: no method is lost or added.
  pub format_service-lines :
      (svc : reflect.Service)
      → is_plain (syntax.service_name svc) ≡ true
      → All IsPlainMethod (reflect.methods svc)
      → (ms : List reflect.Method) × Permᴰ ms (reflect.methods svc)
        × IsSorted (λ a b. text_le (reflect.method_name a) (reflect.method_name b)) ms
        × (lines (format_service syntax svc)
            ≡ block_lines
                (text "service")
                (syntax.service_name svc)
                (map (format_method syntax) ms))
  unfolding format_service
  format_service-lines svc h plain =
      IsSorted-block (λ a b. text_le (reflect.method_name a) (reflect.method_name b))
        (by_key reflect.method_name text_le_order) (format_method syntax) (text "service")
        (syntax.service_name svc) (reflect.methods svc)
        (opens_plain (text "service") (syntax.service_name svc) is_plain_keywords.0 h)
        (All-imp (λ m. is_plain-format_method m) (reflect.methods svc) plain)

  -- The name and the number of an enum's value have no line break.
  abbrev pub IsPlainValue : reflect.EnumValue → Type 0
  IsPlainValue v =
      (is_plain (reflect.enum_value_name v) ≡ true)
      × (is_plain (syntax.decimal_int (syntax.enum_value_number v)) ≡ true)

  is_plain_marks : (is_plain (text " = ") ≡ true) × (is_plain (text ";") ≡ true)
  unfolding is_plain text
  is_plain_marks = (refl, refl)

  is_plain-format_enum_value :
      (v : reflect.EnumValue) → IsPlainValue v → is_plain (format_enum_value syntax v) ≡ true
  unfolding format_enum_value
  is_plain-format_enum_value v h =
      let (equals, semicolon) = is_plain_marks in search (is_plain-append) depth 8

  -- Where the names and the numbers in an enum have no line break, its text reads as the line of
  -- the enum, a line for each of its values behind two spaces, in the order of their signed
  -- numbers, and the brace: no value is lost or added.
  pub format_enum-lines :
      (e : reflect.Enum)
      → is_plain (syntax.enum_name e) ≡ true
      → All IsPlainValue (reflect.values e)
      → (vs : List reflect.EnumValue) × Permᴰ vs (reflect.values e)
        × IsSorted (λ a b. int_le (syntax.enum_value_number a) (syntax.enum_value_number b)) vs
        × (lines (format_enum syntax e)
            ≡ block_lines (text "enum") (syntax.enum_name e) (map (format_enum_value syntax) vs))
  unfolding format_enum
  format_enum-lines e h plain =
      IsSorted-block (λ a b. int_le (syntax.enum_value_number a) (syntax.enum_value_number b))
        (by_key syntax.enum_value_number int_le_order) (format_enum_value syntax) (text "enum")
        (syntax.enum_name e) (reflect.values e)
        (opens_plain (text "enum") (syntax.enum_name e) is_plain_keywords.1 h)
        (All-imp (λ v. is_plain-format_enum_value v) (reflect.values e) plain)
