-- ===== src/Descriptor/Lookup/Names.antt =====
-- The names of the symbols that `find_symbol_in_pool` finds.
use grpcurl_rs.Base.{
  Text, text_eq, rsplit_once, List, [], find, ◌++◌, ◌∷◌, Option, some, none, ◌≡◌, All, Bool, true,
  refl, arith, Bool-cases, inl, inr, rsplit_once_sound, ap, ◌∙◌, text_eq_sound,
}
use grpcurl_rs.Error.{done}
use grpcurl_rs.Descriptor.{
  Reflect, SymbolDescriptor, service, method, message, enumeration, field, extension, one_of,
  enum_value, file, full_name,
}
use grpcurl_rs.Descriptor.Lookup.{
  or_try, found, find_top_level, find_method, find_member, find_value, find_child, or_not_found,
  find_symbol_in_pool,
}

-- The names that prost-reflect documents: a lookup by name gives a descriptor of that name, and the
-- full name of a method, a field or a one-of is that of its parent with its own behind a dot.
pub record HasNames (reflect : Reflect) (pool : reflect.Pool) : Type 0 where
  pub service_named :
      (name : Text) (d : reflect.Service)
      → reflect.get_service_by_name pool name ≡ some d
      → reflect.service_full_name d ≡ name
  pub message_named :
      (name : Text) (d : reflect.Message)
      → reflect.get_message_by_name pool name ≡ some d
      → reflect.message_full_name d ≡ name
  pub enum_named :
      (name : Text) (d : reflect.Enum)
      → reflect.get_enum_by_name pool name ≡ some d
      → reflect.enum_full_name d ≡ name
  pub extension_named :
      (name : Text) (d : reflect.Extension)
      → reflect.get_extension_by_name pool name ≡ some d
      → reflect.extension_full_name d ≡ name
  pub methods_named :
      (d : reflect.Service)
      → All
          (λ m.
            reflect.method_full_name m
            ≡ reflect.service_full_name d ++ b'.' ∷ reflect.method_name m)
          (reflect.methods d)
  pub fields_named :
      (d : reflect.Message)
      → All
          (λ f.
            reflect.field_full_name f ≡ reflect.message_full_name d ++ b'.' ∷ reflect.field_name f)
          (reflect.fields d)
  pub oneofs_named :
      (d : reflect.Message)
      → All
          (λ o.
            reflect.one_of_full_name o
            ≡ reflect.message_full_name d ++ b'.' ∷ reflect.one_of_name o)
          (reflect.oneofs d)

module _ (reflect : Reflect) (pool : reflect.Pool) (names : HasNames reflect pool) where
  -- The symbol that a name stands for: a value of an enum is named behind the enum, all else by its
  -- full name.
  abbrev pub IsNamed : Text → SymbolDescriptor reflect → Type 0
  IsNamed name (enum_value v) =
      (e : reflect.Enum) × (reflect.enum_full_name e ++ b'.' ∷ reflect.enum_value_name v ≡ name)
  IsNamed name s = full_name reflect s ≡ name

  abbrev IsGood : Text → Option (SymbolDescriptor reflect) → Type 0
  IsGood name none = Unit
  IsGood name (some s) = IsNamed name s

  IsGood-or_try :
      (name : Text) (a b : Option (SymbolDescriptor reflect))
      → IsGood name a
      → IsGood name b
      → IsGood name (or_try reflect pool a b)
  IsGood-or_try name none b h k = k
  IsGood-or_try name (some s) b h k = h

  IsGood-found :
      {A : Type 0} (make : A → SymbolDescriptor reflect) (name : Text) (o : Option A)
      → ((a : A) → o ≡ some a → IsNamed name (make a))
      → IsGood name (found reflect pool make o)
  IsGood-found make name none h = tt
  IsGood-found make name (some a) h = h a refl

  find_sound :
      {A : Type 0} (P : A → Type 0) (p : A → Bool) (xs : List A) (x : A)
      → All P xs
      → find p xs ≡ some x
      → P x × (p x ≡ true)
  find_sound P p [] x h e = cc
  find_sound P p (y ∷ xs) x h e = elim (Bool-cases (p y)) [
    | inl k ↦ let same : y ≡ x = ground (arith, k, e) in rw (← same) (h.0, k)
    | inr k ↦ find_sound P p xs x h.1 (ground (arith, k, e))
  ]

  -- What a search among the children of a parent finds is named by the parent and the child.
  IsGood-child :
      {A : Type 0} (make : A → SymbolDescriptor reflect) (full own : A → Text) (parent child : Text)
      (xs : List A)
      → All (λ a. full a ≡ parent ++ b'.' ∷ own a) xs
      → ((a : A) → full a ≡ parent ++ b'.' ∷ child → IsNamed (parent ++ b'.' ∷ child) (make a))
      → IsGood
          (parent ++ b'.' ∷ child)
          (found reflect pool make (find (λ a. text_eq (own a) child) xs))
  IsGood-child make full own parent child xs h k =
      IsGood-found make (parent ++ b'.' ∷ child) (find (λ a. text_eq (own a) child) xs) (λ a e.
        let (named, is_child) =
          find_sound (λ b. full b ≡ parent ++ b'.' ∷ own b) (λ b. text_eq (own b) child) xs a h e in
        k a (named ∙ ap (λ c. parent ++ b'.' ∷ c) (text_eq_sound (own a) child is_child)))

  IsGood-method :
      (o : Option reflect.Service) (parent child : Text)
      → ((d : reflect.Service) → o ≡ some d → reflect.service_full_name d ≡ parent)
      → IsGood (parent ++ b'.' ∷ child) (find_method reflect pool o child)
  unfolding full_name
  IsGood-method none parent child h = tt
  IsGood-method (some d) parent child h =
      IsGood-child method reflect.method_full_name reflect.method_name parent child
        (reflect.methods d) (rw (← h d refl) (names.methods_named d)) (λ a e. e)

  IsGood-member :
      (o : Option reflect.Message) (parent child : Text)
      → ((d : reflect.Message) → o ≡ some d → reflect.message_full_name d ≡ parent)
      → IsGood (parent ++ b'.' ∷ child) (find_member reflect pool o child)
  unfolding full_name
  IsGood-member none parent child h = tt
  IsGood-member (some d) parent child h =
      IsGood-or_try (parent ++ b'.' ∷ child)
        (found reflect pool field
          (find (λ f. text_eq (reflect.field_name f) child) (reflect.fields d)))
        (found reflect pool one_of
          (find (λ o. text_eq (reflect.one_of_name o) child) (reflect.oneofs d)))
        (IsGood-child field reflect.field_full_name reflect.field_name parent child
          (reflect.fields d) (rw (← h d refl) (names.fields_named d)) (λ a e. e))
        (IsGood-child one_of reflect.one_of_full_name reflect.one_of_name parent child
          (reflect.oneofs d) (rw (← h d refl) (names.oneofs_named d)) (λ a e. e))

  All-always : {A : Type 0} (P : A → Type 0) → ((a : A) → P a) → (xs : List A) → All P xs
  All-always P h [] = tt
  All-always P h (x ∷ xs) = (h x, All-always P h xs)

  IsGood-value :
      (o : Option reflect.Enum) (parent child : Text)
      → ((d : reflect.Enum) → o ≡ some d → reflect.enum_full_name d ≡ parent)
      → IsGood (parent ++ b'.' ∷ child) (find_value reflect pool o child)
  IsGood-value none parent child h = tt
  IsGood-value (some d) parent child h =
      IsGood-child enum_value (λ v. parent ++ b'.' ∷ reflect.enum_value_name v)
        reflect.enum_value_name parent child (reflect.values d)
        (All-always
          (λ v.
            parent ++ b'.' ∷ reflect.enum_value_name v ≡ parent ++ b'.' ∷ reflect.enum_value_name v)
          (λ v. refl) (reflect.values d))
        (λ v e. (d, rw (h d refl) e))

  IsGood-find_child :
      (name : Text) (o : Option (Text × Text))
      → ((parent child : Text) → o ≡ some (parent, child) → name ≡ parent ++ b'.' ∷ child)
      → IsGood name (find_child reflect pool o)
  unfolding find_child
  IsGood-find_child name none h = tt
  IsGood-find_child name (some (parent, child)) h = rw (h parent child refl) (
      IsGood-or_try (parent ++ b'.' ∷ child)
        (find_method reflect pool (reflect.get_service_by_name pool parent) child)
        (or_try reflect pool
          (find_member reflect pool (reflect.get_message_by_name pool parent) child)
          (find_value reflect pool (reflect.get_enum_by_name pool parent) child))
        (IsGood-method (reflect.get_service_by_name pool parent) parent child
          (names.service_named parent))
        (IsGood-or_try (parent ++ b'.' ∷ child)
          (find_member reflect pool (reflect.get_message_by_name pool parent) child)
          (find_value reflect pool (reflect.get_enum_by_name pool parent) child)
          (IsGood-member (reflect.get_message_by_name pool parent) parent child
            (names.message_named parent))
          (IsGood-value (reflect.get_enum_by_name pool parent) parent child
            (names.enum_named parent))))

  IsGood-top_level : (name : Text) → IsGood name (find_top_level reflect pool name)
  unfolding find_top_level full_name
  IsGood-top_level name =
      IsGood-or_try name (found reflect pool service (reflect.get_service_by_name pool name))
        (or_try reflect pool (found reflect pool message (reflect.get_message_by_name pool name)) (
          or_try reflect pool (found reflect pool enumeration (reflect.get_enum_by_name pool name))
            (found reflect pool extension (reflect.get_extension_by_name pool name))))
        (IsGood-found service name (reflect.get_service_by_name pool name)
          (names.service_named name))
        (IsGood-or_try name (found reflect pool message (reflect.get_message_by_name pool name))
          (or_try reflect pool (found reflect pool enumeration (reflect.get_enum_by_name pool name))
            (found reflect pool extension (reflect.get_extension_by_name pool name)))
          (IsGood-found message name (reflect.get_message_by_name pool name)
            (names.message_named name))
          (IsGood-or_try name (found reflect pool enumeration (reflect.get_enum_by_name pool name))
            (found reflect pool extension (reflect.get_extension_by_name pool name))
            (IsGood-found enumeration name (reflect.get_enum_by_name pool name)
              (names.enum_named name))
            (IsGood-found extension name (reflect.get_extension_by_name pool name)
              (names.extension_named name))))

  IsGood-file :
      (name : Text)
      → IsGood name (
          found reflect pool file
            (find (λ f. text_eq (reflect.file_name f) name) (reflect.files pool)))
  unfolding full_name
  IsGood-file name =
      IsGood-found file name (find (λ f. text_eq (reflect.file_name f) name) (reflect.files pool))
        (λ f e.
          let (_, same) =
            find_sound (λ g. Unit) (λ g. text_eq (reflect.file_name g) name) (reflect.files pool) f
              (All-always (λ g. Unit) (λ g. tt) (reflect.files pool)) e in
          text_eq_sound (reflect.file_name f) name same)

  IsNamed-of_good :
      (name : Text) (o : Option (SymbolDescriptor reflect)) (s : SymbolDescriptor reflect)
      → IsGood name o
      → or_not_found reflect pool name o ≡ done s
      → IsNamed name s
  IsNamed-of_good name none s h e = cc
  IsNamed-of_good name (some t) s h e = let same : t ≡ s = ground (arith, e) in rw (← same) h

  -- Where the names are as `HasNames` says, a symbol that is found under a name is named so: by
  -- its full name or, a value of an enum, by an enum's full name with its own behind a dot.
  pub find_symbol_in_pool-IsNamed :
      (name : Text) (s : SymbolDescriptor reflect)
      → find_symbol_in_pool reflect pool name ≡ done s
      → IsNamed name s
  unfolding find_symbol_in_pool
  find_symbol_in_pool-IsNamed name s e =
      let by_file =
        found reflect pool file
          (find (λ f. text_eq (reflect.file_name f) name) (reflect.files pool)) in
      let by_child = find_child reflect pool (rsplit_once b'.' name) in
      IsNamed-of_good name
        (or_try reflect pool (find_top_level reflect pool name)
          (or_try reflect pool by_child by_file))
        s
        (IsGood-or_try name (find_top_level reflect pool name)
          (or_try reflect pool by_child by_file) (IsGood-top_level name)
          (IsGood-or_try name by_child by_file
            (IsGood-find_child name (rsplit_once b'.' name)
              (λ parent child found_at. rsplit_once_sound b'.' name parent child found_at))
            (IsGood-file name)))
        e
