-- ===== src/Descriptor/Composite.antt =====
-- grpcurl-core/src/descriptor.rs: `FileSource` and `CompositeSource`.
use grpcurl_rs.Base.{
  ℕ, text_eq, List, [], ◌∷◌, ◌++◌, map, any, keep, is_empty, ap, if◌then◌else◌, append-nil, Bool,
  not, some, none, ◌==◌, ◌≡◌, refl, arith, ◌∙◌, Bool-cases, ==_iff, inl, inr,
}
use grpcurl_rs.Error.{Result, done, fail}
use grpcurl_rs.Descriptor.{Reflect, DescriptorSource, SymbolDescriptor, Asked}
use grpcurl_rs.Descriptor.Lookup.{find_symbol_in_pool}

module _ (reflect : Reflect) where
  -- `FileSource`, over its pool.
  unfoldable pub file_source : {State : Type 0} → reflect.Pool → DescriptorSource reflect State
  file_source pool = record {
    list_services =
        λ state. some (done (map reflect.service_full_name (reflect.services pool)), state);
    find_symbol = λ name state. some (find_symbol_in_pool reflect pool name, state);
    all_extensions_for_type = λ type_name state. some (
      done (
          keep
            (λ ext. text_eq (reflect.message_full_name (reflect.containing_message ext)) type_name)
            (reflect.all_extensions pool)),
      state,
    );
    get_all_files = done (reflect.file_descriptor_protos pool);
    descriptor_pool = some pool;
  }

  -- `tags.contains`
  abbrev pub has_tag : List reflect.Extension → ℕ → Bool
  has_tag exts n = any (λ ext. reflect.number ext == n) exts

  -- The extensions of reflection, and those of the files whose number is not among its.
  unfoldable pub merge_extensions :
      List reflect.Extension → Result (List reflect.Extension) → List reflect.Extension
  merge_extensions ref_exts (done file_exts) =
      ref_exts ++ keep (λ ext. not (has_tag ref_exts (reflect.number ext))) file_exts
  merge_extensions ref_exts (fail _) = ref_exts

  abbrev pub or_ask : {State A : Type 0} → Asked State A → (State → Asked State A) → Asked State A
  or_ask none other = none
  or_ask (some (done a, state)) other = some (done a, state)
  or_ask (some (fail _, state)) other = other state

  -- What the files add to the extensions of reflection.
  abbrev merged :
      {State : Type 0}
      → List reflect.Extension
      → Asked State (List reflect.Extension)
      → Asked State (List reflect.Extension)
  merged ref_exts none = none
  merged ref_exts (some (answer, state)) = some (done (merge_extensions ref_exts answer), state)

  abbrev merge_or_ask :
      {State : Type 0}
      → Asked State (List reflect.Extension)
      → (State → Asked State (List reflect.Extension))
      → Asked State (List reflect.Extension)
  merge_or_ask none files = none
  merge_or_ask (some (done ref_exts, state)) files = merged ref_exts (files state)
  merge_or_ask (some (fail _, state)) files = files state

  -- `CompositeSource`. It does not override the last two methods of the trait.
  unfoldable pub composite_source :
      {State : Type 0}
      → DescriptorSource reflect State
      → DescriptorSource reflect State
      → DescriptorSource reflect State
  composite_source reflection files = record {
    list_services = reflection.list_services;
    find_symbol = λ name state. or_ask (reflection.find_symbol name state) (files.find_symbol name);
    all_extensions_for_type = λ type_name state.
        merge_or_ask (reflection.all_extensions_for_type type_name state)
          (files.all_extensions_for_type type_name);
    get_all_files = grpcurl_rs.Descriptor.default_get_all_files reflect;
    descriptor_pool = none;
  }

  abbrev pub with_tag : ℕ → reflect.Extension → Bool
  with_tag n ext = reflect.number ext == n

  abbrev pub else_list : {A : Type 0} → List A → List A → List A
  else_list [] other = other
  else_list (x ∷ xs) other = x ∷ xs

  keep_append :
      (p : reflect.Extension → Bool) (xs ys : List reflect.Extension)
      → keep p (xs ++ ys) ≡ keep p xs ++ keep p ys
  keep_append p [] ys = refl
  keep_append p (x ∷ xs) ys = ground (arith, keep_append p xs ys)

  -- The tags of a list hold a number exactly where some extension has it.
  tagged :
      (n : ℕ) (refs : List reflect.Extension)
      → has_tag refs n ≡ not (is_empty (keep (with_tag n) refs))
  tagged n [] = refl
  tagged n (r ∷ refs) = elim (Bool-cases (reflect.number r == n)) [
    | inl h ↦ ground (arith, h)
    | inr h ↦ ground (arith, h, tagged n refs)
  ]

  -- Of the files' extensions with a number, all are kept or none.
  keep_untagged :
      (n : ℕ) (refs exts : List reflect.Extension)
      → keep (with_tag n) (keep (λ ext. not (has_tag refs (reflect.number ext))) exts)
        ≡ (if has_tag refs n then [] else keep (with_tag n) exts)
  keep_untagged n refs [] = ground arith
  keep_untagged n refs (x ∷ exts) = elim (Bool-cases (reflect.number x == n)) [
    | inl h ↦
        let same : reflect.number x ≡ n = (==_iff (reflect.number x) n).0 h in
        let tag : has_tag refs (reflect.number x) ≡ has_tag refs n = rw same refl in
        elim (Bool-cases (has_tag refs n)) [
          | inl k ↦ ground (arith, h, k, tag, keep_untagged n refs exts)
          | inr k ↦ ground (arith, h, k, tag, keep_untagged n refs exts)
        ]
    | inr h ↦ elim (Bool-cases (has_tag refs (reflect.number x))) [
      | inl k ↦ ground (arith, h, k, keep_untagged n refs exts)
      | inr k ↦ ground (arith, h, k, keep_untagged n refs exts)
    ]
  ]

  kept_or_else :
      (own others : List reflect.Extension)
      → own ++ (if not (is_empty own) then [] else others) ≡ else_list own others
  kept_or_else [] others = refl
  kept_or_else (x ∷ xs) others = ground (arith, append-nil xs)

  -- For each number, the extensions of the merged list with it are, in order, all those of
  -- reflection and none of the files' where reflection has one, and all those of the files otherwise.
  pub keep-merge_extensions :
      (n : ℕ) (ref_exts file_exts : List reflect.Extension)
      → keep (with_tag n) (merge_extensions ref_exts (done file_exts))
        ≡ else_list (keep (with_tag n) ref_exts) (keep (with_tag n) file_exts)
  unfolding merge_extensions
  keep-merge_extensions n ref_exts file_exts =
      let own = keep (with_tag n) ref_exts in
      let others = keep (with_tag n) file_exts in
      keep_append (with_tag n) ref_exts
        (keep (λ ext. not (has_tag ref_exts (reflect.number ext))) file_exts)
      ∙ ap (λ l. own ++ l) (keep_untagged n ref_exts file_exts)
      ∙ ap (λ t. own ++ (if t then [] else others)) (tagged n ref_exts)
      ∙ kept_or_else own others
