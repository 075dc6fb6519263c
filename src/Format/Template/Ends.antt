-- ===== src/Format/Template/Ends.antt =====
-- grpcurl-core/src/format.rs: the template of a message that holds itself ends.
use grpcurl_rs.Base.{
  ℕ, zero, suc, ◌+◌, ◌<◌, ◌≤◌, Text, text_eq, text_eq_iff, text_eq_refl, List, [], ◌∷◌, true, false,
  Option, none, some, if◌then◌else◌, length, ◌≡◌, refl, ap, ◌∙◌, arith, inl, inr, Bool-cases,
  Option-cases,
}
use grpcurl_rs.Descriptor.{Reflect}
use grpcurl_rs.Descriptor.Export.{contains}
use grpcurl_rs.DescriptorText.{Kind, Syntax}
use grpcurl_rs.DescriptorText.Kind.{message_kind}
use grpcurl_rs.Format.Template.{
  Value, message_value, list_of, map_of, Dynamics, default_map_key, default_value_for_kind,
  well_known, element_of, single_value, field_value, set_value, fill_fields, make_template_inner,
  make_template,
}

-- The names that the path does not have, counted.
abbrev pub unseen : List Text → List Text → ℕ
unseen [] path = 0
unseen (n ∷ names) path = if contains n path then unseen names path else suc (unseen names path)

unseen_le : (names path : List Text) (name : Text) → unseen names (name ∷ path) ≤ unseen names path
unseen_le [] path name = omega arith
unseen_le (n ∷ names) path name = ground (arith, unseen_le names path name)

unseen_less :
    (names path : List Text) (name : Text)
    → contains name names ≡ true
    → contains name path ≡ false
    → unseen names (name ∷ path) < unseen names path
unseen_less [] path name here new = cc
unseen_less (n ∷ names) path name here new = elim (Bool-cases (text_eq name n)) [
  | inl e ↦
      let same = (text_eq_iff name n).0 e in
      rw (← same) (ground (arith, new, text_eq_refl name, unseen_le names path name))
  | inr e ↦
      let there = unseen_less names path name (ground (arith, here, e)) new in ground (arith, there)
]

unseen-nil : (names : List Text) → unseen names [] ≡ length names
unseen-nil [] = refl
unseen-nil (n ∷ names) = omega (arith, unseen-nil names)

module _ {reflect : Reflect} (syntax : Syntax reflect) (dynamics : Dynamics reflect) where
  fill_step :
      (fill : reflect.Message → Option dynamics.Dynamic) (field : reflect.Field)
      (fields : List reflect.Field) (msg : dynamics.Dynamic) (v : Option (Value dynamics.Dynamic))
      → field_value syntax dynamics fill field ≡ some v
      → fill_fields syntax dynamics fill (field ∷ fields) msg
        ≡ fill_fields syntax dynamics fill fields (set_value syntax dynamics msg field v)
  fill_step fill field fields msg v e =
      ap
        (λ (o : Option (Option (Value dynamics.Dynamic))). elim o [
          | some u ↦ fill_fields syntax dynamics fill fields (set_value syntax dynamics msg field u)
          | none ↦ none
        ])
        e

  module _ (fill : ℕ → reflect.Message → Option dynamics.Dynamic) (r : ℕ)
      (body : (m : reflect.Message)
        → (t : dynamics.Dynamic) × ((fuel : ℕ) → r < fuel + 1 → fill fuel m ≡ some t)) where
    element_of-gives :
        (kind : Kind reflect.Message reflect.Enum)
        → (v : Value dynamics.Dynamic) × ((fuel : ℕ)
            → r < fuel + 1
            → element_of syntax dynamics (fill fuel) kind ≡ some v)
    element_of-gives (message_kind m) =
        let (t, gives) = body m in (message_value t, λ fuel less. rw (gives fuel less) refl)
    element_of-gives kind = (default_value_for_kind syntax dynamics kind, λ fuel less. refl)

    single_value-gives :
        (kind : Kind reflect.Message reflect.Enum)
        → (v : Option (Value dynamics.Dynamic)) × ((fuel : ℕ)
            → r < fuel + 1
            → single_value syntax dynamics (fill fuel) kind ≡ some v)
    single_value-gives (message_kind m) =
        let (t, gives) = body m in (some (message_value t), λ fuel less. rw (gives fuel less) refl)
    single_value-gives kind = (none, λ fuel less. refl)

    field_value-gives :
        (field : reflect.Field)
        → (v : Option (Value dynamics.Dynamic)) × ((fuel : ℕ)
            → r < fuel + 1
            → field_value syntax dynamics (fill fuel) field ≡ some v)
    field_value-gives field = elim (Bool-cases (syntax.is_map field)) [
      | inl e ↦
          let (key, value) = dynamics.entry_fields field in
          let (v, gives) = element_of-gives (syntax.field_kind value) in
          (
            some (map_of (default_map_key (syntax.field_kind key)) v),
            λ fuel less. rw (e, gives fuel less) refl,
          )
      | inr e ↦ elim (Bool-cases (syntax.is_list field)) [
        | inl f ↦
            let (v, gives) = element_of-gives (syntax.field_kind field) in
            (some (list_of v), λ fuel less. rw (e, f, gives fuel less) refl)
        | inr f ↦
            let (v, gives) = single_value-gives (syntax.field_kind field) in
            (v, λ fuel less. rw (e, f, gives fuel less) refl)
      ]
    ]

    fill_fields-gives :
        (fields : List reflect.Field) (msg : dynamics.Dynamic)
        → (t : dynamics.Dynamic) × ((fuel : ℕ)
            → r < fuel + 1
            → fill_fields syntax dynamics (fill fuel) fields msg ≡ some t)
    fill_fields-gives [] msg = (msg, λ fuel less. refl)
    fill_fields-gives (field ∷ fields) msg =
        let (v, gives) = field_value-gives field in
        let (t, rest) = fill_fields-gives fields (set_value syntax dynamics msg field v) in
        (
          t,
          λ fuel less. fill_step (fill fuel) field fields msg v (gives fuel less) ∙ rest fuel less,
        )

  module _ (names : List Text)
      (all_named : (msg : reflect.Message)
        → contains (reflect.message_full_name msg) names ≡ true) where
    abbrev Ends : List Text → reflect.Message → Type 0
    Ends path msg =
        (t : dynamics.Dynamic) × ((fuel : ℕ)
          → unseen names path < fuel
          → make_template_inner syntax dynamics fuel path msg ≡ some t)

    known_ends :
        (path : List Text) (msg : reflect.Message) (t : dynamics.Dynamic)
        → well_known syntax dynamics msg ≡ some t
        → (fuel : ℕ) → unseen names path < fuel
        → make_template_inner syntax dynamics fuel path msg ≡ some t
    unfolding make_template_inner
    known_ends path msg t e zero less = absurd (omega arith)
    known_ends path msg t e (suc fuel) less = rw e refl

    inside_ends :
        (path : List Text) (msg : reflect.Message)
        → well_known syntax dynamics msg ≡ none
        → contains (reflect.message_full_name msg) path ≡ true
        → (fuel : ℕ) → unseen names path < fuel
        → make_template_inner syntax dynamics fuel path msg ≡ some (dynamics.new_message msg)
    unfolding make_template_inner
    inside_ends path msg e f zero less = absurd (omega arith)
    inside_ends path msg e f (suc fuel) less = rw (e, f) refl

    filled_ends :
        (path : List Text) (msg : reflect.Message) (t : dynamics.Dynamic)
        → well_known syntax dynamics msg ≡ none
        → contains (reflect.message_full_name msg) path ≡ false
        → ((fuel : ℕ)
            → unseen names path < fuel + 1
            → fill_fields syntax dynamics
                (make_template_inner syntax dynamics fuel (reflect.message_full_name msg ∷ path))
                (reflect.fields msg)
                (dynamics.new_message msg)
              ≡ some t)
        → (fuel : ℕ) → unseen names path < fuel
        → make_template_inner syntax dynamics fuel path msg ≡ some t
    unfolding make_template_inner
    filled_ends path msg t e f gives zero less = absurd (omega arith)
    filled_ends path msg t e f gives (suc fuel) less = rw (e, f, gives fuel (omega arith)) refl

    make_template_step :
        (bound : ℕ) (path : List Text) (msg : reflect.Message)
        → unseen names path < bound
        → Ends path msg
    make_template_step zero path msg less = absurd (omega arith)
    make_template_step (suc bound) path msg less =
        elim (Option-cases (well_known syntax dynamics msg)) [
          | inr (t, e) ↦ (t, known_ends path msg t e)
          | inl e ↦ elim (Bool-cases (contains (reflect.message_full_name msg) path)) [
            | inl f ↦ (dynamics.new_message msg, inside_ends path msg e f)
            | inr f ↦
                let name = reflect.message_full_name msg in
                let fewer = unseen_less names path name (all_named msg) f in
                let (t, gives) =
                  fill_fields-gives (λ fuel. make_template_inner syntax dynamics fuel (name ∷ path))
                    (unseen names path)
                    (λ m.
                      let (u, ends) = make_template_step bound (name ∷ path) m (omega arith) in
                      (u, λ fuel more. ends fuel (omega arith)))
                    (reflect.fields msg) (dynamics.new_message msg) in
                (t, filled_ends path msg t e f gives)
          ]
        ]

    -- Where a list has the names of all messages, however they hold one another and themselves,
    -- each message has one template, which any fuel above the length of the list gives.
    pub make_template_ends :
        (msg : reflect.Message)
        → (t : dynamics.Dynamic) × ((fuel : ℕ)
            → length names < fuel
            → make_template syntax dynamics fuel msg ≡ some t)
    unfolding make_template
    make_template_ends msg =
        let all_unseen = unseen-nil names in
        let (t, ends) = make_template_step (length names + 1) [] msg (omega arith) in
        (t, λ fuel more. ends fuel (omega arith))
