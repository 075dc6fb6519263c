-- ===== src/DescriptorText/Groups.antt =====
-- grpcurl-core/src/descriptor_text.rs: what the groups of the extensions hold.
use grpcurl_rs.Base.{
  Text, text_eq, text_le, List, [], ◌∷◌, ◌++◌, Bool, true, false, if◌then◌else◌, ◌≡◌, refl, ◌∙◌,
  sym, ap, append_assoc, append-nil, is_empty, keep, text_le_order, text_le_antisym, text_eq_iff,
  All, arith, inl, inr, Bool-cases,
}
use grpcurl_rs.Descriptor.{Reflect}
use grpcurl_rs.DescriptorText.{Syntax}
use grpcurl_rs.DescriptorText.Extend.{add_to_group, extendee_of, add_extensions, group_by_extendee}

-- What stands under a key.
abbrev pub under {ℓ} : {A : Type ℓ} → Text → List (Text × List A) → List A
under k [] = []
under k ((j, xs) ∷ groups) = if text_eq j k then xs else under k groups

-- The keys rise strictly, and no group is empty.
abbrev pub IsGrouped {ℓ} : {A : Type ℓ} → List (Text × List A) → Type 0
IsGrouped [] = Unit
IsGrouped ((k, xs) ∷ groups) =
    (is_empty xs ≡ false) × All (λ g. text_le g.0 k ≡ false) groups × IsGrouped groups

above_lower {ℓ} :
    {A : Type ℓ} (j k : Text) (groups : List (Text × List A))
    → text_le j k ≡ true
    → All (λ g. text_le g.0 k ≡ false) groups
    → All (λ g. text_le g.0 j ≡ false) groups
above_lower j k [] h all = tt
above_lower j k ((l, xs) ∷ groups) h (less, all) =
    (ground (arith, h, less, text_le_order.trans l j k), above_lower j k groups h all)

not_equal : (s t : Text) → text_le s t ≡ false → text_eq s t ≡ false
not_equal s t h = elim (Bool-cases (text_eq s t)) [
  | inl e ↦ let same = (text_eq_iff s t).0 e in ground (arith, h, same, text_le_order.total t t)
  | inr e ↦ e
]

strictly_above : (s t : Text) → text_eq s t ≡ false → text_le s t ≡ true → text_le t s ≡ false
strictly_above s t e h = elim (Bool-cases (text_le t s)) [
  | inl f ↦ let same = text_le_antisym s t h f in ground (arith, e, (text_eq_iff s t).1 same)
  | inr f ↦ f
]

under-above {ℓ} :
    {A : Type ℓ} (k : Text) (groups : List (Text × List A))
    → All (λ g. text_le g.0 k ≡ false) groups
    → under k groups ≡ []
under-above k [] all = refl
under-above k ((l, xs) ∷ groups) (less, all) = rw (not_equal l k less, under-above k groups all)

keys-add_to_group {ℓ} :
    {A : Type ℓ} (j k : Text) (x : A) (groups : List (Text × List A))
    → text_le k j ≡ false
    → All (λ g. text_le g.0 j ≡ false) groups
    → All (λ g. text_le g.0 j ≡ false) (add_to_group k x groups)
unfolding add_to_group
keys-add_to_group j k x [] h all = (h, tt)
keys-add_to_group j k x ((l, xs) ∷ groups) h (less, all) = elim (Bool-cases (text_eq k l)) [
  | inl e ↦ rw e (less, all)
  | inr e ↦ elim (Bool-cases (text_le k l)) [
    | inl f ↦ rw (e, f) (h, (less, all))
    | inr f ↦ rw (e, f) (less, keys-add_to_group j k x groups h all)
  ]
]

is_empty-push {ℓ} : {A : Type ℓ} (xs : List A) (x : A) → is_empty (xs ++ x ∷ []) ≡ false
is_empty-push [] x = refl
is_empty-push (y ∷ xs) x = refl

add_to_group-IsGrouped {ℓ} :
    {A : Type ℓ} (k : Text) (x : A) (groups : List (Text × List A))
    → IsGrouped groups
    → IsGrouped (add_to_group k x groups)
unfolding add_to_group
add_to_group-IsGrouped k x [] g = (refl, tt, tt)
add_to_group-IsGrouped k x ((l, xs) ∷ groups) (some_there, above, rest) =
    elim (Bool-cases (text_eq k l)) [
      | inl e ↦ rw e (is_empty-push xs x, above, rest)
      | inr e ↦ elim (Bool-cases (text_le k l)) [
        | inl f ↦
            let lower = strictly_above k l e f in
            rw (e, f) (refl, (lower, above_lower k l groups f above), (some_there, above, rest))
        | inr f ↦
            rw (e, f)
              (
                some_there,
                keys-add_to_group l k x groups f above,
                add_to_group-IsGrouped k x groups rest,
              )
      ]
    ]

-- A member under its key, behind those that are there.
abbrev one_if {ℓ} : {A : Type ℓ} → Bool → A → List A
one_if b x = if b then x ∷ [] else []

one_if_front {ℓ} :
    {A : Type ℓ} (b : Bool) (x : A) (xs : List A) → one_if b x ++ xs ≡ (if b then x ∷ xs else xs)
one_if_front true x xs = refl
one_if_front false x xs = refl

push_there {ℓ} :
    {A : Type ℓ} (j l : Text) (x : A) (xs : List A) (groups : List (Text × List A))
    → under j ((l, xs ++ x ∷ []) ∷ groups) ≡ under j ((l, xs) ∷ groups) ++ one_if (text_eq l j) x
push_there j l x xs groups = elim (Bool-cases (text_eq l j)) [
  | inl e ↦ rw e refl
  | inr e ↦ rw e (sym (append-nil (under j groups)))
]

new_group {ℓ} :
    {A : Type ℓ} (j k : Text) (x : A) (groups : List (Text × List A))
    → All (λ g. text_le g.0 k ≡ false) groups
    → under j ((k, x ∷ []) ∷ groups) ≡ under j groups ++ one_if (text_eq k j) x
new_group j k x groups above = elim (Bool-cases (text_eq k j)) [
  | inl e ↦ rw (e, ← (text_eq_iff k j).0 e, under-above k groups above) refl
  | inr e ↦ rw e (sym (append-nil (under j groups)))
]

later_group {ℓ} :
    {A : Type ℓ} (j k l : Text) (x : A) (xs : List A) (groups more : List (Text × List A))
    → text_eq k l ≡ false
    → under j more ≡ under j groups ++ one_if (text_eq k j) x
    → under j ((l, xs) ∷ more) ≡ under j ((l, xs) ∷ groups) ++ one_if (text_eq k j) x
later_group j k l x xs groups more e same = elim (Bool-cases (text_eq l j)) [
  | inl f ↦ rw (f, ← (text_eq_iff l j).0 f, e) (sym (append-nil xs))
  | inr f ↦ rw (f, same) refl
]

under-add_to_group {ℓ} :
    {A : Type ℓ} (j k : Text) (x : A) (groups : List (Text × List A))
    → IsGrouped groups
    → under j (add_to_group k x groups) ≡ under j groups ++ one_if (text_eq k j) x
unfolding add_to_group
under-add_to_group j k x [] g = refl
under-add_to_group j k x ((l, xs) ∷ groups) (some_there, above, rest) =
    elim (Bool-cases (text_eq k l)) [
      | inl e ↦ rw e (rw ((text_eq_iff k l).0 e) (push_there j l x xs groups))
      | inr e ↦ elim (Bool-cases (text_le k l)) [
        | inl f ↦
            rw (e, f)
              (new_group j k x ((l, xs) ∷ groups)
                (strictly_above k l e f, above_lower k l groups f above))
        | inr f ↦
            rw (e, f)
              (later_group j k l x xs groups (add_to_group k x groups) e
                (under-add_to_group j k x groups rest))
      ]
    ]

module _ {reflect : Reflect} (syntax : Syntax reflect) (pkg : Text) where
  add_extensions_lem :
      (exts : List reflect.Extension) (groups : List (Text × List reflect.Extension))
      → IsGrouped groups
      → IsGrouped (add_extensions syntax pkg exts groups)
        × ((k : Text)
            → under k (add_extensions syntax pkg exts groups)
              ≡ under k groups ++ keep (λ ext. text_eq (extendee_of syntax pkg ext) k) exts)
  unfolding add_extensions
  add_extensions_lem [] groups g = (g, λ k. sym (append-nil (under k groups)))
  add_extensions_lem (ext ∷ exts) groups g =
      let key = extendee_of syntax pkg ext in
      let (grouped, holds) =
        add_extensions_lem exts (add_to_group key ext groups)
          (add_to_group-IsGrouped key ext groups g) in
      (
        grouped,
        λ k.
            holds k
            ∙ ap (λ us. us ++ keep (λ e. text_eq (extendee_of syntax pkg e) k) exts)
                (under-add_to_group k key ext groups g)
            ∙ append_assoc (under k groups) (one_if (text_eq key k) ext)
                (keep (λ e. text_eq (extendee_of syntax pkg e) k) exts)
            ∙ ap (λ us. under k groups ++ us)
                (one_if_front (text_eq key k) ext
                  (keep (λ e. text_eq (extendee_of syntax pkg e) k) exts)),
      )

  -- The extensions of a file stand in groups whose names rise strictly and none of which is
  -- empty, and the group of a name holds the file's extensions of the message of that name, each
  -- once and in the file's order; a name that has no group is extended by none.
  pub group_by_extendee-IsGrouped :
      (exts : List reflect.Extension)
      → IsGrouped (group_by_extendee syntax pkg exts)
        × ((k : Text)
            → under k (group_by_extendee syntax pkg exts)
              ≡ keep (λ ext. text_eq (extendee_of syntax pkg ext) k) exts)
  unfolding group_by_extendee
  group_by_extendee-IsGrouped exts = add_extensions_lem exts [] tt
