-- ===== src/Descriptor/Export/Order.antt =====
-- The files that an export collects: each once, behind its dependencies.
use grpcurl_rs.Base.{
  ℕ, zero, suc, ◌+◌, ◌<◌, ◌≤◌, Text, text_eq, text_eq_iff, text_eq_refl, List, [], ◌∷◌, ◌++◌, map,
  Bool, true, false, ◌||◌, Option, some, none, All, ◌≡◌, ◌≢◌, refl, sym, ap, ◌∙◌, inl, inr,
  Bool-cases, ltb, ◌⊎◌, arith,
}
use grpcurl_rs.Descriptor.{Reflect}
use grpcurl_rs.Descriptor.Export.{
  Collected, contains, mark, push, each, collect_transitive_deps, expand_files,
}

-- The list holds a file of this name.
abbrev pub holds : (reflect : Reflect) → List reflect.File → Text → Bool
holds reflect files name = contains name (map reflect.file_name files)

-- Each file of the list stands behind all its dependencies, and no name comes twice.
pub data IsOrdered (reflect : Reflect) : List reflect.File → Type 0 where
  nothing : IsOrdered reflect []
  behind :
      (files : List reflect.File) (fd : reflect.File)
      → IsOrdered reflect files
      → All (λ dep. holds reflect files (reflect.file_name dep) ≡ true) (reflect.dependencies fd)
      → holds reflect files (reflect.file_name fd) ≡ false
      → IsOrdered reflect (files ++ fd ∷ [])

module _ (reflect : Reflect) (rank : Text → ℕ) where
  abbrev rank_of : reflect.File → ℕ
  rank_of fd = rank (reflect.file_name fd)

  -- Below a rank, the names that are expanded are those of the files collected.
  abbrev Settled : ℕ → Collected reflect.File → Type 0
  Settled r s = (n : Text) → rank n < r → contains n s.expanded ≡ holds reflect s.all_files n

  -- What a visit does that may touch the names below a rank.
  record Visited (r : ℕ) (s t : Collected reflect.File) : Type 0 where
    ordered : IsOrdered reflect t.all_files
    settled : Settled r t
    grows : (n : Text) → holds reflect s.all_files n ≡ true → holds reflect t.all_files n ≡ true
    others :
        (n : Text)
        → r ≤ rank n
        → (contains n t.expanded ≡ contains n s.expanded)
          × (holds reflect t.all_files n ≡ holds reflect s.all_files n)

  holds_push :
      (files : List reflect.File) (fd : reflect.File) (n : Text)
      → holds reflect (files ++ fd ∷ []) n
        ≡ (holds reflect files n || text_eq n (reflect.file_name fd))
  holds_push [] fd n = ground arith
  holds_push (f ∷ files) fd n = ground (arith, holds_push files fd n)

  -- Names of different ranks differ.
  apart : (m n : Text) → rank m ≢ rank n → text_eq m n ≡ false
  apart m n h = elim (Bool-cases (text_eq m n)) [
    | inl e ↦ absurd (h (ap rank ((text_eq_iff m n).0 e)))
    | inr e ↦ e
  ]

  mark-Settled :
      (fd : reflect.File) (s : Collected reflect.File)
      → Settled (rank_of fd + 1) s
      → Settled (rank_of fd) (mark reflect fd s)
  mark-Settled fd s h n less =
      rw (apart n (reflect.file_name fd) (λ e. omega arith)) (h n (omega arith))

  below_or_above : (m n : ℕ) → (m < n) ⊎ (n ≤ m)
  below_or_above m n = elim (Bool-cases (ltb m n)) [
    | inl e ↦ inl (ground (arith, e))
    | inr e ↦ inr (ground (arith, e))
  ]

  push-Settled :
      (fd : reflect.File) (s t : Collected reflect.File)
      → Settled (rank_of fd + 1) s
      → Visited (rank_of fd) (mark reflect fd s) t
      → Settled (rank_of fd + 1) (push reflect fd t)
  push-Settled fd s t h v n less =
      rw (holds_push t.all_files fd n) (elim (Bool-cases (text_eq n (reflect.file_name fd))) [
        | inl e ↦
            let same = (text_eq_iff n (reflect.file_name fd)).0 e in
            rw same (
              (v.others (reflect.file_name fd) (omega arith)).0
              ∙ ground (arith, text_eq_refl (reflect.file_name fd)))
        | inr e ↦ elim (below_or_above (rank n) (rank_of fd)) [
          | inl below ↦ v.settled n below ∙ ground (arith, e)
          | inr above ↦ let kept = v.others n above in kept.0 ∙ ground (arith, e, h n less, kept.1)
        ]
      ])

  push-Visited :
      (fd : reflect.File) (s t : Collected reflect.File)
      → Settled (rank_of fd + 1) s
      → contains (reflect.file_name fd) s.expanded ≡ false
      → Visited (rank_of fd) (mark reflect fd s) t
      → All
          (λ dep. holds reflect t.all_files (reflect.file_name dep) ≡ true)
          (reflect.dependencies fd)
      → Visited (rank_of fd + 1) s (push reflect fd t)
  push-Visited fd s t h new v deps = record {
    ordered = behind t.all_files fd v.ordered deps (
        (v.others (reflect.file_name fd) (omega arith)).1
        ∙ sym (h (reflect.file_name fd) (omega arith))
        ∙ new);
    settled = λ n less. push-Settled fd s t h v n less;
    grows = λ n k. rw (holds_push t.all_files fd n) (ground (arith, v.grows n k));
    others = λ n more.
        let different = apart n (reflect.file_name fd) (λ e. omega arith) in
        let kept = v.others n (omega arith) in
        (
          kept.0 ∙ ground (arith, different),
          holds_push t.all_files fd n ∙ ground (arith, different, kept.1),
        );
  }

  widen :
      (q r : ℕ) (s t : Collected reflect.File) → q ≤ r → Settled r s → Visited q s t → Visited r s t
  widen q r s t less h v = record {
    ordered = v.ordered;
    settled = λ n below. elim (below_or_above (rank n) q) [
      | inl under ↦ v.settled n under
      | inr above ↦ (v.others n above).0 ∙ h n below ∙ sym (v.others n above).1
    ];
    grows = v.grows;
    others = λ n above. v.others n (omega arith);
  }

  Visited-trans :
      (r : ℕ) (s t u : Collected reflect.File) → Visited r s t → Visited r t u → Visited r s u
  Visited-trans r s t u v w = record {
    ordered = w.ordered;
    settled = w.settled;
    grows = λ n k. w.grows n (v.grows n k);
    others = λ n above.
        ((w.others n above).0 ∙ (v.others n above).0, (w.others n above).1 ∙ (v.others n above).1);
  }

  abbrev Visits :
      (reflect.File → Collected reflect.File → Option (Collected reflect.File))
      → reflect.File
      → Type 0
  Visits visit fd =
      (s : Collected reflect.File)
      → Settled (rank_of fd + 1) s
      → IsOrdered reflect s.all_files
      → (t : Collected reflect.File) × (visit fd s ≡ some t)
        × Visited (rank_of fd + 1) s t
        × (holds reflect t.all_files (reflect.file_name fd) ≡ true)

  each_step :
      (visit : reflect.File → Collected reflect.File → Option (Collected reflect.File))
      (fd : reflect.File) (fds : List reflect.File) (s t : Collected reflect.File)
      → visit fd s ≡ some t
      → each reflect visit (fd ∷ fds) s ≡ each reflect visit fds t
  each_step visit fd fds s t e =
      ap
        (λ (o : Option (Collected reflect.File)). elim o [
          | some u ↦ each reflect visit fds u
          | none ↦ none
        ])
        e

  each-Visited :
      (visit : reflect.File → Collected reflect.File → Option (Collected reflect.File)) (r : ℕ)
      → ((fd : reflect.File) → rank_of fd < r → Visits visit fd)
      → (fds : List reflect.File) → All (λ fd. rank_of fd < r) fds
      → (s : Collected reflect.File) → Settled r s
      → IsOrdered reflect s.all_files
      → (t : Collected reflect.File) × (each reflect visit fds s ≡ some t)
        × Visited r s t
        × All (λ fd. holds reflect t.all_files (reflect.file_name fd) ≡ true) fds
  each-Visited visit r body [] below s h o = (
    s,
    refl,
    record { ordered = o; settled = h; grows = λ n k. k; others = λ n above. (refl, refl) },
    tt,
  )
  each-Visited visit r body (fd ∷ fds) (less, below) s h o =
      let (t, ends, v, here) = body fd less s (λ n k. h n (omega arith)) o in
      let wide = widen (rank_of fd + 1) r s t (omega arith) h v in
      let (u, rest, w, there) = each-Visited visit r body fds below t wide.settled v.ordered in
      (
        u,
        each_step visit fd fds s t ends ∙ rest,
        Visited-trans r s t u wide w,
        (w.grows (reflect.file_name fd) here, there),
      )

  module _
      (acyclic : (fd : reflect.File)
        → All (λ dep. rank_of dep < rank_of fd) (reflect.dependencies fd)) where
    collect-Visits :
        (fuel : ℕ) (fd : reflect.File)
        → rank_of fd < fuel
        → Visits (collect_transitive_deps reflect fuel) fd
    unfolding collect_transitive_deps
    collect-Visits zero fd less s h o = absurd (omega arith)
    collect-Visits (suc fuel) fd less s h o =
        elim (Bool-cases (contains (reflect.file_name fd) s.expanded)) [
          | inl old ↦ (
            s,
            rw old refl,
            record { ordered = o; settled = h; grows = λ n k. k; others = λ n above. (refl, refl) },
            sym (h (reflect.file_name fd) (omega arith)) ∙ old,
          )
          | inr new ↦
              let (t, ends, v, deps) =
                each-Visited (collect_transitive_deps reflect fuel) (rank_of fd)
                  (λ dep below. collect-Visits fuel dep (omega arith)) (reflect.dependencies fd)
                  (acyclic fd) (mark reflect fd s) (mark-Settled fd s h) o in
              (
                push reflect fd t,
                rw (new, ends) refl,
                push-Visited fd s t h new v deps,
                holds_push t.all_files fd (reflect.file_name fd)
                    ∙ ground (arith, text_eq_refl (reflect.file_name fd)),
              )
        ]

    -- Where each dependency has a lower rank than the file that imports it, and with fuel above
    -- the ranks of the files asked for, the export ends, and its list holds each of them, each
    -- name once and each file behind all its dependencies.
    pub expand_files-IsOrdered :
        (fuel : ℕ) (roots : List reflect.File)
        → All (λ fd. rank_of fd < fuel) roots
        → (files : List reflect.File) × (expand_files reflect fuel roots ≡ some files)
          × IsOrdered reflect files
          × All (λ fd. holds reflect files (reflect.file_name fd) ≡ true) roots
    unfolding expand_files
    expand_files-IsOrdered fuel roots below =
        let (t, ends, v, all) =
          each-Visited (collect_transitive_deps reflect fuel) fuel (collect-Visits fuel) roots below
            (record { all_files = []; expanded = [] }) (λ n k. refl) nothing in
        (t.all_files, rw (ends, expand_files), v.ordered, all)
