-- ===== src/Descriptor/Export.antt =====
-- grpcurl-core/src/descriptor.rs: the files of some symbols with their dependencies, for
-- `write_protoset` and `write_proto_files`.
pub mod Order
use grpcurl_rs.Base.{
  ℕ, zero, suc, Text, text, text_eq, List, [], ◌∷◌, ◌++◌, map, any, find, Bool, Option, some, none,
  if◌then◌else◌, is_empty, ◌≡◌,
}
use grpcurl_rs.Error.{Result, done, fail, io, ◌>>=◌}
use grpcurl_rs.Descriptor.{Reflect, DescriptorSource, parent_file, Asked, ask_then}

-- `all_files` and `expanded`
pub record Collected (File : Type 0) : Type 0 where
  pub all_files : List File
  pub expanded : List Text

-- `HashSet::contains`
abbrev pub contains : Text → List Text → Bool
contains name names = any (text_eq name) names

module _ (reflect : Reflect) where
  abbrev pub mark : reflect.File → Collected reflect.File → Collected reflect.File
  mark fd s = record s { expanded = reflect.file_name fd ∷ s.expanded }

  abbrev pub push : reflect.File → Collected reflect.File → Collected reflect.File
  push fd s = record s { all_files = s.all_files ++ fd ∷ [] }

  abbrev pub push_after :
      reflect.File → Option (Collected reflect.File) → Option (Collected reflect.File)
  push_after fd (some s) = some (push fd s)
  push_after fd none = none

  -- A loop over files, for the body `visit`.
  abbrev pub each :
      (reflect.File → Collected reflect.File → Option (Collected reflect.File))
      → List reflect.File
      → Collected reflect.File
      → Option (Collected reflect.File)
  each visit [] s = some s
  each visit (fd ∷ rest) s = elim (visit fd s) [ some t ↦ each visit rest t | none ↦ none ]

  -- `collect_transitive_deps`, with fuel for the depth of the recursion. The variant for file
  -- descriptors collects the same files.
  unfoldable pub collect_transitive_deps :
      ℕ → reflect.File → Collected reflect.File → Option (Collected reflect.File)
  collect_transitive_deps zero fd s = none
  collect_transitive_deps (suc fuel) fd s =
      let inner = each (collect_transitive_deps fuel) (reflect.dependencies fd) (mark fd s) in
      if contains (reflect.file_name fd) s.expanded then some s else push_after fd inner

  -- The files of the symbols, the first of each name, in the order of the symbols.
  unfoldable pub symbol_files :
      {State : Type 0}
      → DescriptorSource reflect State
      → List Text
      → List reflect.File
      → State
      → Asked State (List reflect.File)
  symbol_files source [] files state = some (done files, state)
  symbol_files source (sym ∷ rest) files state =
      ask_then (source.find_symbol sym state) (λ desc after.
        let fd = parent_file reflect desc in
        symbol_files source rest
          (if contains (reflect.file_name fd) (map reflect.file_name files)
            then files
            else files ++ fd ∷ [])
          after)

  unfoldable pub expand_files : ℕ → List reflect.File → Option (List reflect.File)
  expand_files fuel roots =
      elim (each (collect_transitive_deps fuel) roots (record { all_files = []; expanded = [] })) [
        | some s ↦ some s.all_files
        | none ↦ none
      ]

  -- The writing of the files. The system writes the encoded set, or says why it cannot.
  abbrev pub write_set :
      (List reflect.FileProto → Option Text)
      → Text
      → Option (List reflect.File)
      → Option (Result (Unit {0}))
  write_set save path none = none
  write_set save path (some files) = elim (save (map reflect.file_descriptor_proto files)) [
    | none ↦ some (done tt)
    | some e ↦
        some (fail (io (text "failed to write protoset file '" ++ (path ++ (text "': " ++ e)))))
  ]

  abbrev pub with_state : {State A : Type 0} → State → Option A → Option (A × State)
  with_state state none = none
  with_state state (some a) = some (a, state)

  unfoldable pub write_protoset :
      {State : Type 0}
      → (List reflect.FileProto → Option Text)
      → ℕ
      → Text
      → DescriptorSource reflect State
      → List Text
      → State
      → Asked State (Unit {0})
  write_protoset save fuel path source symbols state =
      if is_empty symbols
      then some (done tt, state)
      else ask_then (symbol_files source symbols [] state)
          (λ roots after. with_state after (write_set save path (expand_files fuel roots)))
