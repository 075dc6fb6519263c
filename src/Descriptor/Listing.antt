-- ===== src/Descriptor/Listing.antt =====
-- grpcurl-core/src/descriptor.rs: the sorted lists of services and methods.
use grpcurl_rs.Base.{
  Text, text, text_le, text_le_order, sort, sort-perm, sort-IsSorted, IsSorted, List, ◌++◌, map,
  Permᴰ, Option, some, none, ◌≡◌, refl, arith,
}
use grpcurl_rs.Error.{Result, done, fail, other}
use grpcurl_rs.Descriptor.{Reflect, DescriptorSource, as_service, Asked, ask_then}

module _ (reflect : Reflect) {State : Type 0} (source : DescriptorSource reflect State) where
  unfoldable pub list_services : State → Asked State (List Text)
  list_services state =
      ask_then (source.list_services state)
        (λ services after. some (done (sort text_le services), after))

  abbrev methods_of : Text → Option reflect.Service → Result (List Text)
  methods_of name (some svc) =
      done (sort text_le (map reflect.method_full_name (reflect.methods svc)))
  methods_of name none = fail (other (text "Service not found: " ++ name))

  unfoldable pub list_methods : Text → State → Asked State (List Text)
  list_methods name state =
      ask_then (source.find_symbol name state)
        (λ symbol after. some (methods_of name (as_service reflect symbol), after))

  -- `get_all_files`
  unfoldable pub all_files : Result (List reflect.FileProto)
  all_files = elim source.get_all_files [
    | done files ↦ done files
    | fail _ ↦ elim source.descriptor_pool [
      | some pool ↦ done (map reflect.file_descriptor_proto (reflect.files pool))
      | none ↦ fail (other (text "cannot retrieve files: no descriptor pool available"))
    ]
  ]

  sorted_answer :
      (answer : Asked State (List Text)) (services : List Text) (after : State)
      → ask_then answer (λ own state. some (done (sort text_le own), state))
        ≡ some (done services, after)
      → (own : List Text) × (answer ≡ some (done own, after)) × (sort text_le own ≡ services)
  sorted_answer none services after e = cc
  sorted_answer (some (done own, state)) services after e =
      let same : state ≡ after = ground (arith, e) in (own, rw same refl, ground (arith, e))
  sorted_answer (some (fail x, state)) services after e = ground (arith, e)

  -- A list of services, where one is given, is the source's, in the order of strings: nothing is
  -- lost or added.
  pub list_services-IsSorted :
      (services : List Text) (before after : State)
      → list_services before ≡ some (done services, after)
      → (own : List Text) × (source.list_services before ≡ some (done own, after))
        × IsSorted text_le services
        × Permᴰ services own
  unfolding list_services
  list_services-IsSorted services before after e =
      let (own, answer, same) = sorted_answer (source.list_services before) services after e in
      rw (← same) (own, answer, sort-IsSorted text_le text_le_order own, sort-perm text_le own)
