-- ===== src/Invoke/Method.antt =====
-- grpcurl-core/src/commands/invoke.rs: `resolve_method`.
use grpcurl_rs.Base.{
  Text, text, text_eq, rsplit_once, rsplit_once_found, rsplit_once-none, Lacks, ◌∷◌, ◌++◌, find,
  Option, some, none, ◌≡◌,
}
use grpcurl_rs.Error.{Result, done, fail, invalid_argument, BoxError, of_grpcurl, of_message}
use grpcurl_rs.Descriptor.{Reflect, DescriptorSource, SymbolDescriptor, as_service, Asked}

-- A value, or the error that is boxed.
pub data Ended (A : Type 0) : Type 0 where
  returned : A → Ended A
  raised : BoxError → Ended A

module _ (reflect : Reflect) where
  -- `rfind('/')`, and `rfind('.')` where there is no slash
  unfoldable pub split_method : Text → Option (Text × Text)
  split_method symbol = elim (rsplit_once b'/' symbol) [
    | some parts ↦ some parts
    | none ↦ rsplit_once b'.' symbol
  ]

  unfoldable pub method_of : Text → Text → Option reflect.Service → Ended reflect.Method
  method_of service_name method_name none =
      raised
        (of_grpcurl (invalid_argument (text "\"" ++ (service_name ++ text "\" is not a service"))))
  method_of service_name method_name (some svc) =
      elim (find (λ m. text_eq (reflect.method_name m) method_name) (reflect.methods svc)) [
        | some m ↦ returned m
        | none ↦ raised (
            of_message (
              text "service \""
              ++ (service_name
                  ++ (text "\" does not include a method named \"" ++ (method_name ++ text "\"")))))
      ]

  abbrev method_in : Text → Text → Result (SymbolDescriptor reflect) → Ended reflect.Method
  method_in service_name method_name (done desc) =
      method_of service_name method_name (as_service reflect desc)
  method_in service_name method_name (fail e) = raised (of_grpcurl e)

  abbrev pub method_asked :
      {State : Type 0}
      → Text
      → Text
      → Asked State (SymbolDescriptor reflect)
      → Option (Ended reflect.Method × State)
  method_asked service_name method_name none = none
  method_asked service_name method_name (some (answer, state)) =
      some (method_in service_name method_name answer, state)

  unfoldable pub resolve_method :
      {State : Type 0}
      → DescriptorSource reflect State
      → Text
      → State
      → Option (Ended reflect.Method × State)
  unfolding split_method
  resolve_method source symbol state = elim (split_method symbol) [
    | some (service_name, method_name) ↦
        method_asked service_name method_name (source.find_symbol service_name state)
    | none ↦ some (
      raised (
          of_grpcurl (
            invalid_argument (
              text "method name must be in the form 'Service/Method' or 'Service.Method': "
              ++ symbol))),
      state,
    )
  ]

  split_at_slash : (s m : Text) → Lacks b'/' m → split_method (s ++ b'/' ∷ m) ≡ some (s, m)
  unfolding split_method
  split_at_slash s m h = rw (rsplit_once_found b'/' s m h, split_method)

  split_at_dot :
      (s m : Text)
      → Lacks b'/' (s ++ b'.' ∷ m)
      → Lacks b'.' m
      → split_method (s ++ b'.' ∷ m) ≡ some (s, m)
  unfolding split_method
  split_at_dot s m no_slash h =
      rw (rsplit_once-none b'/' (s ++ b'.' ∷ m) no_slash, split_method)
        (rsplit_once_found b'.' s m h)

  -- The forms with a slash and with a dot resolve to the same, errors included, where the names
  -- hold no slash and that of the method holds no dot.
  pub resolve_method_forms :
      {State : Type 0} (source : DescriptorSource reflect State) (s m : Text) (state : State)
      → Lacks b'/' m
      → Lacks b'/' (s ++ b'.' ∷ m)
      → Lacks b'.' m
      → resolve_method source (s ++ b'/' ∷ m) state ≡ resolve_method source (s ++ b'.' ∷ m) state
  unfolding resolve_method
  resolve_method_forms source s m state h no_slash no_dot =
      rw (split_at_slash s m h, split_at_dot s m no_slash no_dot, resolve_method)
