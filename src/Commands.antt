-- ===== src/Commands.antt =====
-- grpcurl-core/src/commands/list.rs and describe.rs: the two commands over a descriptor source, by
-- the texts that they print, each with a line's end, and how they end.
pub mod Ends
use grpcurl_rs.Base.{ℕ, Text, text, List, [], ◌∷◌, ◌++◌, Bool, true, Option, none, some}
use grpcurl_rs.Error.{Result, done, fail}
use grpcurl_rs.Descriptor.{Reflect, DescriptorSource, SymbolDescriptor, message, type_label, Asked}
use grpcurl_rs.Descriptor.Export.{with_state}
use grpcurl_rs.Descriptor.Listing.{list_services, list_methods}
use grpcurl_rs.DescriptorText.{Syntax}
use grpcurl_rs.DescriptorText.Describe.{get_descriptor_text}
use grpcurl_rs.Format.Output.{Formatter}
use grpcurl_rs.Format.Template.{Dynamics, make_template}

-- What is printed, and the result.
abbrev pub Printed : Type 0
Printed = List Text × Result (Unit {0})

abbrev print_lines : Result (List Text) → Printed
print_lines (done lines) = (lines, done tt)
print_lines (fail e) = ([], fail e)

abbrev pub print_before : List Text → Printed → Printed
print_before lines (more, end) = (lines ++ more, end)

abbrev pub print_answer : {State : Type 0} → Asked State (List Text) → Option (Printed × State)
print_answer none = none
print_answer (some (answer, state)) = some (print_lines answer, state)

unfoldable pub run_list :
    (reflect : Reflect) {State : Type 0}
    → DescriptorSource reflect State
    → Option Text
    → State
    → Option (Printed × State)
run_list reflect source (some service) state =
    print_answer (list_methods reflect source service state)
run_list reflect source none state = print_answer (list_services reflect source state)

module _ {reflect : Reflect} {State : Type 0} (syntax : Syntax reflect)
    (dynamics : Dynamics reflect) (json : Formatter dynamics.Dynamic)
    (source : DescriptorSource reflect State) where
  abbrev pub described : Text → SymbolDescriptor reflect → List Text
  described name desc =
      (name ++ (text " is " ++ (type_label reflect desc ++ text ":")))
      ∷ get_descriptor_text syntax desc
      ∷ []

  abbrev print_template : Result Text → Printed
  print_template (done output) = (text "\nMessage template:" ∷ output ∷ [], done tt)
  print_template (fail e) = ([], fail e)

  -- `print_msg_template`, where `json` is the formatter that shows defaults
  unfoldable pub print_msg_template : ℕ → reflect.Message → Option Printed
  print_msg_template fuel desc = elim (make_template syntax dynamics fuel desc) [
    | none ↦ none
    | some template ↦ some (print_template (json 0 template).0)
  ]

  abbrev pub template_of : Bool → ℕ → SymbolDescriptor reflect → Option Printed
  template_of true fuel (message desc) = print_msg_template fuel desc
  template_of _ fuel _ = some ([], done tt)

  abbrev pub print_after : List Text → Option Printed → Option Printed
  print_after lines none = none
  print_after lines (some printed) = some (print_before lines printed)

  abbrev pub describe_one :
      ℕ → Bool → Text → Asked State (SymbolDescriptor reflect) → Option (Printed × State)
  describe_one fuel msg_template sym none = none
  describe_one fuel msg_template sym (some (fail e, state)) = some (([], fail e), state)
  describe_one fuel msg_template sym (some (done desc, state)) =
      with_state reflect state
        (print_after (described sym desc) (template_of msg_template fuel desc))

  abbrev pub print_also : List Text → Option (Printed × State) → Option (Printed × State)
  print_also lines none = none
  print_also lines (some (printed, state)) = some (print_before lines printed, state)

  abbrev pub describe_then :
      Text
      → Asked State (SymbolDescriptor reflect)
      → (State → Option (Printed × State))
      → Option (Printed × State)
  describe_then service none rest = none
  describe_then service (some (fail e, state)) rest = some (([], fail e), state)
  describe_then service (some (done desc, state)) rest =
      print_also (described service desc) (rest state)

  -- The loop over the services, which ends at the first that is not found.
  unfoldable pub describe_services : List Text → State → Option (Printed × State)
  describe_services [] state = some (([], done tt), state)
  describe_services (service ∷ more) state =
      describe_then service (source.find_symbol service state) (describe_services more)

  abbrev pub describe_all : Asked State (List Text) → Option (Printed × State)
  describe_all none = none
  describe_all (some (fail e, state)) = some (([], fail e), state)
  describe_all (some (done services, state)) = describe_services services state

  unfoldable pub run_describe : ℕ → Option Text → Bool → State → Option (Printed × State)
  run_describe fuel (some sym) msg_template state =
      describe_one fuel msg_template sym (source.find_symbol sym state)
  run_describe fuel none msg_template state = describe_all (source.list_services state)
