-- ===== src/Commands/Ends.antt =====
-- grpcurl-core/src/commands/list.rs and describe.rs: the two commands, as to whether
-- they end.
use grpcurl_rs.Base.{
  List, [], ◌∷◌, ℕ, Text, Bool, true, Option, none, some, is_some, ◌≡◌, refl, arith,
}
use grpcurl_rs.Commands.{
  Printed, print_answer, run_list, print_msg_template, template_of, described, print_after,
  describe_one, describe_then, describe_services, describe_all, run_describe,
}
use grpcurl_rs.Error.{done, fail}
use grpcurl_rs.Descriptor.{Reflect, DescriptorSource, SymbolDescriptor, message, Asked}
use grpcurl_rs.Descriptor.Answering.{Answers}
use grpcurl_rs.Descriptor.Export.{with_state}
use grpcurl_rs.Descriptor.Listing.{list_services, list_methods}
use grpcurl_rs.DescriptorText.{Syntax}
use grpcurl_rs.Format.Output.{Formatter}
use grpcurl_rs.Format.Template.{Dynamics, make_template}

module _ {reflect : Reflect} {State : Type 0} (source : DescriptorSource reflect State)
    (answers : Answers source) where
  print_answer-ends :
      (answer : Asked State (List Text))
      → is_some answer ≡ true
      → is_some (print_answer answer) ≡ true
  print_answer-ends none h = cc
  print_answer-ends (some (answer, state)) h = refl

  pub services-come : (state : State) → is_some (list_services reflect source state) ≡ true
  unfolding list_services
  services-come state = ground (arith, answers.services_come state)

  methods-come :
      (name : Text) (state : State) → is_some (list_methods reflect source name state) ≡ true
  unfolding list_methods
  methods-come name state = ground (arith, answers.symbols_come name state)

  pub run_list-ends :
      (sym : Option Text) (state : State) → is_some (run_list reflect source sym state) ≡ true
  unfolding run_list
  run_list-ends none state =
      print_answer-ends (list_services reflect source state) (services-come state)
  run_list-ends (some name) state =
      print_answer-ends (list_methods reflect source name state) (methods-come name state)

module _ {reflect : Reflect} {State : Type 0} (syntax : Syntax reflect)
    (dynamics : Dynamics reflect) (json : Formatter dynamics.Dynamic)
    (source : DescriptorSource reflect State) (answers : Answers source) (fuel : ℕ)
    (templates_end : (msg : reflect.Message)
      → is_some (make_template syntax dynamics fuel msg) ≡ true) where
  print_msg_template-ends :
      (msg : reflect.Message)
      → is_some (print_msg_template syntax dynamics json source fuel msg) ≡ true
  unfolding print_msg_template
  print_msg_template-ends msg = ground (arith, templates_end msg)

  template_of-ends :
      (wanted : Bool) (desc : SymbolDescriptor reflect)
      → is_some (template_of syntax dynamics json source wanted fuel desc) ≡ true
  template_of-ends true (message m) = print_msg_template-ends m
  template_of-ends _ _ = refl

  print_after-ends :
      (lines : List Text) (printed : Option Printed)
      → is_some printed ≡ true
      → is_some (print_after syntax dynamics json source lines printed) ≡ true
  print_after-ends lines none h = cc
  print_after-ends lines (some printed) h = refl

  with_state-ends :
      (state : State) (printed : Option Printed)
      → is_some printed ≡ true
      → is_some (with_state reflect state printed) ≡ true
  with_state-ends state none h = cc
  with_state-ends state (some printed) h = refl

  describe_one-ends :
      (wanted : Bool) (sym : Text) (answer : Asked State (SymbolDescriptor reflect))
      → is_some answer ≡ true
      → is_some (describe_one syntax dynamics json source fuel wanted sym answer) ≡ true
  describe_one-ends wanted sym none h = cc
  describe_one-ends wanted sym (some (fail e, state)) h = refl
  describe_one-ends wanted sym (some (done desc, state)) h =
      let text = template_of syntax dynamics json source wanted fuel desc in
      with_state-ends state
        (print_after syntax dynamics json source (described syntax dynamics json source sym desc)
          text)
        (print_after-ends (described syntax dynamics json source sym desc) text
          (template_of-ends wanted desc))

  describe_then-ends :
      (service : Text) (answer : Asked State (SymbolDescriptor reflect))
      (rest : State → Option (Printed × State))
      → is_some answer ≡ true
      → ((state : State) → is_some (rest state) ≡ true)
      → is_some (describe_then syntax dynamics json source service answer rest) ≡ true
  describe_then-ends service none rest h k = cc
  describe_then-ends service (some (fail e, state)) rest h k = refl
  describe_then-ends service (some (done desc, state)) rest h k =
      let there = k state in ground (arith, there)

  describe_services-ends :
      (services : List Text) (state : State)
      → is_some (describe_services syntax dynamics json source services state) ≡ true
  unfolding describe_services
  describe_services-ends [] state = refl
  describe_services-ends (service ∷ more) state =
      describe_then-ends service (source.find_symbol service state)
        (describe_services syntax dynamics json source more) (answers.symbols_come service state)
        (describe_services-ends more)

  describe_all-ends :
      (answer : Asked State (List Text))
      → is_some answer ≡ true
      → is_some (describe_all syntax dynamics json source answer) ≡ true
  describe_all-ends none h = cc
  describe_all-ends (some (fail e, state)) h = refl
  describe_all-ends (some (done services, state)) h = describe_services-ends services state

  pub run_describe-ends :
      (sym : Option Text) (wanted : Bool) (state : State)
      → is_some (run_describe syntax dynamics json source fuel sym wanted state) ≡ true
  unfolding run_describe
  run_describe-ends none wanted state =
      describe_all-ends (source.list_services state) (answers.services_come state)
  run_describe-ends (some sym) wanted state =
      describe_one-ends wanted sym (source.find_symbol sym state) (answers.symbols_come sym state)
