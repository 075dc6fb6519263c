-- ===== src/Descriptor/Answering.antt =====
-- grpcurl-core/src/descriptor.rs: the sources, as to whether their answers come.
use grpcurl_rs.Base.{Text, true, Option, none, some, is_some, ◌≡◌, refl}
use grpcurl_rs.Error.{Result, done, fail}
use grpcurl_rs.Descriptor.{Reflect, DescriptorSource, SymbolDescriptor}
use grpcurl_rs.Descriptor.Composite.{or_ask, file_source, composite_source}

-- Each question of the program gets an answer, in any state.
pub record Answers {reflect : Reflect} {S : Type 0} (source : DescriptorSource reflect S)
    : Type 0 where
  pub services_come : (state : S) → is_some (source.list_services state) ≡ true
  pub symbols_come : (name : Text) (state : S) → is_some (source.find_symbol name state) ≡ true

pub file_source-Answers :
    {reflect : Reflect} (S : Type 0) (pool : reflect.Pool)
    → Answers (file_source reflect {State = S} pool)
unfolding file_source
file_source-Answers S pool = record {
  services_come = λ state. refl;
  symbols_come = λ name state. refl;
}

or_ask-comes :
    {reflect : Reflect} {S : Type 0} (files : DescriptorSource reflect S) (name : Text)
    (answer : Option (Result (SymbolDescriptor reflect) × S))
    → ((state : S) → is_some (files.find_symbol name state) ≡ true)
    → is_some answer ≡ true
    → is_some (or_ask reflect answer (files.find_symbol name)) ≡ true
or_ask-comes files name none h k = cc
or_ask-comes files name (some (done a, state)) h k = refl
or_ask-comes files name (some (fail e, state)) h k = h state

pub composite_source-Answers :
    {reflect : Reflect} {S : Type 0} (reflection files : DescriptorSource reflect S)
    → Answers reflection
    → Answers files
    → Answers (composite_source reflect reflection files)
unfolding composite_source
composite_source-Answers reflection files h k = record {
  services_come = h.services_come;
  symbols_come = λ name state.
      or_ask-comes files name (reflection.find_symbol name state) (k.symbols_come name)
        (h.symbols_come name state);
}
