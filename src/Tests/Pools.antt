-- ===== src/Tests/Pools.antt =====
-- Runs of the theorems on the pool of a reflection source. A file is its name, which its bytes
-- spell, and it imports the file whose name is its own less the first character; it declares one
-- message of its name. A pool is the list of its files.
use grpcurl_rs.Base.{
  ℕ, ◌+◌, Text, text_eq, rsplit_once, List, [], ◌∷◌, ◌++◌, length, any, Bool, true, Option, none,
  some, if◌then◌else◌, ◌≡◌, refl, sym, ◌∙◌, arith, inl, inr, Bool-cases,
}
use grpcurl_rs.Error.{Result, done}
use grpcurl_rs.Descriptor.{Reflect, SymbolDescriptor, message}
use grpcurl_rs.Descriptor.Lookup.{find_symbol_in_pool, find_top_level, find_child}
use grpcurl_rs.Reflection.{
  MessageRequest, file_by_filename, MessageResponse, file_descriptor_response, AlphaRequest,
  AlphaResponse, convert_request_to_v1alpha, Exchange, answered, Server, Version, unknown, v1,
  v1alpha, reflect, reflect_v1, reflect_v1alpha, extract_response, convert_response_from_v1alpha,
}
use grpcurl_rs.Reflection.Pool.{
  PoolCrate, SourceState, new_files, missing_files, fetch_missing, add_final, add_file_descriptors,
  is_missing, is_named,
}
use grpcurl_rs.Reflection.Pool.Ends.{AnswersBelow, add_file_descriptors-ends}
use grpcurl_rs.Reflection.Pool.Cycles.{Imports, add_file_descriptors_endless}
use grpcurl_rs.Reflection.Source.{find_symbol_async, list_services_async}
use grpcurl_rs.Reflection.Source.Answers.{services, symbol, ask, ask_all}
use grpcurl_rs.Reflection.Source.Remembered.{find_symbol_async_remembers}
use grpcurl_rs.Tests.Descriptors.{names_only, imports}

abbrev in_list : List Text → Text → Bool
in_list pool name = any (text_eq name) pool

abbrev pools : Reflect
pools = record names_only {
  Pool = List Text;
  get_service_by_name = λ pool name. none;
  get_message_by_name = λ pool name. if in_list pool name then some name else none;
  get_enum_by_name = λ pool name. none;
  get_extension_by_name = λ pool name. none;
  services = λ pool. [];
  all_extensions = λ pool. [];
  files = λ pool. [];
  file_descriptor_protos = λ pool. pool;
}

abbrev with_imports : (Text → List Text) → PoolCrate pools
with_imports deps = record {
  decode_file = λ bytes. (some bytes, []);
  proto_name = λ f. some f;
  proto_dependency = deps;
  has_file = in_list;
  add_file_descriptor_set = λ pool files. (files ++ pool, none);
}

abbrev answer : MessageRequest → Exchange MessageResponse
answer (MessageRequest.file_by_filename name) =
    answered (some (file_descriptor_response (name ∷ [])))
answer (MessageRequest.file_containing_symbol name) =
    answered (some (file_descriptor_response (name ∷ [])))
answer _ = answered none

abbrev alpha_answer : AlphaRequest → Exchange AlphaResponse
alpha_answer (AlphaRequest.file_by_filename name) =
    answered (some (AlphaResponse.file_descriptor_response (name ∷ [])))
alpha_answer _ = answered none

abbrev file_server : Server ℕ
file_server = record {
  ask_v1 = λ n m. (answer m, n + 1);
  ask_v1alpha = λ n m. (alpha_answer m, n);
  show_code = λ c. [];
}

any-append :
    (name : Text) (files pool : List Text)
    → in_list pool name ≡ true
    → in_list (files ++ pool) name ≡ true
any-append name [] pool h = h
any-append name (f ∷ files) pool h = ground (arith, any-append name files pool h)

no_child : (pool : List Text) (o : Option (Text × Text)) → find_child pools pool o ≡ none
unfolding find_child
no_child pool none = refl
no_child pool (some (parent, child)) = elim (Bool-cases (in_list pool parent)) [
  | inl e ↦ rw e refl
  | inr e ↦ rw e refl
]

found_message :
    (pool : List Text) (name : Text)
    → in_list pool name ≡ true
    → find_symbol_in_pool pools pool name ≡ done (message name)
unfolding find_symbol_in_pool find_top_level
found_message pool name h = rw h refl

kept :
    (name : Text) (found : SymbolDescriptor pools) (pool files : List Text)
    → find_symbol_in_pool pools pool name ≡ done found
    → find_symbol_in_pool pools (files ++ pool) name ≡ done found
unfolding find_symbol_in_pool find_top_level
kept name found pool files e = elim (Bool-cases (in_list pool name)) [
  | inl h ↦
      found_message (files ++ pool) name (any-append name files pool h)
      ∙ sym (found_message pool name h)
      ∙ e
  | inr h ↦ ground (arith, e, h, no_child pool (rsplit_once b'.' name))
]

abbrev file_b : Text
file_b = b'b' ∷ []

abbrev before : SourceState pools ℕ
before = record { connection = (unknown, 0); pool = []; warnings = [] }

abbrev after : SourceState pools ℕ
after = record { connection = (v1, 2); pool = file_b ∷ [] ∷ []; warnings = [] }

first :
    find_symbol_async (with_imports imports) file_server 3 file_b before
    ≡ some (done (message file_b), after)
unfolding find_symbol_async find_symbol_in_pool find_top_level find_child rsplit_once
    add_file_descriptors new_files missing_files fetch_missing add_final text_eq reflect reflect_v1
    extract_response is_missing is_named
first = refl

abbrev last : SourceState pools ℕ
last = record { connection = (v1, 3); pool = file_b ∷ [] ∷ []; warnings = [] }

later :
    ask_all (with_imports imports) file_server 3 (symbol file_b ∷ services ∷ []) after ≡ some last
unfolding ask find_symbol_async list_services_async find_symbol_in_pool find_top_level find_child
    rsplit_once text_eq reflect reflect_v1 extract_response
later = refl

find_symbol_async_remembers_example :
    find_symbol_async (with_imports imports) file_server 0 file_b last
    ≡ some (done (message file_b), last)
find_symbol_async_remembers_example =
    find_symbol_async_remembers (with_imports imports) file_server kept 3 3 file_b
      (symbol file_b ∷ services ∷ []) (message file_b) before after last first later

abbrev rank : Text → ℕ
rank name = length name

acyclic :
    (connection : Version × ℕ) (dep : Text)
    → AnswersBelow
        (with_imports imports)
        file_server
        rank
        (rank dep)
        (reflect file_server connection (file_by_filename dep))
unfolding reflect reflect_v1 reflect_v1alpha extract_response convert_request_to_v1alpha
    convert_response_from_v1alpha
acyclic (unknown, n) [] = (tt, tt)
acyclic (unknown, n) (c ∷ dep) = ((omega arith, tt), tt)
acyclic (v1, n) [] = (tt, tt)
acyclic (v1, n) (c ∷ dep) = ((omega arith, tt), tt)
acyclic (v1alpha, n) [] = (tt, tt)
acyclic (v1alpha, n) (c ∷ dep) = ((omega arith, tt), tt)

add_file_descriptors-ends_example :
    (last : Result (Unit {0}) × SourceState pools ℕ) × (add_file_descriptors
        (with_imports imports)
        file_server
        3
        (file_b ∷ [])
        before
      ≡ some last)
add_file_descriptors-ends_example =
    add_file_descriptors-ends (with_imports imports) file_server rank acyclic 3 1 (file_b ∷ [])
      before ((omega arith, tt), tt) (omega arith)

abbrev file_a : Text
file_a = b'a' ∷ []

-- `a` imports `b`, and every other file imports `a`.
abbrev other_of : Text → List Text
other_of name = if text_eq name file_a then file_b ∷ [] else file_a ∷ []

abbrev settled : SourceState pools ℕ
settled = record { connection = (v1, 0); pool = []; warnings = [] }

gives :
    (name : Text) (connection : Version × ℕ)
    → (reflect file_server connection (file_by_filename name)).0
      ≡ done (file_descriptor_response (name ∷ []))
unfolding reflect reflect_v1 reflect_v1alpha extract_response convert_request_to_v1alpha
    convert_response_from_v1alpha
gives name (unknown, n) = refl
gives name (v1, n) = refl
gives name (v1alpha, n) = refl

Imports-b : Imports (with_imports other_of) file_server [] file_a file_a file_b
unfolding text_eq
Imports-b = record {
  fdp = file_a;
  decodes = refl;
  named = refl;
  imports_dep = refl;
  differs = refl;
  absent = refl;
  given = gives file_a;
}

Imports-a : Imports (with_imports other_of) file_server [] file_b file_b file_a
unfolding text_eq
Imports-a = record {
  fdp = file_b;
  decodes = refl;
  named = refl;
  imports_dep = refl;
  differs = refl;
  absent = refl;
  given = gives file_b;
}

add_file_descriptors_endless_example :
    add_file_descriptors (with_imports other_of) file_server 9 (file_a ∷ []) before ≡ none
add_file_descriptors_endless_example =
    add_file_descriptors_endless (with_imports other_of) file_server 9 before file_a file_b file_a
      file_b Imports-b Imports-a
