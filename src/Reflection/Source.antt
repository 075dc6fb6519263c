-- ===== src/Reflection/Source.antt =====
-- grpcurl-core/src/reflection.rs: what a source answers by a server's reflection.
pub mod Answers
pub mod Ends
pub mod Remembered
use grpcurl_rs.Base.{ℕ, Text, text, text_eq, List, [], ◌∷◌, keep, Option, none, some}
use grpcurl_rs.Base.Ints.{ℤ}
use grpcurl_rs.Error.{GrpcurlError, other, Result, done, fail}
use grpcurl_rs.Descriptor.{Reflect, SymbolDescriptor, DescriptorSource, default_get_all_files}
use grpcurl_rs.Descriptor.Lookup.{find_symbol_in_pool}
use grpcurl_rs.Reflection.{
  MessageRequest, file_containing_symbol, file_containing_extension, all_extension_numbers_of_type,
  list_services, MessageResponse, file_descriptor_response, all_extension_numbers_response,
  list_services_response, Server, Version, reflect,
}
use grpcurl_rs.Reflection.Pool.{PoolCrate, SourceState, connected, add_file_descriptors}

module _ {descriptors : Reflect} {World : Type 0} (crate : PoolCrate descriptors)
    (server : Server World) where
  abbrev pub State : Type 0
  State = SourceState descriptors World

  -- A result, and the state afterwards, where the recursion ends.
  abbrev pub Answer : Type 0 → Type 0
  Answer A = Option (Result A × State)

  abbrev pub services_of :
      Result MessageResponse × (Version × World) → State → Result (List Text) × State
  services_of (done (list_services_response names), connection) state =
      (done names, connected crate server connection state)
  services_of (fail e, connection) state = (fail e, connected crate server connection state)
  services_of (done _, connection) state = (
    fail (other (text "unexpected reflection response for list_services")),
    connected crate server connection state,
  )

  unfoldable pub list_services_async : State → Result (List Text) × State
  list_services_async state = services_of (reflect server state.connection (list_services [])) state

  -- What the pool has once the answer's files are added.
  abbrev pub look_again :
      Text → Option (Result (Unit {0}) × State) → Answer (SymbolDescriptor descriptors)
  look_again name none = none
  look_again name (some (fail e, state)) = some (fail e, state)
  look_again name (some (done u, state)) =
      some (find_symbol_in_pool descriptors state.pool name, state)

  abbrev pub take_symbol_response :
      ℕ
      → Text
      → Result MessageResponse × (Version × World)
      → State
      → Answer (SymbolDescriptor descriptors)
  take_symbol_response fuel name (fail e, connection) state =
      some (fail e, connected crate server connection state)
  take_symbol_response fuel name (done (file_descriptor_response files), connection) state =
      look_again name
        (add_file_descriptors crate server fuel files (connected crate server connection state))
  take_symbol_response fuel name (done _, connection) state =
      look_again name (some (done tt, connected crate server connection state))

  abbrev pub fetch_symbol : ℕ → Text → State → Answer (SymbolDescriptor descriptors)
  fetch_symbol fuel name state =
      take_symbol_response fuel name (reflect server state.connection (file_containing_symbol name))
        state

  abbrev pub symbol_or_fetch :
      ℕ
      → Text
      → Result (SymbolDescriptor descriptors)
      → State
      → Answer (SymbolDescriptor descriptors)
  symbol_or_fetch fuel name (done symbol) state = some (done symbol, state)
  symbol_or_fetch fuel name (fail e) state = fetch_symbol fuel name state

  -- The pool is asked first, and the server where the pool does not know the name.
  unfoldable pub find_symbol_async : ℕ → Text → State → Answer (SymbolDescriptor descriptors)
  find_symbol_async fuel name state =
      symbol_or_fetch fuel name (find_symbol_in_pool descriptors state.pool name) state

  abbrev extensions_in : Text → descriptors.Pool → List descriptors.Extension
  extensions_in type_name pool =
      keep
        (λ ext.
          text_eq (descriptors.message_full_name (descriptors.containing_message ext)) type_name)
        (descriptors.all_extensions pool)

  -- The result is dropped.
  abbrev pub state_of : Option (Result (Unit {0}) × State) → Option State
  state_of none = none
  state_of (some (result, state)) = some state

  abbrev pub take_extension_response :
      ℕ → Result MessageResponse × (Version × World) → State → Option State
  take_extension_response fuel (done (file_descriptor_response files), connection) state =
      state_of
        (add_file_descriptors crate server fuel files (connected crate server connection state))
  take_extension_response fuel (_, connection) state =
      some (connected crate server connection state)

  abbrev pub and_then : (State → Option State) → Option State → Option State
  and_then next none = none
  and_then next (some state) = next state

  -- The file of each extension, where the server has it.
  unfoldable pub fetch_extensions : ℕ → Text → List ℤ → State → Option State
  fetch_extensions fuel type_name [] state = some state
  fetch_extensions fuel type_name (n ∷ more) state =
      and_then (fetch_extensions fuel type_name more) (
        take_extension_response fuel
          (reflect server state.connection (file_containing_extension type_name n)) state)

  abbrev pub collect_extensions : Text → Option State → Answer (List descriptors.Extension)
  collect_extensions type_name none = none
  collect_extensions type_name (some state) =
      some (done (extensions_in type_name state.pool), state)

  abbrev pub take_numbers :
      ℕ
      → Text
      → Result MessageResponse × (Version × World)
      → State
      → Answer (List descriptors.Extension)
  take_numbers fuel type_name (fail e, connection) state =
      some (fail e, connected crate server connection state)
  take_numbers fuel type_name (done (all_extension_numbers_response base numbers), connection)
        state =
      collect_extensions type_name
        (fetch_extensions fuel type_name numbers (connected crate server connection state))
  take_numbers fuel type_name (done _, connection) state =
      collect_extensions type_name (some (connected crate server connection state))

  unfoldable pub all_extensions_async : ℕ → Text → State → Answer (List descriptors.Extension)
  all_extensions_async fuel type_name state =
      take_numbers fuel type_name
        (reflect server state.connection (all_extension_numbers_of_type type_name)) state

  -- `ServerSource`, with fuel for each answer. It does not override the last two methods of the
  -- trait.
  unfoldable pub server_source : ℕ → DescriptorSource descriptors State
  server_source fuel = record {
    list_services = λ state. some (list_services_async state);
    find_symbol = find_symbol_async fuel;
    all_extensions_for_type = all_extensions_async fuel;
    get_all_files = default_get_all_files descriptors;
    descriptor_pool = none;
  }
