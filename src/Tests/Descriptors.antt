-- ===== src/Tests/Descriptors.antt =====
-- Runs of the theorems on descriptors. A descriptor is its name here, and a file imports the files
-- whose names are its own less some of the characters in front.
use grpcurl_rs.Base.{
  keep, ℕ, ◌<◌, Text, text_eq, text_le, sort, IsSorted, Permᴰ, List, [], ◌∷◌, ◌++◌, length, All,
  Bool, true, false, Option, none, some, if◌then◌else◌, ◌≡◌, refl, arith,
}
use grpcurl_rs.Error.{done}
use grpcurl_rs.Descriptor.{Reflect, service, DescriptorSource}
use grpcurl_rs.Descriptor.Lookup.{find_symbol_in_pool, find_top_level}
use grpcurl_rs.Descriptor.Lookup.Names.{HasNames, IsNamed, find_symbol_in_pool-IsNamed}
use grpcurl_rs.Descriptor.Listing.{list_services, list_services-IsSorted}
use grpcurl_rs.Descriptor.Composite.{
  merge_extensions, else_list, with_tag, keep-merge_extensions, file_source,
}
use grpcurl_rs.Descriptor.Export.{expand_files}
use grpcurl_rs.Descriptor.Export.Order.{holds, IsOrdered, expand_files-IsOrdered}
use grpcurl_rs.Invoke.Method.{resolve_method, resolve_method_forms}

abbrev pub imports : Text → List Text
imports [] = []
imports (c ∷ name) = name ∷ []

abbrev suffix_named : Text → Text → Option Text
suffix_named [] name = none
suffix_named (c ∷ pool) name = if text_eq (c ∷ pool) name then some name else none

-- A pool is the name of its one service, with the method `M`. An extension is its number.
abbrev pub names_only : Reflect
names_only = record {
  Service = Text;
  Method = Text;
  Message = Text;
  Enum = Text;
  Field = Text;
  Extension = ℕ × Bool;
  OneOf = Text;
  EnumValue = Text;
  File = Text;
  FileProto = Text;
  Pool = Text;
  service_full_name = λ s. s;
  method_full_name = λ m. m ++ b'.' ∷ b'M' ∷ [];
  message_full_name = λ m. m;
  enum_full_name = λ e. e;
  field_full_name = λ f. f;
  extension_full_name = λ x. [];
  one_of_full_name = λ o. o;
  enum_value_full_name = λ v. v;
  method_name = λ m. b'M' ∷ [];
  field_name = λ f. f;
  one_of_name = λ o. o;
  enum_value_name = λ v. v;
  file_name = λ f. f;
  is_map_entry = λ m. false;
  is_group = λ f. false;
  service_file = λ s. s;
  message_file = λ m. m;
  enum_file = λ e. e;
  extension_file = λ x. [];
  parent_service = λ m. m;
  field_message = λ f. f;
  one_of_message = λ o. o;
  parent_enum = λ v. v;
  methods = λ s. s ∷ [];
  fields = λ m. [];
  oneofs = λ m. [];
  values = λ e. [];
  number = λ x. x.0;
  containing_message = λ x. [];
  dependencies = imports;
  file_descriptor_proto = λ f. f;
  is_client_streaming = λ m. false;
  is_server_streaming = λ m. false;
  method_input = λ m. m;
  method_output = λ m. m;
  get_service_by_name = suffix_named;
  get_message_by_name = λ pool name. none;
  get_enum_by_name = λ pool name. none;
  get_extension_by_name = λ pool name. none;
  services = λ pool. pool ∷ (b'a' ∷ []) ∷ [];
  all_extensions = λ pool. [];
  files = λ pool. [];
  file_descriptor_protos = λ pool. [];
}

abbrev pub pool : Text
pool = b'p' ∷ b'.' ∷ b'S' ∷ []

pool_HasNames : HasNames names_only pool
pool_HasNames = record {
  service_named = λ name d e. ground (arith, e);
  message_named = λ name d e. cc;
  enum_named = λ name d e. cc;
  extension_named = λ name d e. cc;
  methods_named = λ d. (refl, tt);
  fields_named = λ d. tt;
  oneofs_named = λ d. tt;
}

service_found : find_symbol_in_pool names_only pool pool ≡ done (service pool)
unfolding find_symbol_in_pool find_top_level text_eq
service_found = refl

find_symbol_in_pool-IsNamed_example : IsNamed names_only pool pool_HasNames pool (service pool)
find_symbol_in_pool-IsNamed_example =
    find_symbol_in_pool-IsNamed names_only pool pool_HasNames pool (service pool) service_found

abbrev rank : Text → ℕ
rank name = length name

imports_less : (fd : Text) → All (λ dep. rank dep < rank fd) (imports fd)
imports_less [] = tt
imports_less (c ∷ name) = (omega arith, tt)

abbrev roots : List Text
roots = (b'b' ∷ b'a' ∷ []) ∷ (b'a' ∷ []) ∷ []

expand_files-IsOrdered_example :
    (files : List Text) × (expand_files names_only 3 roots ≡ some files)
    × IsOrdered names_only files
    × All (λ fd. holds names_only files fd ≡ true) roots
expand_files-IsOrdered_example =
    expand_files-IsOrdered names_only rank imports_less 3 roots (omega arith, (omega arith, tt))

keep-merge_extensions_example :
    keep
      (with_tag names_only 1)
      (merge_extensions names_only ((1, true) ∷ []) (done ((1, false) ∷ (2, false) ∷ [])))
    ≡ else_list names_only
        (keep (with_tag names_only 1) ((1, true) ∷ []))
        (keep (with_tag names_only 1) ((1, false) ∷ (2, false) ∷ []))
keep-merge_extensions_example =
    keep-merge_extensions names_only 1 ((1, true) ∷ []) ((1, false) ∷ (2, false) ∷ [])

abbrev files_of_pool : DescriptorSource names_only ℕ
files_of_pool = file_source names_only pool

listed : list_services names_only files_of_pool 7 ≡ some (done ((b'a' ∷ []) ∷ pool ∷ []), 7)
unfolding list_services file_source sort text_le
listed = refl

list_services-IsSorted_example :
    (own : List Text) × (files_of_pool.list_services 7 ≡ some (done own, 7))
    × IsSorted text_le ((b'a' ∷ []) ∷ pool ∷ [])
    × Permᴰ ((b'a' ∷ []) ∷ pool ∷ []) own
list_services-IsSorted_example =
    list_services-IsSorted names_only files_of_pool ((b'a' ∷ []) ∷ pool ∷ []) 7 7 listed

resolve_method_forms_example :
    resolve_method names_only files_of_pool (pool ++ b'/' ∷ b'M' ∷ []) 7
    ≡ resolve_method names_only files_of_pool (pool ++ b'.' ∷ b'M' ∷ []) 7
resolve_method_forms_example =
    resolve_method_forms names_only files_of_pool pool (b'M' ∷ []) 7 (refl, tt)
      (refl, (refl, (refl, (refl, (refl, tt))))) (refl, tt)
