-- ===== src/Descriptor.antt =====
-- grpcurl-core/src/descriptor.rs: the descriptors of symbols, and the sources that answer for them.
-- The descriptors of prost-reflect are given: their types, and what the code asks of them.
pub mod Answering
pub mod Lookup
pub mod Writing
pub mod Listing
pub mod Composite
pub mod Export
pub mod Loading
use grpcurl_rs.Base.{ℕ, Text, text, List, Bool, Option, some, none, if◌then◌else◌, ◌≡◌}
use grpcurl_rs.Error.{done, Result, fail, other}

-- prost-reflect: its descriptors, and the methods of them that are called.
pub record Reflect : Type 1 where
  pub Service : Type 0
  pub Method : Type 0
  pub Message : Type 0
  pub Enum : Type 0
  pub Field : Type 0
  pub Extension : Type 0
  pub OneOf : Type 0
  pub EnumValue : Type 0
  pub File : Type 0
  -- `FileDescriptorProto`
  pub FileProto : Type 0
  pub Pool : Type 0
  pub service_full_name : Service → Text
  pub method_full_name : Method → Text
  pub message_full_name : Message → Text
  pub enum_full_name : Enum → Text
  pub field_full_name : Field → Text
  pub extension_full_name : Extension → Text
  pub one_of_full_name : OneOf → Text
  pub enum_value_full_name : EnumValue → Text
  pub method_name : Method → Text
  pub field_name : Field → Text
  pub one_of_name : OneOf → Text
  pub enum_value_name : EnumValue → Text
  pub file_name : File → Text
  pub is_map_entry : Message → Bool
  pub is_group : Field → Bool
  pub service_file : Service → File
  pub message_file : Message → File
  pub enum_file : Enum → File
  pub extension_file : Extension → File
  pub parent_service : Method → Service
  pub field_message : Field → Message
  pub one_of_message : OneOf → Message
  pub parent_enum : EnumValue → Enum
  pub methods : Service → List Method
  pub fields : Message → List Field
  pub oneofs : Message → List OneOf
  pub values : Enum → List EnumValue
  -- the number of an extension, and the message that it extends
  pub number : Extension → ℕ
  pub containing_message : Extension → Message
  pub dependencies : File → List File
  pub file_descriptor_proto : File → FileProto
  -- `is_client_streaming`, `is_server_streaming`, `input` and `output`
  pub is_client_streaming : Method → Bool
  pub is_server_streaming : Method → Bool
  pub method_input : Method → Message
  pub method_output : Method → Message
  -- the pool
  pub get_service_by_name : Pool → Text → Option Service
  pub get_message_by_name : Pool → Text → Option Message
  pub get_enum_by_name : Pool → Text → Option Enum
  pub get_extension_by_name : Pool → Text → Option Extension
  pub services : Pool → List Service
  pub all_extensions : Pool → List Extension
  pub files : Pool → List File
  pub file_descriptor_protos : Pool → List FileProto

pub data SymbolDescriptor (reflect : Reflect) : Type 0 where
  service : reflect.Service → SymbolDescriptor reflect
  method : reflect.Method → SymbolDescriptor reflect
  message : reflect.Message → SymbolDescriptor reflect
  enumeration : reflect.Enum → SymbolDescriptor reflect
  field : reflect.Field → SymbolDescriptor reflect
  extension : reflect.Extension → SymbolDescriptor reflect
  one_of : reflect.OneOf → SymbolDescriptor reflect
  enum_value : reflect.EnumValue → SymbolDescriptor reflect
  file : reflect.File → SymbolDescriptor reflect

-- An answer and what is left of the state, or `none` where the answer does not come.
abbrev pub Asked : Type 0 → Type 0 → Type 0
Asked State A = Option (Result A × State)

-- The next question, behind an answer that is no error.
abbrev pub ask_then :
    {State A B : Type 0} → Asked State A → (A → State → Asked State B) → Asked State B
ask_then none next = none
ask_then (some (fail e, state)) next = some (fail e, state)
ask_then (some (done a, state)) next = next a state

-- `DescriptorSource`, by what it answers in a state.
pub record DescriptorSource (reflect : Reflect) (State : Type 0) : Type 0 where
  pub list_services : State → Asked State (List Text)
  pub find_symbol : Text → State → Asked State (SymbolDescriptor reflect)
  pub all_extensions_for_type : Text → State → Asked State (List reflect.Extension)
  pub get_all_files : Result (List reflect.FileProto)
  pub descriptor_pool : Option reflect.Pool

-- The default method of the trait.
unfoldable pub default_get_all_files : (reflect : Reflect) → Result (List reflect.FileProto)
default_get_all_files reflect =
    fail (other (text "this descriptor source does not support listing all files"))

module _ (reflect : Reflect) where
  unfoldable pub full_name : SymbolDescriptor reflect → Text
  full_name (service d) = reflect.service_full_name d
  full_name (method d) = reflect.method_full_name d
  full_name (message d) = reflect.message_full_name d
  full_name (enumeration d) = reflect.enum_full_name d
  full_name (field d) = reflect.field_full_name d
  full_name (extension d) = reflect.extension_full_name d
  full_name (one_of d) = reflect.one_of_full_name d
  full_name (enum_value d) = reflect.enum_value_full_name d
  full_name (file d) = reflect.file_name d

  unfoldable pub type_label : SymbolDescriptor reflect → Text
  type_label (service d) = text "a service"
  type_label (method d) = text "a method"
  type_label (message d) =
      if reflect.is_map_entry d then text "the entry type for a map field" else text "a message"
  type_label (enumeration d) = text "an enum"
  type_label (field d) =
      if reflect.is_group d then text "the type of a group field" else text "a field"
  type_label (extension d) = text "an extension"
  type_label (one_of d) = text "a one-of"
  type_label (enum_value d) = text "an enum value"
  type_label (file d) = text "a file"

  unfoldable pub as_message : SymbolDescriptor reflect → Option reflect.Message
  as_message (message d) = some d
  as_message _ = none

  abbrev pub as_service : SymbolDescriptor reflect → Option reflect.Service
  as_service (service d) = some d
  as_service _ = none

  unfoldable pub as_method : SymbolDescriptor reflect → Option reflect.Method
  as_method (method d) = some d
  as_method _ = none

  unfoldable pub parent_file : SymbolDescriptor reflect → reflect.File
  parent_file (service d) = reflect.service_file d
  parent_file (method d) = reflect.service_file (reflect.parent_service d)
  parent_file (message d) = reflect.message_file d
  parent_file (enumeration d) = reflect.enum_file d
  parent_file (field d) = reflect.message_file (reflect.field_message d)
  parent_file (extension d) = reflect.extension_file d
  parent_file (one_of d) = reflect.message_file (reflect.one_of_message d)
  parent_file (enum_value d) = reflect.enum_file (reflect.parent_enum d)
  parent_file (file d) = d
