-- ===== src/Tests/Templates.antt =====
-- A run of the theorem on templates: one message, whose one field is a list of itself.
use grpcurl_rs.Base.{
  ℕ, ◌<◌, Text, text_eq, List, [], ◌∷◌, length, true, false, none, some, ◌≡◌, refl,
}
use grpcurl_rs.Descriptor.{Reflect}
use grpcurl_rs.Descriptor.Export.{contains}
use grpcurl_rs.DescriptorText.{Kind, Syntax}
use grpcurl_rs.Base.Ints.{pos}
use grpcurl_rs.Format.Template.{Dynamics, make_template}
use grpcurl_rs.Format.Template.Ends.{make_template_ends}
use grpcurl_rs.Tests.Descriptors.{names_only}

-- Every message is called `a`.
abbrev pub recursive : Reflect
recursive = record names_only {
  message_full_name = λ m. b'a' ∷ [];
  fields = λ m. (b'f' ∷ []) ∷ [];
  dependencies = λ f. [];
}

abbrev pub recursive_syntax : Syntax recursive
recursive_syntax = record {
  service_name = λ s. s;
  message_name = λ m. m;
  enum_name = λ e. e;
  extension_name = λ x. [];
  field_number = λ f. 1;
  enum_value_number = λ v. pos 0;
  oneof_fields = λ o. [];
  child_messages = λ m. [];
  child_enums = λ m. [];
  is_map = λ f. false;
  is_list = λ f. true;
  extension_is_list = λ x. false;
  field_kind = λ f. Kind.message_kind (b'm' ∷ []);
  extension_kind = λ x. Kind.bool;
  entry_key = λ m. m;
  entry_value = λ m. m;
  field_options = λ f. none;
  json_name = λ f. none;
  proto3_optional = λ f. none;
  reserved_range = λ m. [];
  reserved_name = λ m. [];
  decimal = λ n. [];
  decimal_int = λ n. [];
  to_uppercase = λ c. c ∷ [];
}

-- A message holds the numbers of the fields that are set.
abbrev pub counted : Dynamics recursive
counted = record {
  Dynamic = List Text;
  new_message = λ m. [];
  set_field = λ msg field v. field ∷ msg;
  get_field_by_name = λ m name. none;
  get_field = λ m n. none;
  entry_fields = λ f. (f, f);
  default_value = λ e. pos 0;
}

abbrev pub one_name : List Text
one_name = (b'a' ∷ []) ∷ []

pub all_named : (msg : Text) → contains (recursive.message_full_name msg) one_name ≡ true
unfolding text_eq
all_named msg = refl

make_template_ends_example :
    (t : List Text) × ((fuel : ℕ)
      → length one_name < fuel
      → make_template recursive_syntax counted fuel (b'm' ∷ []) ≡ some t)
make_template_ends_example =
    make_template_ends recursive_syntax counted one_name all_named (b'm' ∷ [])
