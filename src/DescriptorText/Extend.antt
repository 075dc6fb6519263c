-- ===== src/DescriptorText/Extend.antt =====
-- grpcurl-core/src/descriptor_text.rs: the extensions of a file, by the message they extend.
use grpcurl_rs.Base.{Text, text, text_eq, text_le, List, [], ◌∷◌, ◌++◌, map, if◌then◌else◌}
use grpcurl_rs.Descriptor.{Reflect}
use grpcurl_rs.DescriptorText.{Syntax, short_name}
use grpcurl_rs.DescriptorText.Describe.{format_extension}
use grpcurl_rs.DescriptorText.Entries.{indent}

-- `entry(key).or_default().push(x)` of a `BTreeMap`: the groups stand in the order of their keys.
unfoldable pub add_to_group {ℓ} :
    {A : Type ℓ} → Text → A → List (Text × List A) → List (Text × List A)
add_to_group key x [] = (key, x ∷ []) ∷ []
add_to_group key x ((k, xs) ∷ groups) =
    let rest = add_to_group key x groups in
    if text_eq key k
    then (k, xs ++ x ∷ []) ∷ groups
    else if text_le key k
    then (key, x ∷ []) ∷ (k, xs) ∷ groups
    else (k, xs) ∷ rest

module _ {reflect : Reflect} (syntax : Syntax reflect) where
  -- The name of the message that an extension extends, in a file of the package.
  abbrev pub extendee_of : Text → reflect.Extension → Text
  extendee_of pkg ext = short_name (reflect.message_full_name (reflect.containing_message ext)) pkg

  unfoldable pub add_extensions :
      Text
      → List reflect.Extension
      → List (Text × List reflect.Extension)
      → List (Text × List reflect.Extension)
  unfolding add_to_group
  add_extensions pkg [] groups = groups
  add_extensions pkg (ext ∷ more) groups =
      add_extensions pkg more (add_to_group (extendee_of pkg ext) ext groups)

  unfoldable pub group_by_extendee :
      Text → List reflect.Extension → List (Text × List reflect.Extension)
  group_by_extendee pkg exts = add_extensions pkg exts []

  unfoldable pub format_extends : List (Text × List reflect.Extension) → Text
  format_extends [] = []
  format_extends ((extendee, exts) ∷ groups) =
      text "\nextend "
      ++ (extendee
          ++ (text " {\n"
              ++ (indent (map (format_extension syntax) exts)
                  ++ (text "}\n" ++ format_extends groups))))
