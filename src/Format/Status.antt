-- ===== src/Format/Status.antt =====
-- grpcurl-core/src/format.rs: the printing of a status.
use grpcurl_rs.Base.{
  ℕ, Text, text, rsplit_once, List, [], ◌∷◌, ◌++◌, Bool, false, ◌&&◌, Option, none, some,
  if◌then◌else◌, is_empty, length, ◌==◌,
}
use grpcurl_rs.Error.{Status, is_ok_code, Result, done, fail}
use grpcurl_rs.Format.Output.{Formatter, status_code_name}

-- `prost_types::Any`
pub record Any : Type 0 where
  pub type_url : Text
  pub value : List ℕ

-- prost and prost-reflect: the details of an encoded `google.rpc.Status`, the global pool with the
-- decoder of each type that it has, and the decimal form of a number.
pub record Details (Message : Type 0) : Type 0 where
  pub decode_details : List ℕ → Option (List Any)
  pub get_message_by_name : Text → Option (List ℕ → Option Message)
  pub decimal : ℕ → Text

-- `str::lines`: a line ends with `\n` or `\r\n`, and the last one may have no end.
abbrev add_to_line : ℕ → Bool → List Text → List Text
add_to_line c dropped [] = if dropped then [] ∷ [] else (c ∷ []) ∷ []
add_to_line c dropped (line ∷ more) = if dropped then line ∷ more else (c ∷ line) ∷ more

starts_with_newline : Text → Bool
starts_with_newline [] = false
starts_with_newline (c ∷ s) = c == b'\n'

unfoldable pub lines : Text → List Text
unfolding starts_with_newline
lines [] = []
lines (c ∷ s) =
    let rest = lines s in
    if c == b'\n' then [] ∷ rest else add_to_line c ((c == b'\r') && starts_with_newline s) rest

module _ {Message : Type 0} (details : Details Message) where
  unfoldable pub decode_status_details : List ℕ → List Any
  decode_status_details bytes = elim (details.decode_details bytes) [ some anys ↦ anys | none ↦ [] ]

  abbrev type_name_of : Text → Text
  type_name_of url = elim (rsplit_once b'/' url) [ some (scheme, name) ↦ name | none ↦ url ]

  abbrev formatted_text : Result Text → Option Text
  formatted_text (done t) = some t
  formatted_text (fail e) = none

  -- `format_any_detail`, where an error is dropped by the caller.
  unfoldable pub format_any_detail : Any → Formatter Message → ℕ → Option Text × ℕ
  format_any_detail any formatter n =
      elim (details.get_message_by_name (type_name_of any.type_url)) [
        | none ↦ (none, n)
        | some decode ↦ elim (decode any.value) [
          | none ↦ (none, n)
          | some msg ↦ (formatted_text (formatter n msg).0, (formatter n msg).1)
        ]
      ]

  indented : List Text → Text
  indented [] = []
  indented (line ∷ more) = text "      " ++ (line ++ (text "\n" ++ indented more))

  write_detail : Any → Option Text → Text
  unfolding indented
  write_detail any (some t) = text "  - " ++ (any.type_url ++ (text "\n" ++ indented (lines t)))
  write_detail any none =
      text "  - "
      ++ (any.type_url ++ (text " (" ++ (details.decimal (length any.value) ++ text " bytes)\n")))

  abbrev format_with : Option (Formatter Message) → Any → ℕ → Option Text × ℕ
  format_with none any n = (none, n)
  format_with (some formatter) any n = format_any_detail any formatter n

  write_details : Option (Formatter Message) → ℕ → List Any → Text
  unfolding write_detail
  write_details formatter n [] = []
  write_details formatter n (any ∷ more) =
      let (formatted, n') = format_with formatter any n in
      write_detail any formatted ++ write_details formatter n' more

  unfoldable pub write_status : Status → Option (Formatter Message) → Text
  unfolding write_details
  write_status status formatter =
      if is_ok_code status.code
      then text "OK\n"
      else (let anys = decode_status_details status.details in
          text "ERROR:\n  Code: "
          ++ (status_code_name status.code
              ++ (text "\n  Message: "
                  ++ (status.message
                      ++ (text "\n"
                          ++ (if is_empty status.details
                              then []
                              else if is_empty anys
                              then []
                              else text "  Details:\n" ++ write_details formatter 0 anys))))))
