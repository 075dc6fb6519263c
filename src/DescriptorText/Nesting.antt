-- ===== src/DescriptorText/Nesting.antt =====
-- grpcurl-core/src/descriptor_text.rs: the printing of nested messages ends.
use grpcurl_rs.Base.{ℕ, zero, suc, ◌+◌, ◌<◌, Text, List, [], ◌∷◌, map, some, ◌≡◌, refl, All, arith}
use grpcurl_rs.Descriptor.{Reflect}
use grpcurl_rs.DescriptorText.{Syntax}
use grpcurl_rs.DescriptorText.Entries.{FieldEntry, minimum}
use grpcurl_rs.DescriptorText.ProtoFile.{
  nested_messages, message_entries, file_format_message, message_text,
}

module _ {reflect : Reflect} (syntax : Syntax reflect) (pkg : Text) (rank : reflect.Message → ℕ)
    (nested_below : (msg : reflect.Message)
      → All (λ nested. rank nested < rank msg) (nested_messages syntax pkg msg)) where
  -- The text that a message has with any fuel above its rank.
  abbrev Printed : reflect.Message → Type 0
  Printed msg =
      (t : Text) × ((fuel : ℕ) → rank msg < fuel → file_format_message syntax pkg fuel msg ≡ some t)

  entries-Printed :
      (r : ℕ)
      → ((msg : reflect.Message) → rank msg < r → Printed msg)
      → (msgs : List reflect.Message) → All (λ msg. rank msg < r) msgs
      → (es : List FieldEntry) × ((fuel : ℕ)
          → r < fuel + 1
          → message_entries syntax pkg (file_format_message syntax pkg fuel) msgs ≡ some es)
  entries-Printed r body [] below = ([], λ fuel less. refl)
  entries-Printed r body (msg ∷ msgs) (less, below) =
      let (t, prints) = body msg less in
      let (es, rest) = entries-Printed r body msgs below in
      (
        record { number = minimum (map syntax.field_number (reflect.fields msg)); shown = t } ∷ es,
        λ fuel more. rw (prints fuel (omega arith), rest fuel more) refl,
      )

  message_printed :
      (msg : reflect.Message) (es : List FieldEntry)
      → ((fuel : ℕ)
          → rank msg < fuel + 1
          → message_entries syntax pkg
              (file_format_message syntax pkg fuel)
              (nested_messages syntax pkg msg)
            ≡ some es)
      → (fuel : ℕ) → rank msg < fuel
      → file_format_message syntax pkg fuel msg ≡ some (message_text syntax pkg msg es)
  unfolding file_format_message
  message_printed msg es prints zero less = absurd (omega arith)
  message_printed msg es prints (suc fuel) less = rw (prints fuel (omega arith)) refl

  file_format_message_step : (bound : ℕ) (msg : reflect.Message) → rank msg < bound → Printed msg
  file_format_message_step zero msg less = absurd (omega arith)
  file_format_message_step (suc bound) msg less =
      let (es, prints) =
        entries-Printed (rank msg)
          (λ nested below. file_format_message_step bound nested (omega arith))
          (nested_messages syntax pkg msg) (nested_below msg) in
      (message_text syntax pkg msg es, message_printed msg es prints)

  -- Where a message that is nested in another has a lower rank, each message has one text, which
  -- any fuel above its rank prints: the recursion ends, and the fuel does not show in the text.
  pub file_format_message-ends :
      (msg : reflect.Message)
      → (t : Text) × ((fuel : ℕ)
          → rank msg < fuel
          → file_format_message syntax pkg fuel msg ≡ some t)
  file_format_message-ends msg = file_format_message_step (rank msg + 1) msg (omega arith)
