-- ===== src/Tests/Requests.antt =====
-- Runs of the theorems on request data.
use grpcurl_rs.Base.{
  ℕ, Text, text, join, List, [], ◌∷◌, ◌++◌, length, drop, is_blank, true, false, some, ◌≡◌, refl,
  arith, is_whitespace, trim, text_eq,
}
use grpcurl_rs.Error.{Result, done}
use grpcurl_rs.Format.{text_format, FormatOptions}
use grpcurl_rs.Format.Requests.{
  Item, value, nothing, message, Codec, TextRequestParser, RequestParser, text_parser, separator,
  num_requests, new_parser, new_text, input, collect, Takes,
}
use grpcurl_rs.Format.Requests.Progress.{collect_all_total}
use grpcurl_rs.Format.Requests.Records.{IsRecord, start, collect-join, collect_stops_at_blank}
use grpcurl_rs.Invoke.Calls.{single_request}
use grpcurl_rs.Invoke.Requests.{only_message, single_request-collect}

-- Each character is a value, and a message is its text.
abbrev one_item : Text → Item ℕ
one_item [] = nothing
one_item (c ∷ s) = value c 1

abbrev pub letters : Codec Text ℕ
letters = record {
  empty_message = [];
  json_item = one_item;
  deserialize = λ strict c. message (c ∷ []);
  parse_text = λ t. message t;
}

pub letters_take : Takes letters
letters_take [] v n e = cc
letters_take (c ∷ s) v n e = ground (arith, e)

abbrev options : FormatOptions
options = record { emit_defaults = false; allow_unknown_fields = false }

abbrev digits : TextRequestParser
digits = record { source = b'7' ∷ b'8' ∷ []; offset = 0; num_requests = 0 }

fresh :
    new_parser letters (done []) text_format (some (b'7' ∷ b'8' ∷ [])) options
    ≡ done (text_parser digits)
unfolding new_parser new_text input text_eq text
fresh = refl

collect_all_total_example :
    (r : Result (List Text)) × (q : RequestParser) × (collect letters 4 (text_parser digits) []
      ≡ some (r, q))
    × ((out : List Text) → r ≡ done out → num_requests letters q ≡ length out)
collect_all_total_example =
    collect_all_total letters letters_take (done []) text_format (some (b'7' ∷ b'8' ∷ [])) options
      (text_parser digits) 4 fresh (omega arith)

seven_IsRecord : IsRecord (b'7' ∷ [])
unfolding is_blank is_whitespace
seven_IsRecord = record { filled = refl; whole = (refl, tt) }

eight_IsRecord : IsRecord (b'8' ∷ [])
unfolding is_blank is_whitespace
eight_IsRecord = record { filled = refl; whole = (refl, tt) }

seven_read : letters.parse_text (trim (b'7' ∷ [])) ≡ message (b'7' ∷ [])
unfolding trim is_whitespace
seven_read = refl

eight_read : letters.parse_text (trim (b'8' ∷ [])) ≡ message (b'8' ∷ [])
unfolding trim is_whitespace
eight_read = refl

collect-join_example :
    (q : RequestParser) × (collect letters 5
        (text_parser (start (join (separator ∷ []) ((b'7' ∷ []) ∷ (b'8' ∷ []) ∷ []))))
        []
      ≡ some (done ((b'7' ∷ []) ∷ (b'8' ∷ []) ∷ []), q))
collect-join_example =
    collect-join letters (b'7' ∷ []) (b'7' ∷ []) ((b'8' ∷ [], b'8' ∷ []) ∷ []) 5
      ((seven_IsRecord, seven_read), ((eight_IsRecord, eight_read), tt)) (omega arith)

blank_space : is_blank (b' ' ∷ []) ≡ true
unfolding is_blank is_whitespace
blank_space = refl

collect_stops_at_blank_example :
    (q : TextRequestParser) × (collect letters 2
        (text_parser (start ((b'7' ∷ []) ++ separator ∷ ((b' ' ∷ []) ++ separator ∷ (b'8' ∷ [])))))
        []
      ≡ some (done ((b'7' ∷ []) ∷ []), text_parser q))
    × (drop q.offset q.source ≡ b'8' ∷ [])
collect_stops_at_blank_example =
    collect_stops_at_blank letters (b'7' ∷ []) (b' ' ∷ []) (b'8' ∷ []) (b'7' ∷ []) 2
      (seven_IsRecord, seven_read) blank_space (refl, tt) (omega arith)

abbrev DigitsRead : Type 0
DigitsRead =
    (q : RequestParser) × (collect letters 5
        (text_parser (start (join (separator ∷ []) ((b'7' ∷ []) ∷ (b'8' ∷ []) ∷ [])))) []
      ≡ some (done ((b'7' ∷ []) ∷ (b'8' ∷ []) ∷ []), q))

both_read : DigitsRead
both_read =
    collect-join letters (b'7' ∷ []) (b'7' ∷ []) ((b'8' ∷ [], b'8' ∷ []) ∷ []) 5
      ((seven_IsRecord, seven_read), ((eight_IsRecord, eight_read), tt)) (omega arith)

single_request-collect_example :
    (single_request letters
      (text "one only")
      (text_parser (start (join (separator ∷ []) ((b'7' ∷ []) ∷ (b'8' ∷ []) ∷ []))))).0
    ≡ only_message (text "one only") (b'7' ∷ []) ((b'8' ∷ []) ∷ [])
single_request-collect_example =
    single_request-collect letters 5 (text "one only")
      (text_parser (start (join (separator ∷ []) ((b'7' ∷ []) ∷ (b'8' ∷ []) ∷ [])))) (b'7' ∷ [])
      ((b'8' ∷ []) ∷ []) both_read.0 both_read.1
