-- ===== src/Format/Requests/Progress.antt =====
-- Each message moves the parser on, so that reading all of them ends; and the parser counts them.
use grpcurl_rs.Base.{
  ℕ, zero, suc, ◌+◌, ◌-◌, ◌<◌, ◌≤◌, Text, trim, trim_start, List, [], ◌∷◌, ◌++◌, true, false,
  Option, some, if◌then◌else◌, is_empty, length, length-append, length-drop, drop, ◌==◌, ◌≡◌, ◌⊎◌,
  refl, arith, inl, inr, Bool-cases,
}
use grpcurl_rs.Error.{GrpcurlError, Result, done, fail}
use grpcurl_rs.Format.{Format, json, text_format, FormatOptions}
use grpcurl_rs.Format.Requests.{
  Item, value, malformed, nothing, Codec, Next, parsed, eof, error, JsonRequestParser,
  TextRequestParser, RequestParser, json_parser, text_parser, new_json, new_text, json_next_item,
  json_next, cut_record, text_next_record, text_next, next, num_requests, new_parser, collect,
  Takes,
}

length-trim_start : (s : Text) → length (trim_start s) ≤ length s
unfolding trim_start
length-trim_start [] = omega arith
length-trim_start (c ∷ s) = ground (arith, length-trim_start s)

trim_nil : is_empty (trim []) ≡ true
unfolding trim
trim_nil = refl

some_length : (s : Text) → is_empty s ≡ false → 0 < length s
some_length [] h = cc
some_length (c ∷ s) h = omega arith

length_of_trim : (s : Text) → is_empty (trim s) ≡ false → 0 < length s
length_of_trim [] h = let t = trim_nil in cc
length_of_trim (c ∷ s) h = omega arith

module _ {Message Value : Type 0} (codec : Codec Message Value) (takes : Takes codec) where
  -- What is left to read; a text parser that has read nothing owes one message.
  abbrev pub remaining : RequestParser → ℕ
  remaining (json_parser p) = length p.source - p.offset
  remaining (text_parser p) = (length p.source - p.offset) + (if p.num_requests == 0 then 1 else 0)

  abbrev Advances : RequestParser → RequestParser → Type 0
  Advances p q = (remaining q < remaining p) × (num_requests codec q ≡ num_requests codec p + 1)

  cut_record_takes : (s : Text) → 0 < length s → 1 ≤ (cut_record codec s).1
  unfolding cut_record
  cut_record_takes s h = ground arith

  text_next_record-Advances :
      (p : TextRequestParser) (cut : Text × ℕ) {m : Message}
      → p.offset < length p.source
      → 1 ≤ cut.1
      → (text_next_record codec p cut).0 ≡ parsed m
      → Advances (text_parser p) (text_parser (text_next_record codec p cut).1)
  unfolding text_next_record num_requests
  text_next_record-Advances p cut h k e = ground arith

  text_next-Advances :
      (p : TextRequestParser) {m : Message}
      → (text_next codec p).0 ≡ parsed m
      → Advances (text_parser p) (text_parser (text_next codec p).1)
  unfolding text_next num_requests
  text_next-Advances p e = elim (Bool-cases (is_empty (trim (drop p.offset p.source)))) [
    | inl blank ↦ ground arith
    | inr more ↦
        let left = length_of_trim (drop p.offset p.source) more in
        let len = length-drop p.offset p.source in
        rw (more, text_next)
          (text_next_record-Advances p (cut_record codec (drop p.offset p.source)) (omega arith)
            (cut_record_takes (drop p.offset p.source) left) (rw (more, text_next) at e))
  ]

  json_next_item_advances :
      (p : JsonRequestParser) (item : Item Value) (most : ℕ) {m : Message}
      → ((v : Value) (n : ℕ) → item ≡ value v n → (1 ≤ n) × (n ≤ most))
      → (json_next_item codec p item).0 ≡ parsed m
      → let q = (json_next_item codec p item).1 in
        (p.offset < q.offset) × (q.num_requests ≡ p.num_requests + 1) × (q.source ≡ p.source)
  unfolding json_next_item
  json_next_item_advances p (value v n) most bound e =
      let b = bound v n refl in (omega arith, refl, refl)
  json_next_item_advances p (malformed t) most bound e = cc
  json_next_item_advances p nothing most bound e = cc

  json_next-Advances :
      (p : JsonRequestParser) {m : Message}
      → (json_next codec p).0 ≡ parsed m
      → Advances (json_parser p) (json_parser (json_next codec p).1)
  unfolding json_next num_requests
  json_next-Advances p e =
      let rest = drop p.offset p.source in
      let trimmed = trim_start rest in
      elim (Bool-cases (is_empty trimmed)) [
        | inl blank ↦ ground arith
        | inr more ↦
            let left = some_length trimmed more in
            let shorter = length-trim_start rest in
            let len = length-drop p.offset p.source in
            let (moved, counted, same) =
              json_next_item_advances
                (record p { offset = p.offset + (length rest - length trimmed) })
                (codec.json_item trimmed) (length trimmed) (takes trimmed)
                (rw (more, json_next) at e) in
            rw (more, json_next) (rw same (omega arith), counted)
      ]

  next-Advances :
      (p : RequestParser) {m : Message} → (next codec p).0 ≡ parsed m → Advances p (next codec p).1
  unfolding next
  next-Advances (json_parser p) e = json_next-Advances p e
  next-Advances (text_parser p) e = text_next-Advances p e

  Next-cases :
      (n : Next Message)
      → ((m : Message) × (n ≡ parsed m)) ⊎ (n ≡ eof) ⊎ ((e : GrpcurlError) × (n ≡ error e))
  Next-cases (parsed m) = inl (m, refl)
  Next-cases eof = inr (inl refl)
  Next-cases (error e) = inr (inr (e, refl))

  -- What a finished loop has read, from a parser `p` with the messages `ms` read before.
  abbrev IsCounted : RequestParser → List Message → Result (List Message) × RequestParser → Type 0
  IsCounted p ms (done out, q) =
      num_requests codec q + length ms ≡ num_requests codec p + length out
  IsCounted p ms (fail e, q) = Unit

  json_next_item_eof :
      (p : JsonRequestParser) (item : Item Value)
      → (json_next_item codec p item).0 ≡ eof
      → (json_next_item codec p item).1 ≡ p
  unfolding json_next_item
  json_next_item_eof p (value v n) e = ground arith
  json_next_item_eof p (malformed t) e = cc
  json_next_item_eof p nothing e = refl

  eof_keeps_count :
      (p : RequestParser)
      → (next codec p).0 ≡ eof
      → num_requests codec (next codec p).1 ≡ num_requests codec p
  unfolding next num_requests
  eof_keeps_count (json_parser p) e =
      unfold json_next in
      ground (arith, json_next_item_eof _ (codec.json_item (trim_start (drop p.offset p.source))))
  eof_keeps_count (text_parser p) e = unfold text_next text_next_record in ground arith

  IsCounted-step :
      (p p' : RequestParser) (ms : List Message) (m : Message)
      (r : Result (List Message) × RequestParser)
      → num_requests codec p' ≡ num_requests codec p + 1
      → IsCounted p' (ms ++ m ∷ []) r
      → IsCounted p ms r
  IsCounted-step p p' ms m (done out, q) e c = omega (arith, length-append ms (m ∷ []))
  IsCounted-step p p' ms m (fail x, q) e c = tt

  -- With more fuel than there is left to read, the loop ends.
  pub collect_total :
      (fuel : ℕ) (p : RequestParser) (ms : List Message)
      → remaining p < fuel
      → (r : Result (List Message) × RequestParser) × (collect codec fuel p ms ≡ some r)
        × IsCounted p ms r
  unfolding collect
  collect_total zero p ms h = absurd (omega arith)
  collect_total (suc fuel) p ms h = elim (Next-cases (next codec p).0) [
    | inl (m, e) ↦
        let (less, counted) = next-Advances p e in
        let (r, ends, c) = collect_total fuel (next codec p).1 (ms ++ m ∷ []) (omega arith) in
        (r, rw (e, collect) ends, IsCounted-step p (next codec p).1 ms m r counted c)
    | inr (inl e) ↦
        ((done ms, (next codec p).1), rw (e, collect), omega (arith, eof_keeps_count p e))
    | inr (inr (err, e)) ↦ ((fail err, (next codec p).1), rw (e, collect), tt)
  ]

  new_parser_fresh :
      (stdin : Result Text) (format : Format) (payload : Option Text) (options : FormatOptions)
      (p : RequestParser)
      → new_parser codec stdin format payload options ≡ done p
      → num_requests codec p ≡ 0
  unfolding new_parser new_json new_text num_requests
  new_parser_fresh stdin json payload options p e = ground arith
  new_parser_fresh stdin text_format payload options p e = ground arith

  -- Where each value takes a character at least and no more than there are, reading all messages
  -- from a new parser ends, with fuel above what is left to read, and where
  -- it succeeds the parser's count of requests is the number of messages read.
  pub collect_all_total :
      (stdin : Result Text) (format : Format) (payload : Option Text) (options : FormatOptions)
      (p : RequestParser) (fuel : ℕ)
      → new_parser codec stdin format payload options ≡ done p
      → remaining p < fuel
      → (r : Result (List Message)) × (q : RequestParser) × (collect codec fuel p [] ≡ some (r, q))
        × ((out : List Message) → r ≡ done out → num_requests codec q ≡ length out)
  collect_all_total stdin format payload options p fuel e h =
      let (r, ends, c) = collect_total fuel p [] h in
      (
        r.0,
        r.1,
        ends,
        λ out k. counted_of r.0 r.1 out k c (new_parser_fresh stdin format payload options p e),
      )
    where
      counted_of :
          (r : Result (List Message)) (q : RequestParser) (out : List Message)
          → r ≡ done out
          → IsCounted p [] (r, q)
          → num_requests codec p ≡ 0
          → num_requests codec q ≡ length out
      counted_of (done o) q out k c z = let same : o ≡ out = cc in rw (← same) (omega arith)
      counted_of (fail x) q out k c z = cc
