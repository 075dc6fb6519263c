-- ===== src/Format/Requests/Records.antt =====
-- What the text parser makes of data that the record separator divides.
use grpcurl_rs.Base.{
  ℕ, zero, suc, ◌+◌, ◌<◌, Text, trim, split_once_found, split_once-none, Lacks, join, List, [], ◌∷◌,
  ◌++◌, true, false, some, is_blank, is_blank-append, is_empty-trim, length, drop, drop-drop,
  drop-append, All, ◌==◌, ◌≡◌, refl, sym, ap, ◌∙◌, arith, is_whitespace, append-nil, append_assoc,
}
use grpcurl_rs.Error.{done, fail}
use grpcurl_rs.Format.Requests.{
  message, Codec, Next, parsed, eof, error, TextRequestParser, RequestParser, text_parser,
  separator, cut_record, text_next_record, text_next, next, collect,
}

-- A record with content, and no separator in it.
pub record IsRecord (t : Text) : Type 0 where
  pub filled : is_blank t ≡ false
  pub whole : Lacks separator t

abbrev pub start : Text → TextRequestParser
start source = record { source = source; offset = 0; num_requests = 0 }

separator_is_no_space : is_whitespace separator ≡ false
unfolding is_whitespace
separator_is_no_space = refl

is_blank_with_separator : (s t : Text) → is_blank (s ++ separator ∷ t) ≡ false
is_blank_with_separator s t =
    is_blank-append s (separator ∷ t) ∙ unfold is_blank in ground (arith, separator_is_no_space)

module _ {Message Value : Type 0} (codec : Codec Message Value) where
  cut_at_separator :
      (s t : Text) → Lacks separator s → cut_record codec (s ++ separator ∷ t) ≡ (s, length s + 1)
  unfolding cut_record
  cut_at_separator s t h = rw (split_once_found separator s t h, cut_record)

  cut_at_end : (s : Text) → Lacks separator s → cut_record codec s ≡ (s, length s)
  unfolding cut_record
  cut_at_end s h = rw (split_once-none separator s h, cut_record)

  -- A record that is read, wherever it ends.
  text_next_filled :
      (p : TextRequestParser) (s : Text) (n : ℕ) (m : Message)
      → IsRecord s
      → codec.parse_text (trim s) ≡ message m
      → text_next_record codec p (s, n)
        ≡ (parsed m, record p { offset = p.offset + n; num_requests = p.num_requests + 1 })
  unfolding text_next_record
  text_next_filled p s n m r e = rw (is_empty-trim s ∙ r.filled, e)

  text_next_at :
      (p : TextRequestParser) (s t : Text) (m : Message)
      → drop p.offset p.source ≡ s ++ separator ∷ t
      → IsRecord s
      → codec.parse_text (trim s) ≡ message m
      → text_next codec p ≡ (
        parsed m,
        record p { offset = p.offset + (length s + 1); num_requests = p.num_requests + 1 },
      )
  unfolding text_next
  text_next_at p s t m e r k =
      rw
        (
          e,
          is_empty-trim (s ++ separator ∷ t) ∙ is_blank_with_separator s t,
          cut_at_separator s t r.whole,
        )
        (text_next_filled p s (length s + 1) m r k)

  text_next_last :
      (p : TextRequestParser) (s : Text) (m : Message)
      → drop p.offset p.source ≡ s
      → IsRecord s
      → codec.parse_text (trim s) ≡ message m
      → text_next codec p
        ≡ (parsed m, record p { offset = p.offset + length s; num_requests = p.num_requests + 1 })
  unfolding text_next
  text_next_last p s m e r k =
      rw (e, is_empty-trim s ∙ r.filled, cut_at_end s r.whole)
        (text_next_filled p s (length s) m r k)

  text_next_blank :
      (p : TextRequestParser)
      → is_blank (drop p.offset p.source) ≡ true
      → (p.num_requests == 0) ≡ false
      → text_next codec p ≡ (eof, p)
  unfolding text_next
  text_next_blank p e n = rw (is_empty-trim (drop p.offset p.source) ∙ e, n)

  -- A blank record behind another one ends the reading.
  text_next_empty_record :
      (p : TextRequestParser) (blank t : Text)
      → drop p.offset p.source ≡ blank ++ separator ∷ t
      → is_blank blank ≡ true
      → Lacks separator blank
      → (p.num_requests == 0) ≡ false
      → text_next codec p ≡ (eof, record p { offset = p.offset + (length blank + 1) })
  unfolding text_next text_next_record
  text_next_empty_record p blank t e b l n = rw (
    e,
    is_empty-trim (blank ++ separator ∷ t) ∙ is_blank_with_separator blank t,
    cut_at_separator blank t l,
    is_empty-trim blank ∙ b,
    n,
  )

  drop_past :
      (p : TextRequestParser) (s t : Text)
      → drop p.offset p.source ≡ s ++ separator ∷ t
      → drop (p.offset + (length s + 1)) p.source ≡ t
  drop_past p s t e =
      sym (drop-drop (length s + 1) p.offset p.source)
      ∙ ap (drop (length s + 1)) e
      ∙ sym (drop-drop 1 (length s) (s ++ separator ∷ t))
      ∙ ap (drop 1) (drop-append s (separator ∷ t))

  abbrev Reads : Text × Message → Type 0
  Reads (s, m) = IsRecord s × (codec.parse_text (trim s) ≡ message m)

  abbrev firsts : List (Text × Message) → List Text
  firsts [] = []
  firsts ((s, m) ∷ l) = s ∷ firsts l

  abbrev seconds : List (Text × Message) → List Message
  seconds [] = []
  seconds ((s, m) ∷ l) = m ∷ seconds l

  next_of_text :
      (p p' : TextRequestParser) (n : Next Message)
      → text_next codec p ≡ (n, p')
      → next codec (text_parser p) ≡ (n, text_parser p')
  unfolding next
  next_of_text p p' n e = rw (e, next)

  collect_step :
      (fuel : ℕ) (p p' : TextRequestParser) (read : List Message) (m : Message)
      → text_next codec p ≡ (parsed m, p')
      → collect codec (suc fuel) (text_parser p) read
        ≡ collect codec fuel (text_parser p') (read ++ m ∷ [])
  unfolding collect
  collect_step fuel p p' read m e =
      ap
        (λ (x : Next Message × RequestParser). elim x.0 [
          | parsed m' ↦ collect codec fuel x.1 (read ++ m' ∷ [])
          | eof ↦ some (done read, x.1)
          | error e' ↦ some (fail e', x.1)
        ])
        (next_of_text p p' (parsed m) e)

  collect_stop :
      (fuel : ℕ) (p p' : TextRequestParser) (read : List Message)
      → text_next codec p ≡ (eof, p')
      → collect codec (suc fuel) (text_parser p) read ≡ some (done read, text_parser p')
  unfolding collect
  collect_stop fuel p p' read e =
      ap
        (λ (x : Next Message × RequestParser). elim x.0 [
          | parsed m' ↦ collect codec fuel x.1 (read ++ m' ∷ [])
          | eof ↦ some (done read, x.1)
          | error e' ↦ some (fail e', x.1)
        ])
        (next_of_text p p' eof e)

  drop_all :
      (p : TextRequestParser) (s : Text)
      → drop p.offset p.source ≡ s
      → is_blank (drop (p.offset + length s) p.source) ≡ true
  unfolding is_blank
  drop_all p s e = ap is_blank (
      sym (drop-drop (length s) p.offset p.source)
      ∙ ap (drop (length s)) (e ∙ sym (append-nil s))
      ∙ drop-append s [])

  not_zero : (n : ℕ) → (n + 1 == 0) ≡ false
  not_zero n = ground arith

  collect_records :
      (fuel : ℕ) (p : TextRequestParser) (read : List Message) (l : List (Text × Message))
      (s : Text) (m : Message)
      → length l + 1 < fuel
      → drop p.offset p.source ≡ join (separator ∷ []) (s ∷ firsts l)
      → Reads (s, m)
      → All Reads l
      → (q : RequestParser) × (collect codec fuel (text_parser p) read
          ≡ some (done (read ++ m ∷ seconds l), q))
  unfolding join
  collect_records zero p read l s m f e r h = absurd (omega arith)
  collect_records (suc zero) p read l s m f e r h = absurd (omega arith)
  collect_records (suc (suc fuel)) p read [] s m f e r h =
      let p' : TextRequestParser = record p {
        offset = p.offset + length s;
        num_requests = p.num_requests + 1;
      } in
      (
        text_parser p',
        collect_step (suc fuel) p p' read m (text_next_last p s m e r.0 r.1)
            ∙ collect_stop fuel p' p' (read ++ m ∷ [])
                (text_next_blank p' (drop_all p s e) (not_zero p.num_requests)),
      )
  collect_records (suc (suc fuel)) p read ((t, n) ∷ l) s m f e r (k, h) =
      let p' : TextRequestParser = record p {
        offset = p.offset + (length s + 1);
        num_requests = p.num_requests + 1;
      } in
      let more = join (separator ∷ []) (t ∷ firsts l) in
      let (q, ends) =
        collect_records (suc fuel) p' (read ++ m ∷ []) l t n (omega arith) (drop_past p s more e) k
          h in
      (
        q,
        collect_step (suc fuel) p p' read m (text_next_at p s more m e r.0 r.1)
            ∙ ends
            ∙ ap (λ out. some (done out, q)) (append_assoc read (m ∷ []) (n ∷ seconds l)),
      )

  -- Data made of records with content that are parsed, joined by the separator, is read as exactly
  -- their messages, in order, with fuel above their number.
  pub collect-join :
      (s : Text) (m : Message) (l : List (Text × Message)) (fuel : ℕ)
      → All Reads ((s, m) ∷ l)
      → length l + 1 < fuel
      → (q : RequestParser) × (collect codec fuel
            (text_parser (start (join (separator ∷ []) (s ∷ firsts l))))
            []
          ≡ some (done (m ∷ seconds l), q))
  collect-join s m l fuel (r, h) f =
      collect_records fuel (start (join (separator ∷ []) (s ∷ firsts l))) [] l s m f refl r h

  -- A blank record behind a first record with content that is parsed ends the reading, with fuel
  -- for two rounds: whatever follows it is not parsed, though the parser still holds it.
  pub collect_stops_at_blank :
      (s blank rest : Text) (m : Message) (fuel : ℕ)
      → Reads (s, m)
      → is_blank blank ≡ true
      → Lacks separator blank
      → 1 < fuel
      → (q : TextRequestParser) × (collect codec fuel
            (text_parser (start (s ++ separator ∷ (blank ++ separator ∷ rest))))
            []
          ≡ some (done (m ∷ []), text_parser q))
        × (drop q.offset q.source ≡ rest)
  collect_stops_at_blank s blank rest m zero r b l f = absurd (omega arith)
  collect_stops_at_blank s blank rest m (suc zero) r b l f = absurd (omega arith)
  collect_stops_at_blank s blank rest m (suc (suc fuel)) r b l f =
      let more = blank ++ separator ∷ rest in
      let p = start (s ++ separator ∷ more) in
      let p' : TextRequestParser = record p { offset = 0 + (length s + 1); num_requests = 0 + 1 } in
      let q : TextRequestParser = record p' { offset = p'.offset + (length blank + 1) } in
      let after = drop_past p s more refl in
      (
        q,
        collect_step (suc fuel) p p' [] m (text_next_at p s more m refl r.0 r.1)
            ∙ collect_stop fuel p' q (m ∷ []) (text_next_empty_record p' blank rest after b l refl),
        drop_past p' blank rest after,
      )
