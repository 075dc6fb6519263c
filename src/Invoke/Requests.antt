-- ===== src/Invoke/Requests.antt =====
-- The requests that a call with one request accepts.
use grpcurl_rs.Base.{
  ℕ, zero, suc, Text, List, [], ◌∷◌, ◌++◌, append_assoc, append-nil, Option, some, ◌≡◌, refl, sym,
  ◌∙◌, arith,
}
use grpcurl_rs.Error.{Result, done, fail, of_grpcurl, of_message}
use grpcurl_rs.Format.Requests.{Codec, Next, parsed, eof, error, RequestParser, next, collect}
use grpcurl_rs.Invoke.Method.{Ended, returned, raised}
use grpcurl_rs.Invoke.Calls.{single_request, single_second, single_from}

-- What a call with one request makes of the messages of its data.
abbrev pub only_message : {Message : Type 0} → Text → Message → List Message → Ended Message
only_message refusal m [] = returned m
only_message refusal m (n ∷ rest) = raised (of_message refusal)

module _ {Message Value : Type 0} (codec : Codec Message Value) where
  abbrev collect_after :
      ℕ
      → List Message
      → Next Message × RequestParser
      → Option (Result (List Message) × RequestParser)
  collect_after fuel read (parsed m, p) = collect codec fuel p (read ++ m ∷ [])
  collect_after fuel read (eof, p) = some (done read, p)
  collect_after fuel read (error e, p) = some (fail e, p)

  collect_unfolds :
      (fuel : ℕ) (p : RequestParser) (read : List Message)
      → collect codec (suc fuel) p read ≡ collect_after fuel read (next codec p)
  unfolding collect
  collect_unfolds fuel p read = by_step (next codec p)
    where
      by_step :
          (x : Next Message × RequestParser)
          → (elim x.0 [
            | parsed m ↦ collect codec fuel x.1 (read ++ m ∷ [])
            | eof ↦ some (done read, x.1)
            | error e ↦ some (fail e, x.1)
          ])
            ≡ collect_after fuel read x
      by_step (parsed m, p') = refl
      by_step (eof, p') = refl
      by_step (error e, p') = refl

  abbrev Extends : ℕ → Type 0
  Extends fuel =
      (p : RequestParser) (read whole : List Message) (q : RequestParser)
      → collect codec fuel p read ≡ some (done whole, q)
      → (more : List Message) × (whole ≡ read ++ more)

  prefix_after :
      (fuel : ℕ) (x : Next Message × RequestParser) (read whole : List Message) (q : RequestParser)
      → Extends fuel
      → collect_after fuel read x ≡ some (done whole, q)
      → (more : List Message) × (whole ≡ read ++ more)
  prefix_after fuel (parsed m, p) read whole q extends e =
      let (more, same) = extends p (read ++ m ∷ []) whole q e in
      (m ∷ more, same ∙ append_assoc read (m ∷ []) more)
  prefix_after fuel (eof, p) read whole q extends e =
      let same : read ≡ whole = ground (arith, e) in ([], sym same ∙ sym (append-nil read))
  prefix_after fuel (error f, p) read whole q extends e = cc

  -- The loop only adds to what it has read.
  collect_prefix : (fuel : ℕ) → Extends fuel
  unfolding collect
  collect_prefix zero p read whole q e = cc
  collect_prefix (suc fuel) p read whole q e =
      prefix_after fuel (next codec p) read whole q (collect_prefix fuel)
        (sym (collect_unfolds fuel p read) ∙ e)

  abbrev single_after : Text → Message → Next Message → Ended Message
  single_after refusal m (parsed n) = raised (of_message refusal)
  single_after refusal m (eof) = returned m
  single_after refusal m (error e) = raised (of_grpcurl e)

  second_only :
      (fuel : ℕ) (refusal : Text) (y : Next Message × RequestParser) (n m : Message)
      (rest : List Message) (q : RequestParser)
      → collect_after fuel (n ∷ []) y ≡ some (done (m ∷ rest), q)
      → single_after refusal n y.0 ≡ only_message refusal m rest
  second_only fuel refusal (parsed k, p) n m rest q e =
      let (more, same) = collect_prefix fuel p (n ∷ k ∷ []) (m ∷ rest) q e in
      let two : rest ≡ k ∷ more = ground (arith, same) in rw two
  second_only fuel refusal (eof, p) n m rest q e =
      let one : m ≡ n = ground (arith, e) in
      let none_left : rest ≡ [] = ground (arith, e) in rw (one, none_left)
  second_only fuel refusal (error f, p) n m rest q e = cc

  first_read :
      (fuel : ℕ) (refusal : Text) (n : Message) (p : RequestParser) (m : Message)
      (rest : List Message) (q : RequestParser)
      → collect codec fuel p (n ∷ []) ≡ some (done (m ∷ rest), q)
      → (single_second codec refusal n (next codec p)).0 ≡ only_message refusal m rest
  unfolding collect
  first_read zero refusal n p m rest q e = cc
  first_read (suc fuel) refusal n p m rest q e =
      second_of (next codec p) n refusal
      ∙ second_only fuel refusal (next codec p) n m rest q
          (sym (collect_unfolds fuel p (n ∷ [])) ∙ e)
    where
      second_of :
          (y : Next Message × RequestParser) (k : Message) (t : Text)
          → (single_second codec t k y).0 ≡ single_after t k y.0
      second_of (parsed _, p') k t = refl
      second_of (eof, p') k t = refl
      second_of (error _, p') k t = refl

  first_only :
      (fuel : ℕ) (refusal : Text) (x : Next Message × RequestParser) (m : Message)
      (rest : List Message) (q : RequestParser)
      → collect_after fuel [] x ≡ some (done (m ∷ rest), q)
      → (single_from codec refusal x).0 ≡ only_message refusal m rest
  unfolding single_from
  first_only fuel refusal (parsed n, p) m rest q e = first_read fuel refusal n p m rest q e
  first_only fuel refusal (eof, p) m rest q e = cc
  first_only fuel refusal (error f, p) m rest q e = cc

  -- The data that reads as a list of at least one message, as a streaming call reads it, is accepted
  -- by a call with one request when the list has one; with more, the call is refused.
  pub single_request-collect :
      (fuel : ℕ) (refusal : Text) (p : RequestParser) (m : Message) (rest : List Message)
      (q : RequestParser)
      → collect codec fuel p [] ≡ some (done (m ∷ rest), q)
      → (single_request codec refusal p).0 ≡ only_message refusal m rest
  unfolding single_request collect
  single_request-collect zero refusal p m rest q e = cc
  single_request-collect (suc fuel) refusal p m rest q e =
      first_only fuel refusal (next codec p) m rest q (sym (collect_unfolds fuel p []) ∙ e)
