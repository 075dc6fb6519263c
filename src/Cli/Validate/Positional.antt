-- ===== src/Cli/Validate/Positional.antt =====
-- The positional arguments that `parse_positional` accepts.
use grpcurl_rs.Base.{
  Text, text, text_eq, text_eq_iff, text_eq_sound, text_eq_refl, List, [], ◌∷◌, ◌++◌, Bool, true,
  false, Option, none, some, ◌≡◌, ◌≢◌, ◌⊎◌, ◌↔◌, inl, inr, refl, arith, Bool-cases, ap,
}
use grpcurl_rs.Cli.{Cli, ParsedArgs, Command, list, describe, invoke}
use grpcurl_rs.Cli.Validate.{
  accept, reject, Check, ◌>>=◌, warn_unused, take_symbol, take_command, parse_positional,
}
use grpcurl_rs.Cli.Validate.Rules.{verb, words, render, IsNoVerb, IsWellFormed}

pub >>=-eq-accept :
    {A B : Type 0} (m : Check A) (k : A → Check B) {b : B}
    → (m >>= k).1 ≡ accept b
    → (a : A) × (m.1 ≡ accept a) × ((k a).1 ≡ accept b)
>>=-eq-accept (ws, accept a) k h = (a, refl, h)
>>=-eq-accept (ws, reject msg) k h = cc

pub >>=-accept :
    {A B : Type 0} (m : Check A) (k : A → Check B) {a : A} {b : B}
    → m.1 ≡ accept a
    → (k a).1 ≡ accept b
    → (m >>= k).1 ≡ accept b
>>=-accept (ws, accept c) k {a} h e = let same : c ≡ a = cc in rw same e
>>=-accept (ws, reject msg) k h e = cc

describe_is_not_list : text_eq (text "describe") (text "list") ≡ false
unfolding text text_eq
describe_is_not_list = refl

ne_of_text_eq : (s t : Text) → text_eq s t ≡ false → s ≢ t
ne_of_text_eq s t h e = ground (arith, text_eq_iff s t)

pub text_eq_of_eq : {s t : Text} → s ≡ t → text_eq s t ≡ true
text_eq_of_eq {s} {t} e = (text_eq_iff s t).1 e

text_eq_of_ne : (s t : Text) → s ≢ t → text_eq s t ≡ false
text_eq_of_ne s t h = ground (arith, text_eq_iff s t)

module _ {Seconds : Type 0} (lt_zero : Seconds → Bool) (cli : Cli Seconds) where
  take_symbol-words :
      (rest : List Text) (o : Option Text)
      → ((take_symbol lt_zero cli rest).1 ≡ accept o) ↔ (rest ≡ words o)
  unfolding take_symbol warn_unused
  take_symbol-words [] none = (λ h. refl, λ h. refl)
  take_symbol-words [] (some t) = (λ h. cc, λ h. cc)
  take_symbol-words (s ∷ []) none = (λ h. cc, λ h. cc)
  take_symbol-words (s ∷ []) (some t) = (λ h. cc, λ h. cc)
  take_symbol-words (s ∷ t ∷ r) none = (λ h. cc, λ h. cc)
  take_symbol-words (s ∷ t ∷ r) (some u) = (λ h. cc, λ h. cc)

  abbrev parsed : Option Text → Command → Option Text → ParsedArgs
  parsed address command symbol = record { address = address; command = command; symbol = symbol }

  -- What the arguments behind the address must be.
  abbrev IsParse : List Text → Command → Option Text → Type 0
  IsParse rest command symbol =
      (rest ≡ verb command ++ words symbol) × (command ≡ invoke → IsNoVerb symbol × (symbol ≢ none))

  abbrev Parses : Option Text → List Text → ParsedArgs → Type 0
  Parses address rest p =
      (command : Command) × (symbol : Option Text) × (p ≡ parsed address command symbol)
      × IsParse rest command symbol

  take_command-Parses :
      (address : Option Text) (rest : List Text) (p : ParsedArgs)
      → (take_command lt_zero cli address rest).1 ≡ accept p
      → Parses address rest p
  unfolding take_command
  take_command-Parses address [] p h = cc
  take_command-Parses address (word ∷ r) p h = elim (Bool-cases (text_eq word (text "list"))) [
    | inl e ↦
        let (o, t, k) = >>=-eq-accept (take_symbol lt_zero cli r) _ (rw e at h) in
        (
          list,
          o,
          cc,
          (cc (text_eq_sound word (text "list") e, (take_symbol-words r o).0 t), λ x. cc),
        )
    | inr e ↦ elim (Bool-cases (text_eq word (text "describe"))) [
      | inl d ↦
          let (o, t, k) = >>=-eq-accept (take_symbol lt_zero cli r) _ (rw (e, d) at h) in
          (
            describe,
            o,
            cc,
            (cc (text_eq_sound word (text "describe") d, (take_symbol-words r o).0 t), λ x. cc),
          )
      | inr d ↦ (
        invoke,
        some word,
        ground arith,
        (ground arith, λ x. ((ne_of_text_eq word _ e, ne_of_text_eq word _ d), λ y. cc)),
      )
    ]
  ]

  take_command-accept :
      (address : Option Text) (rest : List Text) (command : Command) (symbol : Option Text)
      → IsParse rest command symbol
      → (take_command lt_zero cli address rest).1 ≡ accept (parsed address command symbol)
  unfolding take_command
  take_command-accept address rest list o (e, plain) =
      rw (e, text_eq_refl (text "list"))
        (>>=-accept (take_symbol lt_zero cli (words o)) _ ((take_symbol-words (words o) o).1 refl)
          refl)
  take_command-accept address rest describe o (e, plain) =
      rw (e, describe_is_not_list, text_eq_refl (text "describe"))
        (>>=-accept (take_symbol lt_zero cli (words o)) _ ((take_symbol-words (words o) o).1 refl)
          refl)
  take_command-accept address rest invoke none (e, plain) = absurd ((plain refl).1 refl)
  take_command-accept address rest invoke (some word) (e, plain) =
      let (l, d) = (plain refl).0 in rw (e, text_eq_of_ne word _ l, text_eq_of_ne word _ d)

  verb_of_first :
      (first : Text) (rest : List Text) (command : Command) (symbol : Option Text)
      → IsParse (first ∷ rest) command symbol
      → (first ≡ text "list") ⊎ (first ≡ text "describe")
      → command ≢ invoke
  verb_of_first first rest list symbol (e, plain) v i = cc
  verb_of_first first rest describe symbol (e, plain) v i = cc
  verb_of_first first rest invoke none (e, plain) v i = (plain refl).1 refl
  verb_of_first first rest invoke (some word) (e, plain) (inl v) i =
      (plain refl).0.0 (let same : first ≡ word = cc in cc (same, v))
  verb_of_first first rest invoke (some word) (e, plain) (inr v) i =
      (plain refl).0.1 (let same : first ≡ word = cc in cc (same, v))

  unaddressed :
      (first : Text) (rest : List Text) (p : ParsedArgs)
      → (first ≡ text "list") ⊎ (first ≡ text "describe")
      → (take_command lt_zero cli none (first ∷ rest)).1 ≡ accept p
      → IsWellFormed p × (first ∷ rest ≡ render p)
  unaddressed first rest p v h =
      let (command, symbol, pe, ie) = take_command-Parses none (first ∷ rest) p h in
      let no_call = verb_of_first first rest command symbol ie v in
      rw pe (
        record {
          address_plain = tt;
          method_plain = λ i. absurd (no_call i);
          method_given = λ i. absurd (no_call i);
          address_given = λ i. absurd (no_call i);
        },
        ie.0,
      )

  pub parse_positional_sound :
      (args : List Text) (p : ParsedArgs)
      → (parse_positional lt_zero cli args).1 ≡ accept p
      → IsWellFormed p × (args ≡ render p)
  unfolding parse_positional
  parse_positional_sound [] p h = cc
  parse_positional_sound (first ∷ rest) p h = elim (Bool-cases (text_eq first (text "list"))) [
    | inl e ↦ unaddressed first rest p (inl (text_eq_sound _ _ e)) (rw e at h)
    | inr e ↦ elim (Bool-cases (text_eq first (text "describe"))) [
      | inl d ↦ unaddressed first rest p (inr (text_eq_sound _ _ d)) (rw (e, d) at h)
      | inr d ↦
          let (command, symbol, pe, ie) =
            take_command-Parses (some first) rest p (rw (e, d) at h) in
          rw pe (
            record {
              address_plain = (ne_of_text_eq first _ e, ne_of_text_eq first _ d);
              method_plain = λ i. (ie.1 i).0;
              method_given = λ i. (ie.1 i).1;
              address_given = λ i n. cc;
            },
            ap (◌∷◌ first) ie.0,
          )
    ]
  ]

  parse_positional_complete :
      (address : Option Text) (command : Command) (symbol : Option Text)
      → IsWellFormed (parsed address command symbol)
      → (parse_positional lt_zero cli (render (parsed address command symbol))).1
        ≡ accept (parsed address command symbol)
  unfolding parse_positional
  parse_positional_complete (some a) command symbol w =
      rw (text_eq_of_ne a _ w.address_plain.0, text_eq_of_ne a _ w.address_plain.1)
        (take_command-accept (some a) _ command symbol
          (refl, λ i. (w.method_plain i, w.method_given i)))
  parse_positional_complete none list symbol w =
      rw (text_eq_refl (text "list")) (take_command-accept none _ list symbol (refl, λ i. cc))
  parse_positional_complete none describe symbol w =
      rw (describe_is_not_list, text_eq_refl (text "describe"))
        (take_command-accept none _ describe symbol (refl, λ i. cc))
  parse_positional_complete none invoke symbol w = absurd (w.address_given refl refl)

  pub positional_accept :
      (args : List Text) (p : ParsedArgs)
      → IsWellFormed p
      → args ≡ render p
      → (parse_positional lt_zero cli args).1 ≡ accept p
  positional_accept args p w e = rw e (parse_positional_complete p.address p.command p.symbol w)
