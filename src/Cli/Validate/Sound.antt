-- ===== src/Cli/Validate/Sound.antt =====
-- `validate` accepts a command line exactly when it meets the rules.
use grpcurl_rs.Base.{ℕ, Text, text_eq_iff, Bool, false, Option, none, some, ◌≡◌, ◌↔◌, refl, arith}
use grpcurl_rs.Base.Ints.{ℤ, pos, negsuc, is_negative}
use grpcurl_rs.Cli.{Cli, ParsedArgs}
use grpcurl_rs.Cli.Validate.{
  accept, some_and, check_values, check_tls, parse_positional, check_names, check_sources, validate,
}
use grpcurl_rs.Cli.Validate.Rules.{render, IsWellFormed, HasValidFlags, HasValidSources}
use grpcurl_rs.Cli.Validate.Positional.{
  >>=-eq-accept, >>=-accept, text_eq_of_eq, parse_positional_sound, positional_accept,
}

some_and_iff :
    {A : Type 0} (test : A → Bool) (o : Option A)
    → (some_and test o ≡ false) ↔ ((a : A) → o ≡ some a → test a ≡ false)
some_and_iff test none = (λ h a e. cc, λ h. refl)
some_and_iff test (some b) = (λ h a e. let same : b ≡ a = cc in rw same at h, λ h. h b refl)

is_pos_iff :
    (o : Option ℤ)
    → (some_and is_negative o ≡ false) ↔ ((n : ℤ) → o ≡ some n → (m : ℕ) × (n ≡ pos m))
is_pos_iff none = (λ h n e. cc, λ h. refl)
is_pos_iff (some (pos k)) = (λ h n e. (k, cc), λ h. refl)
is_pos_iff (some (negsuc k)) = (λ h n e. cc, λ h. let e = (h (negsuc k) refl).1 in cc)

module _ {Seconds : Type 0} (lt_zero : Seconds → Bool) (cli : Cli Seconds) where
  check_values_iff : ((check_values lt_zero cli).1 ≡ accept tt) ↔ (
      (some_and lt_zero cli.connect_timeout ≡ false)
      × (some_and lt_zero cli.keepalive_time ≡ false)
      × (some_and lt_zero cli.max_time ≡ false)
      × (some_and is_negative cli.max_msg_sz ≡ false))
  unfolding check_values
  check_values_iff = (λ h. ground arith, λ h. ground arith)

  flags_of_checks :
      (check_values lt_zero cli).1 ≡ accept tt
      → (check_tls lt_zero cli).1 ≡ accept tt
      → HasValidFlags lt_zero cli
  unfolding check_tls
  flags_of_checks hv ht =
      let (a, b, c, d) = check_values_iff.0 hv in
      record {
        connect_timeout = (some_and_iff lt_zero _).0 a;
        keepalive_time = (some_and_iff lt_zero _).0 b;
        max_time = (some_and_iff lt_zero _).0 c;
        max_msg_sz = (is_pos_iff _).0 d;
        exclusive = ground arith;
        insecure = ground arith;
        cert = ground arith;
        pair = ground arith;
        handshaker = ground arith;
        accounts = ground arith;
      }

  checks_of_flags :
      HasValidFlags lt_zero cli
      → ((check_values lt_zero cli).1 ≡ accept tt) × ((check_tls lt_zero cli).1 ≡ accept tt)
  unfolding check_tls
  checks_of_flags v = (
    check_values_iff.1 (
      (some_and_iff lt_zero _).1 v.connect_timeout,
      (some_and_iff lt_zero _).1 v.keepalive_time,
      (some_and_iff lt_zero _).1 v.max_time,
      (is_pos_iff _).1 v.max_msg_sz,
    ),
    ground arith,
  )

  check_names_iff :
      (sn auth : Option Text)
      → ((check_names sn auth).1 ≡ accept tt) ↔ ((s t : Text) → sn ≡ some s → auth ≡ some t → s ≡ t)
  unfolding check_names
  check_names_iff none auth = (λ h s t e f. cc, λ h. refl)
  check_names_iff (some sn) none = (λ h s t e f. cc, λ h. refl)
  check_names_iff (some sn) (some auth) = (
    λ h s t e f. ground (arith, text_eq_iff sn auth),
    λ h. rw (text_eq_of_eq (h sn auth refl refl)),
  )

  check_sources_sound :
      (p q : ParsedArgs)
      → (check_sources lt_zero cli p).1 ≡ accept q
      → (p ≡ q) × HasValidSources lt_zero cli p
  unfolding check_sources
  check_sources_sound p q h =
      let named : (check_names cli.servername cli.authority).1 ≡ accept tt = ground arith in
      (
        ground arith,
        record {
          located = ground arith;
          one_kind = ground arith;
          described = ground arith;
          named = (check_names_iff cli.servername cli.authority).0 named;
        },
      )

  check_sources_complete :
      (p : ParsedArgs)
      → IsWellFormed p
      → HasValidSources lt_zero cli p
      → (check_sources lt_zero cli p).1 ≡ accept p
  unfolding check_sources
  check_sources_complete p w v =
      let named = (check_names_iff cli.servername cli.authority).1 v.named in ground arith

  -- `validate` accepts with a parse exactly when the flags meet rules 1 to 11, the parse is well
  -- formed and its words are the positional arguments, and the sources meet rules 22 to 28.
  pub validate_iff :
      (p : ParsedArgs)
      → ((validate lt_zero cli).1 ≡ accept p) ↔ (
          HasValidFlags lt_zero cli
          × IsWellFormed p
          × (cli.args ≡ render p)
          × HasValidSources lt_zero cli p)
  unfolding validate
  validate_iff p = (
    λ h.
        let (a, values, h1) = >>=-eq-accept (check_values lt_zero cli) _ h in
        let (b, tls, h2) = >>=-eq-accept (check_tls lt_zero cli) _ h1 in
        let (q, positional, h3) = >>=-eq-accept (parse_positional lt_zero cli cli.args) _ h2 in
        let (same, sources) = check_sources_sound q p h3 in
        let (formed, rendered) =
          parse_positional_sound lt_zero cli cli.args p (rw same at positional) in
        (flags_of_checks values tls, formed, rendered, rw same at sources),
    λ (flags, formed, rendered, sources).
        let (values, tls) = checks_of_flags flags in
        >>=-accept (check_values lt_zero cli) _ values (
          >>=-accept (check_tls lt_zero cli) _ tls (
            >>=-accept (parse_positional lt_zero cli cli.args) _
              (positional_accept lt_zero cli cli.args p formed rendered)
              (check_sources_complete p formed sources))),
  )
