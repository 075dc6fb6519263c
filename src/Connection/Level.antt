-- ===== src/Connection/Level.antt =====
-- grpcurl-core/src/connection.rs: how well a connection is protected.
use grpcurl_rs.Base.{
  ℕ, Text, List, Bool, false, not, ◌&&◌, ◌||◌, Option, none, some, is_some, if◌then◌else◌, ◌≡◌, ap,
  ◌∙◌, arith, inl, inr, Bool-cases,
}
use grpcurl_rs.Error.{Result-cases, done, returns}
use grpcurl_rs.Connection.{ConnectionConfig}
use grpcurl_rs.Connection.Tls.{
  TlsCrates, Roots, RustlsConfig, ClientTlsConfig, client_auth_from, finish_rustls, roots_from,
  identity_from, build_insecure_rustls_config, build_standard_rustls_config, build_tonic_tls_config,
}
use grpcurl_rs.Connection.Channel.{
  Transport, tcp, unix_socket, Security, no_tls, tonic_tls, rustls_tls, Attempt, Tonic,
  create_unix_channel, create_channel_with_rustls, create_insecure_channel,
  create_custom_tls_channel, standard_channel, plan_channel,
}

-- No encryption, encryption with a server that nobody checked, or with one that is checked.
pub data Level : Type 0 where
  open_link unchecked checked : Level

abbrev roots_level : {Cert : Type 0} → Option (Roots Cert) → Level
roots_level none = unchecked
roots_level (some roots) = checked

abbrev pub level : {crates : TlsCrates} → Security crates → Level
level no_tls = open_link
level (tonic_tls tls) = checked
level (rustls_tls rustls server_name) = roots_level rustls.roots

-- The client presents a certificate.
abbrev pub identified : {crates : TlsCrates} → Security crates → Bool
identified no_tls = false
identified (tonic_tls tls) = is_some tls.identity
identified (rustls_tls rustls server_name) = is_some rustls.client_auth

-- The protection that a configuration asks for.
abbrev is_open : {Seconds : Type 0} → ConnectionConfig Seconds → Bool
is_open config = config.plaintext && (config.unix || not config.insecure)

abbrev pub wanted_level : {Seconds : Type 0} → ConnectionConfig Seconds → Level
wanted_level config =
    if is_open config then open_link else if config.insecure then unchecked else checked

abbrev pub wanted_identity : {Seconds : Type 0} → ConnectionConfig Seconds → Bool
wanted_identity config = if is_open config then false else is_some config.cert

module _ {Seconds : Type 0} (crates : TlsCrates) (config : ConnectionConfig Seconds) where
  client_auth-done :
      (cert key : Option Text) (auth : Option (List crates.Cert × crates.PrivateKey))
      → client_auth_from crates cert key ≡ done auth
      → is_some auth ≡ is_some cert
  unfolding client_auth_from
  client_auth-done none key auth e = ground (arith, e)
  client_auth-done (some c) key auth e = ground (arith, e)

  identity-done :
      (cert key : Option Text) (identity : Option (List ℕ × List ℕ))
      → identity_from crates cert key ≡ done identity
      → is_some identity ≡ is_some cert
  unfolding identity_from
  identity-done none key identity e = ground (arith, e)
  identity-done (some c) key identity e = ground (arith, e)

  finish_rustls-done :
      (roots : Option (Roots crates.Cert)) (rustls : RustlsConfig crates.Cert crates.PrivateKey)
      → finish_rustls crates config roots ≡ done rustls
      → (rustls.roots ≡ roots) × (is_some rustls.client_auth ≡ is_some config.cert)
  unfolding finish_rustls
  finish_rustls-done roots rustls e = ground (arith, e, client_auth-done config.cert config.key)

  insecure-done :
      (rustls : RustlsConfig crates.Cert crates.PrivateKey)
      → build_insecure_rustls_config crates config ≡ done rustls
      → (roots_level rustls.roots ≡ unchecked) × (is_some rustls.client_auth ≡ is_some config.cert)
  unfolding build_insecure_rustls_config
  insecure-done rustls e =
      let (roots, auth) = finish_rustls-done none rustls e in (ap roots_level roots, auth)

  standard-done :
      (rustls : RustlsConfig crates.Cert crates.PrivateKey)
      → build_standard_rustls_config crates config ≡ done rustls
      → (roots_level rustls.roots ≡ checked) × (is_some rustls.client_auth ≡ is_some config.cert)
  unfolding build_standard_rustls_config
  standard-done rustls e = elim (Result-cases (roots_from crates config.cacert)) [
    | inl (roots, r) ↦
        let (same, auth) = finish_rustls-done (some roots) rustls (ground (arith, e, r)) in
        (ap roots_level same, auth)
    | inr (x, r) ↦ ground (arith, e, r)
  ]

  tonic-done :
      (tls : ClientTlsConfig)
      → build_tonic_tls_config crates config ≡ done tls
      → is_some tls.identity ≡ is_some config.cert
  unfolding build_tonic_tls_config
  tonic-done tls e = ground (arith, e, identity-done config.cert config.key)

module _ {Seconds : Type 0} (crates : TlsCrates) (tonic : Tonic Seconds crates)
    (config : ConnectionConfig Seconds) where
  with_rustls-done :
      (address : Text) (rustls : RustlsConfig crates.Cert crates.PrivateKey)
      (attempt : Attempt tonic.Duration crates)
      → create_channel_with_rustls crates tonic config address rustls ≡ returns (done attempt)
      → (level attempt.security ≡ roots_level rustls.roots)
        × (identified attempt.security ≡ is_some rustls.client_auth)
        × (attempt.transport ≡ tcp address)
  unfolding create_channel_with_rustls
  with_rustls-done address rustls attempt e = ground (arith, e)

  -- What a plan comes to.
  abbrev Protects : Attempt tonic.Duration crates → Level → Bool → Transport → Type 0
  Protects attempt l identity transport =
      (level attempt.security ≡ l)
      × (identified attempt.security ≡ identity)
      × (attempt.transport ≡ transport)

  insecure_channel-Protects :
      (address : Text) (attempt : Attempt tonic.Duration crates)
      → create_insecure_channel crates tonic config address ≡ returns (done attempt)
      → Protects attempt unchecked (is_some config.cert) (tcp address)
  unfolding create_insecure_channel
  insecure_channel-Protects address attempt e =
      elim (Result-cases (build_insecure_rustls_config crates config)) [
        | inl (rustls, r) ↦
            let (l, auth) = insecure-done crates config rustls r in
            let (same, identity, transport) =
              with_rustls-done address rustls attempt (ground (arith, e, r)) in
            (same ∙ l, identity ∙ auth, transport)
        | inr (x, r) ↦ ground (arith, e, r)
      ]

  custom_tls_channel-Protects :
      (address : Text) (attempt : Attempt tonic.Duration crates)
      → create_custom_tls_channel crates tonic config address ≡ returns (done attempt)
      → Protects attempt checked (is_some config.cert) (tcp address)
  unfolding create_custom_tls_channel
  custom_tls_channel-Protects address attempt e =
      elim (Result-cases (build_standard_rustls_config crates config)) [
        | inl (rustls, r) ↦
            let (l, auth) = standard-done crates config rustls r in
            let (same, identity, transport) =
              with_rustls-done address rustls attempt (ground (arith, e, r)) in
            (same ∙ l, identity ∙ auth, transport)
        | inr (x, r) ↦ ground (arith, e, r)
      ]

  unix_channel-Protects :
      (path : Text) (attempt : Attempt tonic.Duration crates)
      → create_unix_channel crates tonic config path ≡ returns (done attempt)
      → Protects attempt
          (if config.plaintext then open_link else if config.insecure then unchecked else checked)
          (if config.plaintext then false else is_some config.cert)
          (unix_socket path)
  unfolding create_unix_channel
  unix_channel-Protects path attempt e = elim (Bool-cases config.insecure) [
    | inl f ↦ elim (Result-cases (build_insecure_rustls_config crates config)) [
      | inl (rustls, r) ↦ ground (arith, e, f, r, insecure-done crates config rustls r)
      | inr (x, r) ↦ ground (arith, e, f, r)
    ]
    | inr f ↦ elim (Result-cases (build_standard_rustls_config crates config)) [
      | inl (rustls, r) ↦ ground (arith, e, f, r, standard-done crates config rustls r)
      | inr (x, r) ↦ ground (arith, e, f, r)
    ]
  ]

  standard_channel-Protects :
      (address : Text) (attempt : Attempt tonic.Duration crates)
      → standard_channel crates tonic config address ≡ returns (done attempt)
      → Protects attempt
          (if config.plaintext then open_link else checked)
          (if config.plaintext then false else is_some config.cert)
          (tcp address)
  unfolding standard_channel
  standard_channel-Protects address attempt e =
      elim (Result-cases (build_tonic_tls_config crates config)) [
        | inl (tls, r) ↦ ground (arith, e, r, tonic-done crates config tls r)
        | inr (x, r) ↦ ground (arith, e, r)
      ]

  -- A channel that is planned has the protection that its configuration asks for: no encryption
  -- only with `plaintext`, an unchecked server only with `insecure`, a checked one otherwise, the
  -- client's certificate exactly where there is encryption and one is given, and ALTS never.
  pub plan_channel_protects :
      (address : Text) (attempt : Attempt tonic.Duration crates)
      → plan_channel crates tonic config address ≡ returns (done attempt)
      → (config.alts ≡ false)
        × (level attempt.security ≡ wanted_level config)
        × (identified attempt.security ≡ wanted_identity config)
        × (attempt.transport ≡ (if config.unix then unix_socket address else tcp address))
  unfolding plan_channel
  plan_channel_protects address attempt e = elim (Bool-cases config.alts) [
    | inl a ↦ ground (arith, e, a)
    | inr a ↦ elim (Bool-cases config.unix) [
      | inl u ↦
          ground (arith, a, u, unix_channel-Protects address attempt (ground (arith, e, a, u)))
      | inr u ↦ elim (Bool-cases config.insecure) [
        | inl f ↦
            ground (
              arith,
              a,
              u,
              f,
              insecure_channel-Protects address attempt (ground (arith, e, a, u, f)),
            )
        | inr f ↦ elim (Bool-cases (not config.plaintext && crates.key_log_set)) [
          | inl k ↦ ground (
            arith,
            a,
            u,
            f,
            k,
            custom_tls_channel-Protects address attempt (ground (arith, e, a, u, f, k)),
          )
          | inr k ↦ ground (
            arith,
            a,
            u,
            f,
            k,
            standard_channel-Protects address attempt (ground (arith, e, a, u, f, k)),
          )
        ]
      ]
    ]
  ]
