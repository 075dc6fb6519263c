-- ===== src/Connection/Panics.antt =====
-- grpcurl-core/src/connection.rs: when the making of a channel panics.
use grpcurl_rs.Base.{
  Text, text, ◌++◌, Bool, true, false, if◌then◌else◌, not, ◌||◌, ◌&&◌, Option, none, some, ◌≡◌,
  arith, inl, inr, Bool-cases,
}
use grpcurl_rs.Error.{Result-cases, panics}
use grpcurl_rs.Connection.{ConnectionConfig}
use grpcurl_rs.Connection.Tls.{
  TlsCrates, RustlsConfig, build_insecure_rustls_config, build_standard_rustls_config,
}
use grpcurl_rs.Connection.Channel.{
  Tonic, or_seconds, build_endpoint, create_unix_channel, create_channel_with_rustls,
  create_insecure_channel, create_custom_tls_channel, standard_channel, plan_channel,
  create_channel,
}

module _ {Seconds : Type 0} (crates : TlsCrates) (tonic : Tonic Seconds crates)
    (config : ConnectionConfig Seconds) where
  abbrev has_none : Seconds → Bool
  has_none s = elim (tonic.from_secs_f64 s) [ some d ↦ false | none ↦ true ]

  abbrev some_none : Option Seconds → Bool
  some_none none = false
  some_none (some s) = has_none s

  -- One of the configured numbers of seconds, or the default, has no duration.
  unfoldable pub has_bad_duration : Bool
  has_bad_duration =
      has_none (or_seconds crates tonic tonic.default_connect_timeout config.connect_timeout)
      || (some_none config.max_time || some_none config.keepalive_time)

  build_endpoint-panics :
      (uri : Text) → build_endpoint crates tonic uri config ≡ panics → has_bad_duration ≡ true
  unfolding build_endpoint has_bad_duration
  build_endpoint-panics uri e = ground (arith, e)

  unix-panics :
      (path : Text)
      → create_unix_channel crates tonic config path ≡ panics
      → has_bad_duration ≡ true
  unfolding create_unix_channel
  unix-panics path e = ground (arith, e, build_endpoint-panics (text "http://[::]:0"))

  with_rustls-panics :
      (address : Text) (rustls : RustlsConfig crates.Cert crates.PrivateKey)
      → create_channel_with_rustls crates tonic config address rustls ≡ panics
      → has_bad_duration ≡ true
  unfolding create_channel_with_rustls
  with_rustls-panics address rustls e =
      ground (arith, e, build_endpoint-panics (text "https://" ++ address))

  insecure-panics :
      (address : Text)
      → create_insecure_channel crates tonic config address ≡ panics
      → has_bad_duration ≡ true
  unfolding create_insecure_channel
  insecure-panics address e = elim (Result-cases (build_insecure_rustls_config crates config)) [
    | inl (rustls, r) ↦ with_rustls-panics address rustls (ground (arith, e, r))
    | inr (x, r) ↦ ground (arith, e, r)
  ]

  custom-panics :
      (address : Text)
      → create_custom_tls_channel crates tonic config address ≡ panics
      → has_bad_duration ≡ true
  unfolding create_custom_tls_channel
  custom-panics address e = elim (Result-cases (build_standard_rustls_config crates config)) [
    | inl (rustls, r) ↦ with_rustls-panics address rustls (ground (arith, e, r))
    | inr (x, r) ↦ ground (arith, e, r)
  ]

  standard-panics :
      (address : Text)
      → standard_channel crates tonic config address ≡ panics
      → has_bad_duration ≡ true
  unfolding standard_channel
  standard-panics address e = ground (
    arith,
    e,
    build_endpoint-panics
        ((if config.plaintext then text "http" else text "https") ++ (text "://" ++ address)),
  )

  plan_channel-panics :
      (address : Text) → plan_channel crates tonic config address ≡ panics → has_bad_duration ≡ true
  unfolding plan_channel
  plan_channel-panics address e = elim (Bool-cases config.alts) [
    | inl a ↦ ground (arith, e, a)
    | inr a ↦ elim (Bool-cases config.unix) [
      | inl u ↦ unix-panics address (ground (arith, e, a, u))
      | inr u ↦ elim (Bool-cases config.insecure) [
        | inl f ↦ insecure-panics address (ground (arith, e, a, u, f))
        | inr f ↦ elim (Bool-cases (not config.plaintext && crates.key_log_set)) [
          | inl k ↦ custom-panics address (ground (arith, e, a, u, f, k))
          | inr k ↦ standard-panics address (ground (arith, e, a, u, f, k))
        ]
      ]
    ]
  ]

  -- A channel's making panics only at a number of seconds that has no duration.
  pub create_channel-panics :
      (address : Text)
      → create_channel crates tonic config address ≡ panics
      → has_bad_duration ≡ true
  unfolding create_channel
  create_channel-panics address e = ground (arith, e, plan_channel-panics address)
