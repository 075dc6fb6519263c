-- ===== src/Connection/Channel.antt =====
-- grpcurl-core/src/connection.rs: how a channel is made. The connecting itself is given; the plan
-- of it is what the code decides.
use grpcurl_rs.Base.{
  Text, text, split_once, ◌++◌, Bool, not, ◌&&◌, Option, none, some, if◌then◌else◌, is_some, ◌⊎◌,
}
use grpcurl_rs.Error.{
  GrpcurlError, invalid_argument, other, Result, done, fail, Panicking, returns, panics, ◌>>=◌,
  ◌>>>◌,
}
use grpcurl_rs.Connection.{ConnectionConfig, build_user_agent}
use grpcurl_rs.Connection.Tls.{
  TlsCrates, RustlsConfig, ClientTlsConfig, or_fail, unless_error, or_else,
  build_insecure_rustls_config, build_standard_rustls_config, build_tonic_tls_config,
}

-- `Endpoint`, by the settings that are made.
pub record Endpoint (Duration : Type 0) : Type 0 where
  pub uri : Text
  pub connect_timeout : Duration
  pub timeout : Option Duration
  pub keep_alive_timeout : Option Duration
  pub keep_alive_while_idle : Bool
  pub user_agent : Text

pub data Transport : Type 0 where
  tcp unix_socket : Text → Transport

-- No TLS, that of tonic, or that of rustls with the name of the server.
pub data Security (crates : TlsCrates) : Type 0 where
  no_tls : Security crates
  tonic_tls : ClientTlsConfig → Security crates
  rustls_tls : RustlsConfig crates.Cert crates.PrivateKey → (server_name : Text) → Security crates

-- What is connected, and how.
pub record Attempt (Duration : Type 0) (crates : TlsCrates) : Type 0 where
  pub endpoint : Endpoint Duration
  pub transport : Transport
  pub security : Security crates

-- tonic: the errors of `Channel::from_shared`, `user_agent` and `tls_config`, and the connecting;
-- and `Duration::from_secs_f64` of the standard library, which panics where it gives none.
pub record Tonic (Seconds : Type 0) (crates : TlsCrates) : Type 1 where
  pub Channel : Type 0
  pub Duration : Type 0
  pub from_secs_f64 : Seconds → Option Duration
  pub uri_error : Text → Option Text
  pub user_agent_error : Text → Option Text
  pub tls_error : ClientTlsConfig → Option Text
  pub connect : Attempt Duration crates → Channel ⊎ Text
  -- `DEFAULT_CONNECT_TIMEOUT_SECS`, and the version of the package
  pub default_connect_timeout : Seconds
  pub version : Text

module _ {Seconds : Type 0} (crates : TlsCrates) (tonic : Tonic Seconds crates) where
  abbrev pub or_seconds : Seconds → Option Seconds → Seconds
  or_seconds d none = d
  or_seconds d (some s) = s

  abbrev pub duration : Seconds → Panicking (Result tonic.Duration)
  duration s = elim (tonic.from_secs_f64 s) [ some d ↦ returns (done d) | none ↦ panics ]

  abbrev pub optional_duration : Option Seconds → Panicking (Result (Option tonic.Duration))
  optional_duration none = returns (done none)
  optional_duration (some s) = duration s >>> λ d. returns (done (some d))

  unfoldable pub build_endpoint :
      Text → ConnectionConfig Seconds → Panicking (Result (Endpoint tonic.Duration))
  build_endpoint uri config =
      let agent = build_user_agent tonic.version config in
      returns
        (unless_error (λ e. invalid_argument (text "invalid address: " ++ e)) (tonic.uri_error uri))
      >>> λ _.
          duration (or_seconds tonic.default_connect_timeout config.connect_timeout)
          >>> λ connect_timeout. optional_duration config.max_time >>> λ timeout.
              optional_duration config.keepalive_time >>> λ keep_alive.
              returns (
                unless_error (λ e. other (text "failed to set user-agent: " ++ e))
                  (tonic.user_agent_error agent))
              >>> λ _. returns (
                  done (record {
                    uri = uri;
                    connect_timeout = connect_timeout;
                    timeout = timeout;
                    keep_alive_timeout = keep_alive;
                    keep_alive_while_idle = is_some config.keepalive_time;
                    user_agent = agent;
                  }))

  abbrev pub Planned : Type 0
  Planned = Panicking (Result (Attempt tonic.Duration crates))

  -- `authority`, `servername` or the text that stands for them
  unfoldable pub server_name : ConnectionConfig Seconds → Text → Text
  server_name config default = elim (or_else config.authority config.servername) [
    | some name ↦ name
    | none ↦ default
  ]

  -- `split(':').next()`
  abbrev host_of : Text → Text
  host_of address = elim (split_once b':' address) [ some (host, port) ↦ host | none ↦ address ]

  abbrev pub rustls_config_for :
      ConnectionConfig Seconds → Result (RustlsConfig crates.Cert crates.PrivateKey)
  rustls_config_for config =
      if config.insecure
      then build_insecure_rustls_config crates config
      else build_standard_rustls_config crates config

  abbrev pub unix_security : ConnectionConfig Seconds → Result (Security crates)
  unix_security config =
      if config.plaintext
      then done no_tls
      else rustls_config_for config >>= λ rustls.
          done (rustls_tls rustls (server_name config (text "localhost")))

  -- `create_unix_channel`, before it connects
  unfoldable pub create_unix_channel : ConnectionConfig Seconds → Text → Planned
  create_unix_channel config socket_path =
      build_endpoint (text "http://[::]:0") config >>> λ endpoint. returns (
        unix_security config >>= λ security.
        done (record {
          endpoint = endpoint;
          transport = unix_socket socket_path;
          security = security;
        }))

  unfoldable pub create_channel_with_rustls :
      ConnectionConfig Seconds → Text → RustlsConfig crates.Cert crates.PrivateKey → Planned
  create_channel_with_rustls config address rustls =
      build_endpoint (text "https://" ++ address) config >>> λ endpoint. returns (
        done (record {
          endpoint = endpoint;
          transport = tcp address;
          security = rustls_tls rustls (server_name config (host_of address));
        }))

  unfoldable pub create_insecure_channel : ConnectionConfig Seconds → Text → Planned
  create_insecure_channel config address =
      returns (build_insecure_rustls_config crates config) >>> λ rustls.
      create_channel_with_rustls config address rustls

  unfoldable pub create_custom_tls_channel : ConnectionConfig Seconds → Text → Planned
  create_custom_tls_channel config address =
      returns (build_standard_rustls_config crates config) >>> λ rustls.
      create_channel_with_rustls config address rustls

  abbrev pub tonic_security : ConnectionConfig Seconds → Result (Security crates)
  tonic_security config =
      if config.plaintext
      then done no_tls
      else build_tonic_tls_config crates config >>= λ tls.
          unless_error (λ e. other (text "TLS configuration error: " ++ e)) (tonic.tls_error tls)
          >>= λ _. done (tonic_tls tls)

  -- The end of `create_channel`, before it connects
  unfoldable pub standard_channel : ConnectionConfig Seconds → Text → Planned
  standard_channel config address =
      build_endpoint
        ((if config.plaintext then text "http" else text "https") ++ (text "://" ++ address)) config
      >>> λ endpoint. returns (
          tonic_security config >>= λ security.
          done (record { endpoint = endpoint; transport = tcp address; security = security }))

  -- The choice of `create_channel`
  unfoldable pub plan_channel : ConnectionConfig Seconds → Text → Planned
  plan_channel config address =
      if config.alts
      then returns (fail (invalid_argument (text "ALTS is not yet supported in grpcurl.")))
      else if config.unix
      then create_unix_channel config address
      else if config.insecure
      then create_insecure_channel config address
      else if not config.plaintext && crates.key_log_set
      then create_custom_tls_channel config address
      else standard_channel config address

  abbrev connect_error : Transport → Text → GrpcurlError
  connect_error (tcp address) e =
      other (text "failed to connect to " ++ (address ++ (text ": " ++ e)))
  connect_error (unix_socket path) e =
      other (text "failed to connect to Unix socket '" ++ (path ++ (text "': " ++ e)))

  unfoldable pub create_channel : ConnectionConfig Seconds → Text → Panicking (Result tonic.Channel)
  create_channel config address = plan_channel config address >>> λ attempt.
      returns (or_fail (connect_error attempt.transport) (tonic.connect attempt))
