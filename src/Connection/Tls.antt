-- ===== src/Connection/Tls.antt =====
-- grpcurl-core/src/connection.rs: the TLS configurations. The file system, the variable
-- SSLKEYLOGFILE and the crates rustls, rustls-pemfile and tonic are given, by what fails.
use grpcurl_rs.Base.{ℕ, Text, text, List, [], ◌∷◌, ◌++◌, Bool, Option, none, some, ◌⊎◌, inl, inr}
use grpcurl_rs.Error.{GrpcurlError, invalid_argument, io, other, Result, done, fail, ◌>>=◌}
use grpcurl_rs.Connection.{ConnectionConfig}

pub record TlsCrates : Type 1 where
  pub Cert : Type 0
  pub PrivateKey : Type 0
  -- `std::fs::read`: the content or the error's text
  pub read_file : Text → List ℕ ⊎ Text
  pub parse_certs : List ℕ → List Cert ⊎ Text
  -- the key, which may be absent
  pub parse_private_key : List ℕ → Option PrivateKey ⊎ Text
  -- the errors of `with_safe_default_protocol_versions`, `RootCertStore::add`,
  -- `with_client_auth_cert` and `tls_config`
  pub protocol_error : Option Text
  pub root_error : Cert → Option Text
  pub client_error : List Cert → PrivateKey → Option Text
  -- `std::env::var("SSLKEYLOGFILE").is_ok()`
  pub key_log_set : Bool

pub data Roots (Cert : Type 0) : Type 0 where
  native : Roots Cert
  of_file : List Cert → Roots Cert

-- `rustls::ClientConfig`: the roots that a server's certificate is verified by, or `none` where
-- the verifier accepts every certificate.
pub record RustlsConfig (Cert PrivateKey : Type 0) : Type 0 where
  pub roots : Option (Roots Cert)
  pub client_auth : Option (List Cert × PrivateKey)
  pub key_log : Bool

-- tonic's `ClientTlsConfig`, which keeps the content of the files.
pub record ClientTlsConfig : Type 0 where
  -- `none` for the native roots
  pub ca_certificate : Option (List ℕ)
  pub domain_name : Option Text
  pub identity : Option (List ℕ × List ℕ)

-- Goes on where there is no error.
abbrev pub unless_error : (Text → GrpcurlError) → Option Text → Result (Unit {0})
unless_error wrap none = done tt
unless_error wrap (some e) = fail (wrap e)

abbrev pub or_fail {ℓ} : {A : Type ℓ} → (Text → GrpcurlError) → A ⊎ Text → Result A
or_fail wrap (inl a) = done a
or_fail wrap (inr e) = fail (wrap e)

abbrev pub or_else : Option Text → Option Text → Option Text
or_else (some a) later = some a
or_else none later = later

abbrev read_error : Text → Text → Text → GrpcurlError
read_error what path e =
    io (text "failed to read " ++ (what ++ (text " '" ++ (path ++ (text "': " ++ e)))))

abbrev parse_error : Text → Text → Text → GrpcurlError
parse_error what path e =
    other (text "failed to parse " ++ (what ++ (text " '" ++ (path ++ (text "': " ++ e)))))

abbrev key_required : GrpcurlError
key_required = invalid_argument (text "--key is required with --cert")

abbrev required_key : Option Text → Result Text
required_key (some key) = done key
required_key none = fail key_required

module _ (crates : TlsCrates) where
  unfoldable pub load_certs : Text → Result (List crates.Cert)
  load_certs path =
      or_fail (read_error (text "certificate") path) (crates.read_file path) >>= λ pem.
      or_fail (parse_error (text "certificate") path) (crates.parse_certs pem)

  abbrev present_key : Text → Option crates.PrivateKey → Result crates.PrivateKey
  present_key path (some key) = done key
  present_key path none =
      fail (invalid_argument (text "no private key found in '" ++ (path ++ text "'")))

  unfoldable pub load_private_key : Text → Result crates.PrivateKey
  load_private_key path =
      or_fail (read_error (text "private key") path) (crates.read_file path) >>= λ pem.
      or_fail (parse_error (text "private key") path) (crates.parse_private_key pem) >>= λ key.
      present_key path key

  -- The client's certificate and key, where a certificate is given.
  unfoldable pub client_auth_from :
      Option Text → Option Text → Result (Option (List crates.Cert × crates.PrivateKey))
  client_auth_from none key_path = done none
  client_auth_from (some cert_path) key_path = required_key key_path >>= λ own_key_path.
      load_certs cert_path >>= λ certs. load_private_key own_key_path >>= λ key.
      unless_error (λ e. other (text "failed to configure client certificate: " ++ e))
        (crates.client_error certs key)
      >>= λ _. done (some (certs, key))

  -- What both configurations end with.
  unfoldable pub finish_rustls :
      {Seconds : Type 0}
      → ConnectionConfig Seconds
      → Option (Roots crates.Cert)
      → Result (RustlsConfig crates.Cert crates.PrivateKey)
  unfolding client_auth_from
  finish_rustls config roots =
      unless_error (λ e. other (text "failed to configure TLS: " ++ e)) crates.protocol_error
      >>= λ _. client_auth_from config.cert config.key >>= λ client_auth.
          done (record { roots = roots; client_auth = client_auth; key_log = crates.key_log_set })

  unfoldable pub build_insecure_rustls_config :
      {Seconds : Type 0}
      → ConnectionConfig Seconds
      → Result (RustlsConfig crates.Cert crates.PrivateKey)
  unfolding finish_rustls
  build_insecure_rustls_config config = finish_rustls config none

  unfoldable pub add_roots : List crates.Cert → Result (Unit {0})
  add_roots [] = done tt
  add_roots (cert ∷ certs) =
      unless_error (λ e. other (text "failed to add CA certificate: " ++ e))
        (crates.root_error cert)
      >>= λ _. add_roots certs

  -- The native certificates, of which those that cannot be added are passed over, or those of the
  -- file.
  unfoldable pub roots_from : Option Text → Result (Roots crates.Cert)
  unfolding add_roots
  roots_from none = done native
  roots_from (some path) =
      load_certs path >>= λ certs. add_roots certs >>= λ _. done (of_file certs)

  unfoldable pub build_standard_rustls_config :
      {Seconds : Type 0}
      → ConnectionConfig Seconds
      → Result (RustlsConfig crates.Cert crates.PrivateKey)
  unfolding roots_from finish_rustls
  build_standard_rustls_config config =
      roots_from config.cacert >>= λ roots. finish_rustls config (some roots)

  unfoldable pub ca_from : Option Text → Result (Option (List ℕ))
  ca_from none = done none
  ca_from (some path) =
      or_fail (read_error (text "CA certificate") path) (crates.read_file path) >>= λ pem.
      done (some pem)

  unfoldable pub identity_from : Option Text → Option Text → Result (Option (List ℕ × List ℕ))
  identity_from none key_path = done none
  identity_from (some cert_path) key_path = required_key key_path >>= λ own_key_path.
      or_fail (read_error (text "client certificate") cert_path) (crates.read_file cert_path)
      >>= λ cert.
          or_fail (read_error (text "client key") own_key_path) (crates.read_file own_key_path)
          >>= λ key. done (some (cert, key))

  unfoldable pub build_tonic_tls_config :
      {Seconds : Type 0} → ConnectionConfig Seconds → Result ClientTlsConfig
  unfolding ca_from identity_from
  build_tonic_tls_config config = ca_from config.cacert >>= λ ca.
      identity_from config.cert config.key >>= λ identity. done (record {
        ca_certificate = ca;
        domain_name = or_else config.authority config.servername;
        identity = identity;
      })
