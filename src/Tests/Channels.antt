-- ===== src/Tests/Channels.antt =====
-- Runs of the theorem on channels: every file holds one certificate and one key.
use grpcurl_rs.Base.{
  ℕ, Text, text, [], ◌∷◌, ◌++◌, true, false, none, some, Option, ltb, if◌then◌else◌, ◌≡◌, refl, inl,
  split_once,
}
use grpcurl_rs.Error.{done, returns}
use grpcurl_rs.Connection.{ConnectionConfig, build_user_agent}
use grpcurl_rs.Connection.Tls.{
  TlsCrates, of_file, add_roots, load_certs, load_private_key, client_auth_from, roots_from,
  finish_rustls, build_standard_rustls_config,
}
use grpcurl_rs.Connection.Channel.{
  Attempt, Tonic, tcp, unix_socket, rustls_tls, build_endpoint, server_name,
  create_channel_with_rustls, create_custom_tls_channel, plan_channel,
}
use grpcurl_rs.Connection.Level.{
  level, identified, wanted_level, wanted_identity, plan_channel_protects,
}

abbrev pub certs : TlsCrates
certs = record {
  Cert = ℕ;
  PrivateKey = ℕ;
  read_file = λ path. inl path;
  parse_certs = λ pem. inl (1 ∷ []);
  parse_private_key = λ pem. inl (some 2);
  protocol_error = none;
  root_error = λ c. none;
  client_error = λ cs k. none;
  key_log_set = true;
}

-- A number of seconds that is too large, as an infinite one is, has no duration.
abbrev representable : ℕ → Option ℕ
representable n = if ltb n 1000 then some n else none

abbrev pub stack : Tonic ℕ certs
stack = record {
  Channel = Attempt ℕ certs;
  Duration = ℕ;
  from_secs_f64 = representable;
  uri_error = λ uri. none;
  user_agent_error = λ agent. none;
  tls_error = λ tls. none;
  connect = λ attempt. inl attempt;
  default_connect_timeout = 10;
  version = b'1' ∷ [];
}

abbrev with_certificate : ConnectionConfig ℕ
with_certificate = record {
  plaintext = false;
  insecure = false;
  authority = none;
  servername = none;
  connect_timeout = none;
  keepalive_time = none;
  max_time = none;
  unix = false;
  cacert = some (b'r' ∷ []);
  cert = some (b'c' ∷ []);
  key = some (b'k' ∷ []);
  alts = false;
  user_agent = none;
  max_msg_sz = none;
}

abbrev host : Text
host = b'h' ∷ []

abbrev planned : Attempt ℕ certs
planned = record {
  endpoint = record {
    uri = text "https://" ++ host;
    connect_timeout = 10;
    timeout = none;
    keep_alive_timeout = none;
    keep_alive_while_idle = false;
    user_agent = build_user_agent (b'1' ∷ []) with_certificate;
  };
  transport = tcp host;
  security =
      rustls_tls
        (record { roots = some (of_file (1 ∷ [])); client_auth = some (1 ∷ [], 2); key_log = true })
        host;
}

plans : plan_channel certs stack with_certificate host ≡ returns (done planned)
unfolding plan_channel create_custom_tls_channel create_channel_with_rustls
    build_standard_rustls_config roots_from finish_rustls client_auth_from load_certs
    load_private_key build_endpoint server_name split_once add_roots
plans = refl

plan_channel_protects_example :
    (with_certificate.alts ≡ false)
    × (level planned.security ≡ wanted_level with_certificate)
    × (identified planned.security ≡ wanted_identity with_certificate)
    × (planned.transport ≡ (if with_certificate.unix then unix_socket host else tcp host))
plan_channel_protects_example =
    plan_channel_protects certs stack with_certificate host planned plans
