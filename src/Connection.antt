-- ===== src/Connection.antt =====
-- grpcurl-core/src/connection.rs: the configuration of a connection.
pub mod Channel
pub mod Level
pub mod Panics
pub mod Tls
use grpcurl_rs.Base.{Text, text, ◌++◌, Bool, Option, some, none}
use grpcurl_rs.Base.Ints.{ℤ}

-- `Seconds` stands for `f64`.
pub record ConnectionConfig (Seconds : Type 0) : Type 0 where
  pub plaintext : Bool
  pub insecure : Bool
  pub authority : Option Text
  pub servername : Option Text
  pub connect_timeout : Option Seconds
  pub keepalive_time : Option Seconds
  pub max_time : Option Seconds
  pub unix : Bool
  pub cacert : Option Text
  pub cert : Option Text
  pub key : Option Text
  pub alts : Bool
  pub user_agent : Option Text
  pub max_msg_sz : Option ℤ

-- `build_user_agent`, given the version of the package.
unfoldable pub build_user_agent : {Seconds : Type 0} → Text → ConnectionConfig Seconds → Text
build_user_agent version config = elim config.user_agent [
  | some custom ↦ custom ++ (text " grpcurl/" ++ version)
  | none ↦ text "grpcurl/" ++ version
]
