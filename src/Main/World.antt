-- ===== src/Main/World.antt =====
-- grpcurl-cli/src/main.rs: what the program has to do with.
use grpcurl_rs.Base.{Text, Bool}
use grpcurl_rs.Error.{BoxError}
use grpcurl_rs.Connection.Tls.{TlsCrates}
use grpcurl_rs.Connection.Channel.{Tonic}
use grpcurl_rs.Descriptor.{Reflect}
use grpcurl_rs.Descriptor.Loading.{Loader}
use grpcurl_rs.DescriptorText.{Syntax}
use grpcurl_rs.DescriptorText.ProtoFile.{Contents}
use grpcurl_rs.Format.Output.{Printers}
use grpcurl_rs.Format.Status.{Details}
use grpcurl_rs.Format.Template.{Dynamics}
use grpcurl_rs.Invoke.Beginning.{Surroundings}
use grpcurl_rs.Invoke.Events.{Render}
use grpcurl_rs.Main.Sources.{ServerConfig}
use grpcurl_rs.Reflection.{Server}
use grpcurl_rs.Reflection.Pool.{PoolCrate}

-- What the program is given: the libraries, the system, the servers behind the reflection, and the
-- texts of errors.
pub record World (Seconds : Type 0) (reflect : Reflect) (Message Value : Type 0) : Type 1 where
  pub tls : TlsCrates
  pub tonic : Tonic Seconds tls
  pub loader : Loader reflect
  pub syntax : Syntax reflect
  pub contents : Contents reflect
  pub dynamics : Dynamics reflect
  pub template_printers : Printers dynamics.Dynamic
  pub details : Details Message
  pub render : Render Message
  pub pool_crate : PoolCrate reflect
  -- the server's reflection with its state at the start
  pub Net : Type 0
  pub server : ServerConfig tonic.Channel → Server Net
  pub net : Net
  pub around : tonic.Channel → Surroundings reflect Message Value
  -- the surroundings where there is no channel
  pub system : Surroundings reflect Message Value
  pub lt_zero : Seconds → Bool
  pub error_text : BoxError → Text
  -- what is told of a panic in `from_secs_f64`
  pub duration_panic : Text
