-- ===== src/Invoke.antt =====
-- grpcurl-core/src/commands/invoke.rs
pub mod Config
pub mod Method
pub mod Events
pub mod Beginning
pub mod Calls
pub mod Invocation
pub mod Requests
pub mod Responses
pub mod Termination
