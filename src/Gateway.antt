-- ===== src/Gateway.antt =====
-- pkg/aigateway: the stream of one model turn, and where the gateway is configured.
pub mod Stream
pub mod Client
pub mod Api
pub mod Calls
pub mod Config
