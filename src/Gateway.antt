-- ===== src/Gateway.antt =====
-- pkg/aigateway: the AI gateway's relay.
pub mod Quota
pub mod Usage
mod Examples
