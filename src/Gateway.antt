-- ===== src/Gateway.antt =====
-- The crate forge-gateway: the sandbox pool, the route handlers and their responses.
pub mod Pool
pub mod GatewayError
pub mod Process
pub mod Routes
pub mod Server
