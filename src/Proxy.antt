-- ===== src/Proxy.antt =====
-- routstr/proxy.py: the proxy endpoint for requests that carry an API key.
pub mod Errors
pub mod Headers
pub mod Intake
pub mod Endpoint
pub mod Stream
pub mod Request
