-- ===== src/Rpc.antt =====
-- nameko/rpc.py: requests that a service answers, and replies that a caller waits for.
pub mod Effects
pub mod Server
pub mod Client
pub mod Consumer
pub mod Proxy
pub mod Routes
pub mod Call
pub mod Crossing
