-- ===== src/Proxy.antt =====
-- cmd/nacp/nacp.go: the request path of the proxy.
pub mod Routes
pub mod Context
pub mod Handlers
pub mod Responses
pub mod Serve
pub mod Framing
pub mod Tokens
pub mod Admits
pub mod Agreement
pub mod Bypass
pub mod Sequences
pub mod Concurrent
pub mod Verdicts
pub mod Replies
pub mod Passing
pub mod Refusals
