-- ===== src/Proxy.antt =====
-- pkg/proxy: the reverse proxy.
pub mod Closures
pub mod Routing
pub mod Headers
pub mod Context
pub mod Errors
pub mod RealIp
pub mod Serve
pub mod Server
pub mod Forwarding
pub mod Client
pub mod Lifecycle
pub mod Tcp
pub mod Listeners
