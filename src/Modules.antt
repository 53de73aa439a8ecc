-- ===== src/Modules.antt =====
-- modules/: the middlewares and the instances that make them.
pub mod Services
pub mod Redirect
pub mod Security
pub mod Auth
pub mod CustomHeaders
pub mod WebSocket
pub mod Sockets
pub mod Oidc
pub mod Instances
pub mod Rules
pub mod Contacts
pub mod Chain
pub mod Refusal
pub mod Order
pub mod Gate
pub mod Once
pub mod Creators
