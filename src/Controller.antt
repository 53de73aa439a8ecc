-- ===== src/Controller.antt =====
-- pkg/controller: the routing configuration from the objects of the cluster.
pub mod State
pub mod Converter
pub mod Certificates
pub mod ProxyConfig
pub mod Merging
pub mod Provenance
pub mod Reconcile
pub mod Watches
pub mod Coverage
pub mod Remembered
pub mod Requeues
pub mod Outcomes
pub mod Keyed
pub mod Classes
pub mod MiddlewareOrder
pub mod Guarding
pub mod ServerNames
pub mod Selection
pub mod Shared
pub mod Loop
