-- ===== src/Config.antt =====
-- pkg/config: the configuration of the controller.
pub mod Accepted
pub mod ByteSize
pub mod Parse
pub mod Sizes
