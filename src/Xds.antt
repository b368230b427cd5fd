-- ===== src/Xds.antt =====
-- pkg/xds: the discovery server that configures the sidecars.
pub mod Envoy
pub mod Listeners
pub mod Server
pub mod Start
