-- ===== src/DataPlane.antt =====
-- up-streamer/src/data_plane: listeners on the ingress side, workers on the egress side.
pub mod Channel
pub mod IngressListener
pub mod Transport
pub mod IngressRegistry
pub mod EgressWorker
pub mod EgressPool
pub mod Relay
