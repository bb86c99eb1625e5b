-- ===== src/ControlPlane.antt =====
-- up-streamer/src/control_plane: the table of routes and the life of a route across all parts.
pub mod RouteTable
pub mod RouteLifecycle
