-- ===== src/Coordination.antt =====
-- The coordination service: services/coordination/coordination.
mod Tests
pub mod VersionVector
pub mod ClusterState
pub mod Heartbeat
pub mod Gossip
pub mod LeaderElection
pub mod ConfigSync
pub mod OtaCoordinator
pub mod Servicer
