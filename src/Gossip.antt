-- ===== src/Gossip.antt =====
-- internal/gossip: the cluster's view of its peers and of their endpoints.
pub mod Message
pub mod Sync
pub mod Server
pub mod Discovery
