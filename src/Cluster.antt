-- ===== src/Cluster.antt =====
-- internal/cluster and internal/queue: the Raft node and the replicated queue over it.
pub mod Raft
pub mod Vote
pub mod Append
pub mod AppendLaws
pub mod Quorum
mod Tests
