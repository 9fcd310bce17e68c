-- ===== src/Nodes.antt =====
-- The package `nodes`: cluster nodes, the cluster and the backup client.
pub mod Library
pub mod Node
pub mod Cluster
pub mod BackupClient
