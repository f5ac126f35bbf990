-- ===== src/PartitionServer.antt =====
-- ps/server: a partition server, its partitions and the addresses of their nodes.
pub mod Meta
pub mod Engine
pub mod Resolver
pub mod Partition
pub mod Server
mod Tests
