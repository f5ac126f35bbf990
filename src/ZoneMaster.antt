-- ===== src/ZoneMaster.antt =====
-- zm: the master of a zone.
pub mod TimeWheel
pub mod Partition
pub mod PartitionTree
pub mod Heartbeat
pub mod Caches
