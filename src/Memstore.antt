-- ===== src/Memstore.antt =====
-- engine/kernel/store/memstore
pub mod Item
pub mod Tree
pub mod ListTree
pub mod Db
pub mod Tx
pub mod View
pub mod Scan
pub mod Batch
pub mod Store
pub mod Locks
mod Tests
