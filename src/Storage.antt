-- ===== src/Storage.antt =====
-- The product queue: the files under storage/pq.
pub mod FreeBlock
pub mod QueueEntry
pub mod RegionList
pub mod SignatureIndex
pub mod SkipList
pub mod Control
pub mod QueueMetrics
pub mod RegionManager
pub mod TimeQueue
pub mod QueueIndexManager
pub mod ProductQueue
mod Samples
pub mod QueueCursor
