-- ===== src/Core.antt =====
-- The modules of core/.
pub mod FeedType
pub mod Timestamp
pub mod Pattern
pub mod ProdClass
pub mod UpFilter
pub mod AclManager
pub mod SemaphoreRwLock
pub mod Uldb
