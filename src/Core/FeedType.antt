-- ===== src/Core/FeedType.antt =====
-- core/FeedType.h and .cpp: feed types are masks of 32 bits, with their names and expressions.
pub mod Masks
pub mod Names
pub mod Expression
pub mod Cover
pub mod Diverges
mod Tests
