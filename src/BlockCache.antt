-- ===== src/BlockCache.antt =====
-- component/block_cache: the memory blocks of the block cache and the pool that hands them out.
pub mod Block
pub mod Commit
pub mod Handle
pub mod Read
pub mod Pool
