-- ===== src/FileCache.antt =====
-- component/file_cache: the cache of whole files on the local disk.
pub mod LruPolicy
