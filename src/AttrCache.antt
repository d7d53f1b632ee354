-- ===== src/AttrCache.antt =====
-- component/attr_cache: the cache of the attributes of paths, a tree of items with a map of all paths.
pub mod Item
pub mod Tree
pub mod Deletion
pub mod Ancestors
pub mod Handlers
pub mod Removals
pub mod Renames
pub mod Listings
pub mod Rooted
pub mod Attached
pub mod Insert
pub mod Answers
mod Tests
