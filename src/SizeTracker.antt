-- ===== src/SizeTracker.antt =====
-- component/size_tracker: the journal of the tracked size, the component, and its eviction modes.
pub mod Decimal
pub mod JournalText
pub mod Journal
pub mod Fleet
pub mod Epochs
pub mod Tracker
