-- ===== src/StorageItem.antt =====
-- storage_item.py: reading, checking and editing bundles and `minecraft:storage_item` items.
pub mod Rules
pub mod Reading
pub mod Weight
pub mod Validate
pub mod Spec
mod Outcomes
mod Weighing
mod Entries
pub mod Accepted
pub mod View
mod Slots
mod Stored
pub mod Edits
pub mod Replace
pub mod Parent
mod Tests
pub mod Rounding
