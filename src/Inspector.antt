-- ===== src/Inspector.antt =====
-- examples/python/block_data_inspector_plugin/src/endstone_blockdata_inspector/plugin.py: the
-- in-game commands of the inspector plugin.
pub mod Python
pub mod Reading
pub mod Summary
pub mod Pages
pub mod Session
pub mod Command
pub mod Bridge
pub mod Targets
pub mod Items
pub mod States
pub mod Difference
pub mod Audits
pub mod Found
pub mod Locate
pub mod Shelves
pub mod Inspect
pub mod Forms
pub mod Checks
pub mod Responses
pub mod Dispatch
pub mod Triples
pub mod Reads
pub mod Writes
pub mod Calls
pub mod Guard
pub mod Answers
pub mod Events
pub mod Tokens
pub mod Confirmation
mod Tests
