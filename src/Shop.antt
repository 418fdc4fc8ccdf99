-- ===== src/Shop.antt =====
-- examples/python/shelf_shop.py: stock on a shelf that is reserved before a purchase, and then
-- completed or restored. The shop works on the in-memory adapter here.
-- A message that the code puts together from a status or a slot has its fixed part alone.
pub mod Stock
pub mod Calls
pub mod Tokens
pub mod Separate
mod Tests
