-- ===== src/Store.antt =====
-- agent/factoryfleet_agent/store.py: the two tables and the methods of `Store`. Each method holds
-- the store's lock, so it is one step; a method that reads the clock takes what the clock returned.
-- `sqlite3` is the standard library's: a table is the list of its rows in the order of insertion,
-- and each statement of the source is the list operation that it describes. `none` is the
-- `ValueError` of a stored text that cannot be read back.
pub mod Table
pub mod Types
pub mod AssetState
pub mod Outbox
pub mod Order
pub mod Queue
pub mod Enqueue
pub mod Confirm
pub mod Prune
pub mod Latest
pub mod Batches
mod SensorOrder
mod SensorRows
pub mod Snapshot
pub mod History
