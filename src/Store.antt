-- ===== src/Store.antt =====
-- The in-memory tables of engine/mem: the rows of each partition, a partition being a day, in the order
-- in which they were inserted.
pub mod Rows
pub mod Locking
pub mod Partitions
