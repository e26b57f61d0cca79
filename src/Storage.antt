-- ===== src/Storage.antt =====
-- Package storage: one child for each of its files.
pub mod Keys
pub mod ReadState
pub mod View
pub mod Balance
pub mod KeyLaws
pub mod Rollups
pub mod Exits
pub mod Epochs
pub mod Arcadia
pub mod Transactions
pub mod Returning
