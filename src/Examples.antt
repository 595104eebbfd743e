-- ===== src/Examples.antt =====
-- Concrete archives, transactions and databases, on which the theorems are used.
pub mod Archive
pub mod Ledger
pub mod Database
pub mod Download
pub mod Requests
pub mod Runs
pub mod History
pub mod Pool
pub mod Slots
pub mod Index
pub mod Transfer
pub mod Lifecycle
pub mod EndToEnd
pub mod Unpack
pub mod Signals
