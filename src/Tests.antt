-- ===== src/Tests.antt =====
-- The theorems at concrete data, and the data: a small range of addresses, a graph with two hosts
-- and a switch.
pub mod Network
pub mod Graphs
pub mod Hosts
pub mod Numbers
pub mod Commands
pub mod Runs
pub mod Scripts
pub mod Images
pub mod Customized
pub mod Lifecycle
pub mod Inventories
pub mod Again
pub mod Programs
pub mod Accessors
