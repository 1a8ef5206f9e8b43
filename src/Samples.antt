-- ===== src/Samples.antt =====
-- Concrete containers, and the development run on them.
pub mod Containers
pub mod Heaps
pub mod Model
pub mod Data
mod Strings
mod Keys
mod Transactions
mod Times
mod Values
mod HashKeys
mod SetKeys
