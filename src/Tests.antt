-- ===== src/Tests.antt =====
-- Concrete runs: each property with conditions is applied to an example of the code's data.
mod Samples
mod Wire
mod Stat
mod Session
mod Requests
mod Calls
mod Ledger
mod Gathered
mod Texts
mod Order
