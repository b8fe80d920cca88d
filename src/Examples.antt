-- ===== src/Examples.antt =====
-- Each theorem at a concrete input, and runs of the definitions.
pub mod Money
pub mod Rounds
pub mod Forms
pub mod Cards
pub mod Chain
pub mod Loans
