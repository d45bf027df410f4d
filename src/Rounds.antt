-- ===== src/Rounds.antt =====
-- service/rounds.go and fetchRoundData of service/shared.go: the rounds of the chain.
pub mod Lookup
pub mod Boundary
pub mod Adjacent
pub mod Read
pub mod Search
pub mod Anchor
pub mod Info
pub mod Rest
pub mod Listing
pub mod Listed
pub mod Report
pub mod Kept
pub mod Before
pub mod Fetched
pub mod Bonuses
pub mod Paid
mod Tests
