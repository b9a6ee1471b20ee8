-- ===== src/Rules.antt =====
-- The rule language of src/rules.rs: what a parsed rule is, and how it is matched.
pub mod Flowbits
pub mod Effects
pub mod Address
pub mod Header
pub mod Vars
pub mod Number
pub mod Search
pub mod Content
pub mod Base64
pub mod Transform
pub mod Terms
pub mod Prefilter
mod Tests
