-- ===== src/Contracts.antt =====
-- The safety contracts of chainweaver/contracts.py: the three ordered levels, the contract with the
-- two validators that pydantic runs on its payload, the ceiling test and `merge_safety`.
pub mod Levels
mod Tests
pub mod Build
pub mod Merge
