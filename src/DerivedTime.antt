-- ===== src/DerivedTime.antt =====
-- src/derived_time: formulas that move dates, and the generation of cash flows.
pub mod Enums
pub mod Formula
pub mod CachedFormula
pub mod CashflowGen
pub mod Mappers
