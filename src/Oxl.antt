-- ===== src/Oxl.antt =====
-- src/oxl: the data that the Excel add-in keeps, and its functions of dates and cash flows.
pub mod StdMap
pub mod Variant
pub mod Dictionary
pub mod Array
pub mod Converter
pub mod Cache
pub mod Dates
pub mod Cashflows
