-- ===== src/Time.antt =====
-- src/time and include/oa/time: dates, tenors, calendars and the rules that use them.
pub mod Enums
pub mod Tenor
pub mod Date
pub mod Calendar
pub mod DateAdjust
pub mod DayCount
pub mod Mappers
