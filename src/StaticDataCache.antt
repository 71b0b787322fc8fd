-- ===== src/StaticDataCache.antt =====
-- src/static_data_cache: calendars made from their files once, and shared.
pub mod CalendarCache
pub mod Services
