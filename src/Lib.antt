-- ===== src/Lib.antt =====
-- OdinAnalytics: dates, calendars, day counts and cash flows of a front-office library.
--
-- The program's parts and the modules that model them. Paths are those of the repository.
-- Time.Date: src/time/date.cpp and include/oa/time/date.h. A `Date` is one Julian day number;
--   `ymd` and `convert_to_julian` are `YMD` and `ConvertToJulian`, `from_ymd` is the constructor,
--   `add_months` and its siblings are `AddMonths` and its siblings. Time.Date.Parse has the texts.
-- Time.Tenor: src/time/tenor.cpp, with the expression of src/helpers/utils.h in Time.Tenor.Parse
--   and the hash in Time.Tenor.Hash.
-- Time.Calendar: src/time/calendar.cpp. A calendar is seven bits and a set of day numbers.
-- Time.DateAdjust and Time.DayCount: src/time/date_adjust and src/time/day_count. The subclasses
--   of a base class are the constructors of a data type.
-- Time.Mappers and DerivedTime.Mappers: the names of enumerators (src/time/time_enum_mappers.cpp,
--   src/derived_time/derived_time_enum_mappers.cpp).
-- DerivedTime: src/derived_time. Formula has the date formulas, and CachedFormula their constructors
--   from texts. CashflowGen has the two schedules of `CreateFixedCashflows`, CashflowGen.Coupon the
--   cash flows that are made from them, and CashflowGen.Setters the setters of its options.
-- Dao and StaticDataCache: src/dao/calendar_dao.cpp reads a calendar's file, and
--   src/static_data_cache/calendar_cache.cpp keeps the calendars made so far. A request takes the
--   cache and returns the calendar with the cache afterwards. StaticDataCache.Services is a record of
--   what the cache and its callers take from outside.
-- Oxl: src/oxl, the add-in for Excel. Oxl.Dictionary and Oxl.Array are `XlDictionary` and `XlArray`
--   of src/oxl/xl_api, over the `std::map` of Oxl.StdMap; Oxl.Converter has their conversions, and
--   Oxl.Cache the cache of objects that cells name by their handles, with `OxlDisplay`. Oxl.Dates
--   and Oxl.Cashflows are the functions of src/oxl/time_xl.cpp, with the readers of arguments of
--   src/oxl/xl_api/xl_utils.h and src/oxl/xl_api/excel_base.cpp.
-- FixedString: include/oa/fixed_string.h, strings whose lengths are template arguments, and the
--   source locations of include/oa/ctti.h.
-- Config: src/config/version_info.cpp. Config.FileStream is its `std::ifstream`, Config.ElfFile has the
--   headers of an ELF file, and Config.VersionInfo the version that its sections
--   hold, the number of which src/version_elf.cpp makes of three parts.
-- Strings, Utils: include/oa/string.h, src/helpers. Texts are lists of ASCII codes.
-- Prelude: shared names, tests, lists, the integers with their laws, exceptions as values.
--
-- An exception is an `err` of Prelude.Errors; `undefined` stands for what C++ does not define, as
-- `back()` of an empty vector. An `int` is an integer without bounds, but where a text is read.
-- Division rounds towards zero, as in C++. Floating-point numbers are a record of operations without
-- laws (Prelude.Double).
--
-- Loops over dates run on fuel. The search for a business day has seven rounds for each holiday and
-- seven more: in each week but the last, a holiday falls on a given open weekday. The loop of a
-- schedule, in either direction, has a round for each day between its start and maturity and one
-- more, as a positive tenor moves at least a day on. The reader of a file has two rounds more than it
-- has characters. Each is shown to be enough.
--
-- Parameters stand for code that is not in the repository: the files, Boost's `split` and `join`,
-- magic_enum's `enum_cast` and `enum_name`, Excel's name of the calling cell, and the number and the
-- text of an `XLOPER12`. Not modelled are the glue to Excel's C API (conversion of its values,
-- registration, memory), the generated functions and the bindings, the paths of the running program,
-- the reading of a version on Windows, the clock, and the texts of exceptions.
pub mod Prelude
pub mod Strings
pub mod Utils
pub mod Time
pub mod DerivedTime
pub mod Dao
pub mod StaticDataCache
pub mod Oxl
pub mod FixedString
pub mod Config
