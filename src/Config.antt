-- ===== src/Config.antt =====
-- src/config: the version that is kept in a program's file.
pub mod FileStream
pub mod ElfFile
pub mod VersionInfo
