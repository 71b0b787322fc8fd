-- ===== src/Config/VersionInfo/Number.antt =====
-- The numeric version of a program (src/version_elf.cpp), of the version's three parts.
use odin_analytics.Prelude.{ℕ, ◌+◌, ◌*◌, ◌/◌, ◌%◌, ◌^◌, ◌<◌, ◌≡◌, arith}

unfoldable pub oa_version_num : ℕ → ℕ → ℕ → ℕ
oa_version_num major minor patch =
    (major * 2 ^ 0x30 % 2 ^ 64 + minor * 2 ^ 0x20 % 2 ^ 64 + patch * 2 ^ 0x10 % 2 ^ 64) % 2 ^ 64

-- Parts of 16 bits are apart in the number, above 16 bits that are zero.
oa_version_num-parts :
    (major minor patch : ℕ)
    → major < 2 ^ 16
    → minor < 2 ^ 16
    → patch < 2 ^ 16
    → (oa_version_num major minor patch / 2 ^ 48 ≡ major)
      × (oa_version_num major minor patch / 2 ^ 32 % 2 ^ 16 ≡ minor)
      × (oa_version_num major minor patch / 2 ^ 16 % 2 ^ 16 ≡ patch)
      × (oa_version_num major minor patch % 2 ^ 16 ≡ 0)
unfolding oa_version_num
oa_version_num-parts major minor patch p q r = (omega arith, omega arith, omega arith, omega arith)
