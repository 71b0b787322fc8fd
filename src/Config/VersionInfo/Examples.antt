-- ===== src/Config/VersionInfo/Examples.antt =====
-- Versions and the files of them (src/config/version_info.cpp) at concrete bytes.
use odin_analytics.Prelude.{
  ℕ, ◌≡◌, refl, true, false, [], ◌∷◌, ◌++◌, length, replicate, ok, err, runtime_error,
}
use odin_analytics.Prelude.Text.{Text, codes}
use odin_analytics.Config.FileStream.{
  Host, file_stream, seekg, read_bytes, little_endian, native_number, read_number,
}
use odin_analytics.Config.ElfFile.{
  Elf64Ehdr, is_64, is_little_endian, is_big_endian, char_value, is_native_endian, is_exe, is_dyn,
  check_ident, read_checked, elf_header, read_shdr, elf_section_name_header, null_terminated,
  find_section, elf_section_header,
}
use odin_analytics.Config.ElfFile.Header.{IsSupported, elf_header-IsSupported}
use odin_analytics.Config.VersionInfo.{
  absent, opened, VersionInfo, section, trim_nulls, section_text, read_sections, load, version_info,
  hex_digit, hex_bytes, version_hex,
}
use odin_analytics.Config.VersionInfo.Hex.{read_hex}
use odin_analytics.Config.VersionInfo.Loaded.{version_info-read_hex}
use odin_analytics.Config.FileStream.Bytes.{all_bytes, all_bytes-AreBytes}

abbrev x86_host : Host
x86_host = record { has_big_endian = false; has_signed_char = true }

abbrev big_host : Host
big_host = record { has_big_endian = true; has_signed_char = true }

abbrev zeros : ℕ → Text
zeros n = replicate n 0

abbrev ident_bytes : Text
ident_bytes = 127 ∷ 69 ∷ 76 ∷ 70 ∷ 2 ∷ 1 ∷ 1 ∷ zeros 9

-- A shared object with two sections, whose headers stand at byte 64.
abbrev header_bytes : Text
header_bytes =
    ident_bytes
    ++ 3 ∷ 0 ∷ 62 ∷ 0 ∷ 1 ∷ zeros 19
    ++ 64 ∷ zeros 11
    ++ 64 ∷ 0 ∷ 56 ∷ 0 ∷ 0 ∷ 0 ∷ 64 ∷ 0 ∷ 2 ∷ 0 ∷ 0 ∷ 0 ∷ []

abbrev shdr_bytes : ℕ → ℕ → ℕ → ℕ → Text
shdr_bytes name type offset size =
    name ∷ 0 ∷ 0 ∷ 0 ∷ type ∷ zeros 19 ++ offset ∷ zeros 7 ++ size ∷ zeros 31

-- The names, and the number of the version 1.2.1.11.
abbrev version_file : Text
version_file =
    header_bytes
    ++ shdr_bytes 0 3 192 16
    ++ shdr_bytes 1 1 208 8
    ++ 0 ∷ codes "oa.version_num"
    ++ 0 ∷ 11 ∷ 0 ∷ 1 ∷ 0 ∷ 2 ∷ 0 ∷ 1 ∷ 0 ∷ []

abbrev version_1_2_1_11 : VersionInfo
version_1_2_1_11 = record {
  company = [];
  description = [];
  filename = [];
  product = [];
  version = [];
  version_num = 0x000100020001000b;
}

loaded : version_info x86_host (opened version_file) ≡ ok version_1_2_1_11
unfolding version_info load elf_header check_ident read_checked read_number native_number
    little_endian read_bytes seekg is_64 is_little_endian is_big_endian char_value is_native_endian
    is_exe is_dyn elf_section_name_header read_shdr elf_section_header find_section null_terminated
    read_sections section_text section
loaded = refl

not_native : version_info big_host (opened version_file) ≡ err runtime_error
unfolding version_info load elf_header check_ident read_bytes is_64 is_little_endian is_big_endian
    char_value is_native_endian
not_native = refl

too_short : version_info x86_host (opened ident_bytes) ≡ err runtime_error
unfolding version_info load elf_header check_ident read_checked read_number native_number
    little_endian read_bytes is_64 is_little_endian is_big_endian char_value is_native_endian is_exe
    is_dyn
too_short = refl

not_there : version_info x86_host absent ≡ err runtime_error
unfolding version_info
not_there = refl

trimmed : trim_nulls (97 ∷ 98 ∷ 0 ∷ 99 ∷ []) ≡ codes "ab"
unfolding trim_nulls
trimmed = refl

shown : version_hex version_1_2_1_11 ≡ codes "000100020001000b"
unfolding version_hex hex_bytes hex_digit
shown = refl

version_info-read_hex_example :
    (length (version_hex version_1_2_1_11) ≡ 16)
    × (read_hex 0 (version_hex version_1_2_1_11) ≡ 0x000100020001000b)
unfolding all_bytes
version_info-read_hex_example =
    version_info-read_hex x86_host version_file version_1_2_1_11
      (all_bytes-AreBytes version_file refl) loaded

abbrev shared_object : Elf64Ehdr
shared_object = record {
  e_ident = ident_bytes;
  e_type = 3;
  e_machine = 62;
  e_version = 1;
  e_entry = 0;
  e_phoff = 0;
  e_shoff = 64;
  e_flags = 0;
  e_ehsize = 64;
  e_phentsize = 56;
  e_phnum = 0;
  e_shentsize = 64;
  e_shnum = 2;
  e_shstrndx = 0;
}

taken :
    elf_header x86_host (file_stream version_file 0 false false)
    ≡ ok (shared_object, file_stream version_file 64 false false)
unfolding elf_header check_ident read_checked read_number native_number little_endian read_bytes
    is_64 is_little_endian is_big_endian char_value is_native_endian is_exe is_dyn
taken = refl

elf_header-IsSupported_example : IsSupported x86_host shared_object
elf_header-IsSupported_example =
    elf_header-IsSupported x86_host (file_stream version_file 0 false false)
      (file_stream version_file 64 false false) shared_object taken
