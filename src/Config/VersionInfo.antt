-- ===== src/Config/VersionInfo.antt =====
-- src/config/version_info.cpp: `version_info` on systems with ELF files. The file system is a
-- parameter: what is at the path.
pub mod Hex
pub mod Loaded
pub mod Number
pub mod Examples
use odin_analytics.Prelude.{
  ℕ, zero, suc, ◌+◌, ◌*◌, ◌/◌, ◌%◌, ◌^◌, Bool, true, false, not, if◌then◌else◌, ◌==◌, List, [], ◌∷◌,
  length, get_or, Option, none, some, Result, ok, err, ◌>>=◌, runtime_error,
}
use odin_analytics.Prelude.Text.{Text, codes}
use odin_analytics.Config.FileStream.{
  Host, FileStream, file_stream, seekg, read_bytes, native_number,
}
use odin_analytics.Config.ElfFile.{
  Elf64Ehdr, Elf64Shdr, elf_header, elf_section_name_header, elf_section_header,
}

-- What is at a path: nothing, what does not open as a file, or a file with its bytes.
pub data Binary : Type 0 where
  absent unopened : Binary
  opened : Text → Binary

pub record VersionInfo : Type 0 where
  pub company : Text
  pub description : Text
  pub filename : Text
  pub product : Text
  pub version : Text
  pub version_num : ℕ

unfoldable pub section : Elf64Shdr → FileStream → Text × FileStream
section hdr fs = read_bytes hdr.sh_size (seekg hdr.sh_offset fs)

-- The bytes before the first NUL.
unfoldable pub trim_nulls : Text → Text
trim_nulls [] = []
trim_nulls (c ∷ cs) = let rest = trim_nulls cs in if c == 0 then [] else c ∷ rest

-- The text of a section, where there is one.
unfoldable pub section_text : Option Elf64Shdr → FileStream → Text × FileStream
section_text none fs = ([], fs)
section_text (some hdr) fs = let got = section hdr fs in (trim_nulls got.0, got.1)

-- The texts and the number, after the headers have been found.
unfoldable pub read_sections :
    Host
    → FileStream
    → Option Elf64Shdr
    → Option Elf64Shdr
    → Option Elf64Shdr
    → Option Elf64Shdr
    → Option Elf64Shdr
    → Option Elf64Shdr
    → Result VersionInfo
read_sections host fs com_hdr desc_hdr fname_hdr prod_hdr ver_hdr none = err runtime_error
read_sections host fs com_hdr desc_hdr fname_hdr prod_hdr ver_hdr (some num_hdr) =
    let com_text = section_text com_hdr fs in
    let desc = section_text desc_hdr com_text.1 in
    let fname = section_text fname_hdr desc.1 in
    let prod = section_text prod_hdr fname.1 in
    let ver = section_text ver_hdr prod.1 in
    let num_str = (section num_hdr ver.1).0 in
    if not (length num_str == 8)
    then err runtime_error
    else ok (record {
      company = com_text.0;
      description = desc.0;
      filename = fname.0;
      product = prod.0;
      version = ver.0;
      version_num = native_number host num_str;
    })

-- The body of the constructor, on the stream of the file.
unfoldable pub load : Host → FileStream → Result VersionInfo
load host fs = elf_header host fs >>= λ e. elf_section_name_header host e.1 e.0 >>= λ n.
    elf_section_header host n.1 e.0 n.0 (codes "oa.company") >>= λ com_text.
    elf_section_header host com_text.1 e.0 n.0 (codes "oa.description") >>= λ desc.
    elf_section_header host desc.1 e.0 n.0 (codes "oa.filename") >>= λ fname.
    elf_section_header host fname.1 e.0 n.0 (codes "oa.product") >>= λ prod.
    elf_section_header host prod.1 e.0 n.0 (codes "oa.version") >>= λ ver.
    elf_section_header host ver.1 e.0 n.0 (codes "oa.version_num") >>= λ num.
    read_sections host num.1 com_text.0 desc.0 fname.0 prod.0 ver.0 num.0

-- A stream that does not open has failed before it is read.
unfoldable pub version_info : Host → Binary → Result VersionInfo
version_info host absent = err runtime_error
version_info host unopened = load host (file_stream [] 0 false true)
version_info host (opened bytes) = load host (file_stream bytes 0 false false)

unfoldable pub hex_digit : ℕ → ℕ
hex_digit d = get_or (codes "0123456789abcdef") d 0

-- The loop over the bytes from the highest one: n is `sizeof ver - i - 1` and one more.
unfoldable pub hex_bytes : ℕ → ℕ → Text
hex_bytes zero ver = []
hex_bytes (suc n) ver =
    hex_digit (ver / 2 ^ (8 * n + 4) % 16) ∷ hex_digit (ver / 2 ^ (8 * n) % 16) ∷ hex_bytes n ver

unfoldable pub version_hex : VersionInfo → Text
version_hex info = hex_bytes 8 info.version_num
