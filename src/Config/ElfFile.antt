-- ===== src/Config/ElfFile.antt =====
-- src/config/version_info.cpp: the headers of an ELF file, by the numbers of that format. Memory for
-- the names of sections is taken to be there.

pub mod Header
use odin_analytics.Prelude.{
  ℕ, zero, suc, ◌+◌, ◌*◌, ◌%◌, ◌^◌, Bool, true, false, not, ◌&&◌, ◌||◌, if◌then◌else◌, ltb, leb,
  ◌==◌, List, [], ◌∷◌, length, get_or, Option, none, some, Result, ok, err, ◌>>=◌, undefined,
  runtime_error,
}
use odin_analytics.Prelude.Int.{ℤ, pos, negsuc, sub_ℕ, eqb_ℤ}
use odin_analytics.Prelude.Text.{Text, eqb_text, drop_chars}
use odin_analytics.Config.FileStream.{
  Host, FileStream, first_bytes, is_good, seekg, read_bytes, read_number,
}

pub record Elf64Ehdr : Type 0 where
  pub e_ident : Text
  pub e_type : ℕ
  pub e_machine : ℕ
  pub e_version : ℕ
  pub e_entry : ℕ
  pub e_phoff : ℕ
  pub e_shoff : ℕ
  pub e_flags : ℕ
  pub e_ehsize : ℕ
  pub e_phentsize : ℕ
  pub e_phnum : ℕ
  pub e_shentsize : ℕ
  pub e_shnum : ℕ
  pub e_shstrndx : ℕ

pub record Elf64Shdr : Type 0 where
  pub sh_name : ℕ
  pub sh_type : ℕ
  pub sh_flags : ℕ
  pub sh_addr : ℕ
  pub sh_offset : ℕ
  pub sh_size : ℕ
  pub sh_link : ℕ
  pub sh_info : ℕ
  pub sh_addralign : ℕ
  pub sh_entsize : ℕ

-- The places in `e_ident` of the class, of the order of bytes and of the version.
abbrev pub ei_class : ℕ
ei_class = 4

abbrev pub ei_data : ℕ
ei_data = 5

abbrev pub ei_version : ℕ
ei_version = 6

-- "\x7fELF"
abbrev pub elf_magic : Text
elf_magic = 0x7f ∷ 69 ∷ 76 ∷ 70 ∷ []

unfoldable pub is_64 : Text → Bool
is_64 ident = get_or ident ei_class 0 == 2

unfoldable pub is_little_endian : Text → Bool
is_little_endian ident = get_or ident ei_data 0 == 1

unfoldable pub is_big_endian : Text → Bool
is_big_endian ident = get_or ident ei_data 0 == 2

-- A byte that is read as a plain `char` and promoted to `int`.
unfoldable pub char_value : Host → ℕ → ℤ
char_value host b = if host.has_signed_char && leb 128 b then sub_ℕ b 256 else pos b

-- The first byte in memory of 0xFF00 tells the host's order.
unfoldable pub is_native_endian : Host → Text → Bool
is_native_endian host ident =
    let vp_0 = char_value host (if host.has_big_endian then 0xFF else 0x00) in
    (eqb_ℤ vp_0 (pos 0xFF) && is_big_endian ident)
    || (eqb_ℤ vp_0 (pos 0x00) && is_little_endian ident)

unfoldable pub is_exe : ℕ → Bool
is_exe e_type = e_type == 2

unfoldable pub is_dyn : ℕ → Bool
is_dyn e_type = e_type == 3

-- The tests of the bytes of `e_ident`, each with its exception.
unfoldable pub check_ident : Host → Text → Result Text
check_ident host ident =
    if not (eqb_text (first_bytes 4 ident) elf_magic)
    then err runtime_error
    else if not (is_64 ident)
    then err runtime_error
    else if not (is_big_endian ident) && not (is_little_endian ident)
    then err runtime_error
    else if not (get_or ident ei_version 0 == 1)
    then err runtime_error
    else if not (is_native_endian host ident)
    then err runtime_error
    else ok ident

-- A member that must pass a test.
unfoldable pub read_checked : Host → ℕ → (ℕ → Bool) → FileStream → Result (ℕ × FileStream)
read_checked host n test fs =
    let got = read_number host n fs in if not (test got.0) then err runtime_error else ok got

unfoldable pub elf_header : Host → FileStream → Result (Elf64Ehdr × FileStream)
elf_header host fs =
    let ident = read_bytes 16 fs in
    check_ident host ident.0 >>= λ checked.
    read_checked host 2 (λ t. is_exe t || is_dyn t) ident.1 >>= λ type.
    let machine = read_number host 2 type.1 in
    read_checked host 4 (λ v. v == 1) machine.1 >>= λ version.
    let entry = read_number host 8 version.1 in
    let phoff = read_number host 8 entry.1 in
    let shoff = read_number host 8 phoff.1 in
    let flags = read_number host 4 shoff.1 in
    read_checked host 2 (λ n. n == 0x40) flags.1 >>= λ ehsize.
    read_checked host 2 (λ n. n == 0x38) ehsize.1 >>= λ phentsize.
    let phnum = read_number host 2 phentsize.1 in
    read_checked host 2 (λ n. n == 0x40) phnum.1 >>= λ shentsize.
    let shnum = read_number host 2 shentsize.1 in
    let shstrndx = read_number host 2 shnum.1 in
    ok (
      record {
        e_ident = checked;
        e_type = type.0;
        e_machine = machine.0;
        e_version = version.0;
        e_entry = entry.0;
        e_phoff = phoff.0;
        e_shoff = shoff.0;
        e_flags = flags.0;
        e_ehsize = ehsize.0;
        e_phentsize = phentsize.0;
        e_phnum = phnum.0;
        e_shentsize = shentsize.0;
        e_shnum = shnum.0;
        e_shstrndx = shstrndx.0;
      },
      shstrndx.1,
    )

-- The members of a section's header, in their order.
unfoldable pub read_shdr : Host → FileStream → Elf64Shdr × FileStream
read_shdr host fs =
    let name = read_number host 4 fs in
    let type = read_number host 4 name.1 in
    let flags = read_number host 8 type.1 in
    let addr = read_number host 8 flags.1 in
    let offset = read_number host 8 addr.1 in
    let size = read_number host 8 offset.1 in
    let link = read_number host 4 size.1 in
    let info = read_number host 4 link.1 in
    let addralign = read_number host 8 info.1 in
    let entsize = read_number host 8 addralign.1 in
    (
      record {
        sh_name = name.0;
        sh_type = type.0;
        sh_flags = flags.0;
        sh_addr = addr.0;
        sh_offset = offset.0;
        sh_size = size.0;
        sh_link = link.0;
        sh_info = info.0;
        sh_addralign = addralign.0;
        sh_entsize = entsize.0;
      },
      entsize.1,
    )

-- An exception ends the use of the stream, so that where the type is tested does not show.
unfoldable pub elf_section_name_header :
    Host → FileStream → Elf64Ehdr → Result (Elf64Shdr × FileStream)
elf_section_name_header host fs hdr =
    let found = seekg ((hdr.e_shoff + hdr.e_shstrndx * hdr.e_shentsize) % 2 ^ 64) fs in
    let read = read_shdr host found in
    if not (is_good found)
    then err runtime_error
    else if not (read.0.sh_type == 3)
    then err runtime_error
    else ok read

-- The text up to a NUL; without one, the read goes past the buffer.
unfoldable pub null_terminated : Text → Result Text
null_terminated [] = err undefined
null_terminated (c ∷ cs) =
    let rest = null_terminated cs in if c == 0 then ok [] else rest >>= λ s. ok (c ∷ s)

-- The loop over n section headers, the names of which are in `name_data`.
unfoldable pub find_section :
    Host → Text → Text → ℕ → FileStream → Result (Option Elf64Shdr × FileStream)
find_section host name_data name zero fs = ok (none, fs)
find_section host name_data name (suc n) fs =
    let res = read_shdr host fs in
    null_terminated (drop_chars res.0.sh_name name_data) >>= λ found. elim (eqb_text name found) [
      | true ↦ ok (some res.0, res.1)
      | false ↦ find_section host name_data name n res.1
    ]

unfoldable pub elf_section_header :
    Host → FileStream → Elf64Ehdr → Elf64Shdr → Text → Result (Option Elf64Shdr × FileStream)
elf_section_header host fs hdr nhdr name =
    let name_data = read_bytes nhdr.sh_size (seekg nhdr.sh_offset fs) in
    find_section host name_data.0 name hdr.e_shnum (seekg hdr.e_shoff name_data.1)
