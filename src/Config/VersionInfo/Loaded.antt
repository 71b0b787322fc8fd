-- ===== src/Config/VersionInfo/Loaded.antt =====
-- The version that is loaded from a file (src/config/version_info.cpp).
use odin_analytics.Prelude.{
  ℕ, zero, suc, ◌^◌, ◌<◌, ◌≡◌, subst, Bool, Bool-cases, inl, inr, ◌==◌, ==_iff, length, Option,
  none, some, Result, ok, ◌>>=◌, OnValue, on_ok, on_err, chain-OnValue, pass_value, if-OnValue,
  value_has,
}
use odin_analytics.Prelude.Text.{Text, eqb_text, drop_chars}
use odin_analytics.Config.FileStream.{
  Host, FileStream, seekg, read_bytes, native_number, read_number,
}
use odin_analytics.Config.FileStream.Bytes.{
  AreBytes, HasBytes, seekg-HasBytes, read_bytes-AreBytes, read_bytes-HasBytes,
  read_number-HasBytes, native_number-lt,
}
use odin_analytics.Config.ElfFile.{
  Elf64Ehdr, Elf64Shdr, check_ident, read_checked, elf_header, read_shdr, elf_section_name_header,
  null_terminated, find_section, elf_section_header,
}
use odin_analytics.Config.VersionInfo.{
  opened, VersionInfo, section, section_text, read_sections, load, version_info, version_hex,
}
use odin_analytics.Config.VersionInfo.Hex.{read_hex, version_hex-read_hex}

-- The stream after a call that returns.
KeepsBytes : {A : Type 0} → Result (A × FileStream) → Type 0
KeepsBytes {A = A} r = OnValue (λ (got : A × FileStream). HasBytes got.1) r

module _ {A : Type 0} {P : A → Type 0} (host : Host) where
  check_ident-pass :
      (ident : Text) (f : Text → Result A)
      → ((checked : Text) → OnValue P (f checked))
      → OnValue P (check_ident host ident >>= f)
  check_ident-pass ident f k = chain-OnValue (check_ident host ident) f (λ c h. k c)

  read_checked-pass :
      (n : ℕ) (test : ℕ → Bool) (fs : FileStream) (f : ℕ × FileStream → Result A)
      → HasBytes fs
      → ((got : ℕ × FileStream) → HasBytes got.1 → OnValue P (f got))
      → OnValue P (read_checked host n test fs >>= f)
  unfolding read_checked
  read_checked-pass n test fs f h k =
      let got : ℕ × FileStream = read_number host n fs in
      elim (Bool-cases (test got.0)) [
        | inl passed ↦ rw passed (k got (read_number-HasBytes host n fs h))
        | inr refused ↦ rw refused (on_err _)
      ]

elf_header-KeepsBytes :
    (host : Host) (fs : FileStream) → HasBytes fs → KeepsBytes (elf_header host fs)
unfolding elf_header KeepsBytes
elf_header-KeepsBytes host fs h =
    search (check_ident-pass, read_checked-pass, on_ok, read_bytes-HasBytes, read_number-HasBytes)
      depth 40

read_shdr-HasBytes : (host : Host) (fs : FileStream) → HasBytes fs → HasBytes (read_shdr host fs).1
unfolding read_shdr
read_shdr-HasBytes host fs h = search read_number-HasBytes depth 20

elf_section_name_header-KeepsBytes :
    (host : Host) (fs : FileStream) (hdr : Elf64Ehdr)
    → HasBytes fs
    → KeepsBytes (elf_section_name_header host fs hdr)
unfolding elf_section_name_header KeepsBytes
elf_section_name_header-KeepsBytes host fs hdr h =
    search (if-OnValue, on_ok, on_err, read_shdr-HasBytes, seekg-HasBytes)

find_section-KeepsBytes :
    (host : Host) (name_data name : Text) (n : ℕ) (fs : FileStream)
    → HasBytes fs
    → KeepsBytes (find_section host name_data name n fs)
unfolding find_section KeepsBytes
find_section-KeepsBytes host name_data name zero fs h = on_ok _ h
find_section-KeepsBytes host name_data name (suc n) fs h =
    let res : Elf64Shdr × FileStream = read_shdr host fs in
    let kept : HasBytes res.1 = read_shdr-HasBytes host fs h in
    chain-OnValue (null_terminated (drop_chars res.0.sh_name name_data)) _ (λ found e.
      elim (Bool-cases (eqb_text name found)) [
        | inl match ↦ rw match (on_ok _ kept)
        | inr other ↦ rw other (find_section-KeepsBytes host name_data name n res.1 kept)
      ])

elf_section_header-KeepsBytes :
    (host : Host) (fs : FileStream) (hdr : Elf64Ehdr) (nhdr : Elf64Shdr) (name : Text)
    → HasBytes fs
    → KeepsBytes (elf_section_header host fs hdr nhdr name)
unfolding elf_section_header
elf_section_header-KeepsBytes host fs hdr nhdr name h =
    find_section-KeepsBytes host _ name hdr.e_shnum _
      (seekg-HasBytes _ _ (read_bytes-HasBytes _ _ (seekg-HasBytes _ fs h)))

section_text-HasBytes :
    (o : Option Elf64Shdr) (fs : FileStream) → HasBytes fs → HasBytes (section_text o fs).1
unfolding section_text section
section_text-HasBytes none fs h = h
section_text-HasBytes (some hdr) fs h = read_bytes-HasBytes _ _ (seekg-HasBytes _ fs h)

abbrev Fits : VersionInfo → Type 0
Fits info = info.version_num < 2 ^ 64

-- The number of a section of eight bytes.
read_sections-Fits :
    (host : Host) (fs : FileStream) (c d f p v n : Option Elf64Shdr)
    → HasBytes fs
    → OnValue Fits (read_sections host fs c d f p v n)
unfolding read_sections section
read_sections-Fits host fs c d f p v none h = on_err _
read_sections-Fits host fs c d f p v (some num_hdr) h =
    let num_str : Text =
      (read_bytes num_hdr.sh_size (
        seekg num_hdr.sh_offset
          (section_text v
            (section_text p (section_text f (section_text d (section_text c fs).1).1).1).1).1)).0 in
    let are : AreBytes num_str =
      search (read_bytes-AreBytes, seekg-HasBytes, section_text-HasBytes) depth 12 in
    elim (Bool-cases (length num_str == 8)) [
      | inl eight ↦
          let n : length num_str ≡ 8 = (==_iff _ _).0 eight in
          rw eight (
            on_ok _ (
              subst (λ k. native_number host num_str < 256 ^ k) n
                (native_number-lt host num_str are)))
      | inr other ↦ rw other (on_err _)
    ]

module _ {A : Type 0} {P : A → Type 0} (host : Host) (fs : FileStream) (h : HasBytes fs) where
  elf_header-pass :
      (f : Elf64Ehdr × FileStream → Result A)
      → ((got : Elf64Ehdr × FileStream) → HasBytes got.1 → OnValue P (f got))
      → OnValue P (elf_header host fs >>= f)
  unfolding KeepsBytes
  elf_header-pass f k = pass_value (elf_header host fs) f (elf_header-KeepsBytes host fs h) k

  name_header-pass :
      (hdr : Elf64Ehdr) (f : Elf64Shdr × FileStream → Result A)
      → ((got : Elf64Shdr × FileStream) → HasBytes got.1 → OnValue P (f got))
      → OnValue P (elf_section_name_header host fs hdr >>= f)
  unfolding KeepsBytes
  name_header-pass hdr f k =
      pass_value (elf_section_name_header host fs hdr) f
        (elf_section_name_header-KeepsBytes host fs hdr h) k

  section_header-pass :
      (hdr : Elf64Ehdr) (nhdr : Elf64Shdr) (name : Text)
      (f : Option Elf64Shdr × FileStream → Result A)
      → ((got : Option Elf64Shdr × FileStream) → HasBytes got.1 → OnValue P (f got))
      → OnValue P (elf_section_header host fs hdr nhdr name >>= f)
  unfolding KeepsBytes
  section_header-pass hdr nhdr name f k =
      pass_value (elf_section_header host fs hdr nhdr name) f
        (elf_section_header-KeepsBytes host fs hdr nhdr name h) k

load-Fits : (host : Host) (fs : FileStream) → HasBytes fs → OnValue Fits (load host fs)
unfolding load
load-Fits host fs h =
    search (elf_header-pass, name_header-pass, section_header-pass, read_sections-Fits) depth 40

version_info-Fits :
    (host : Host) (bytes : Text) → AreBytes bytes → OnValue Fits (version_info host (opened bytes))
unfolding version_info
version_info-Fits host bytes h = load-Fits host _ (record { are_bytes = h })

-- The number of a version that is loaded from any file of bytes, on any host, fits 64 bits: it is
-- spelled by sixteen hexadecimal digits, from which
-- it is read back.
pub version_info-read_hex :
    (host : Host) (bytes : Text) (info : VersionInfo)
    → AreBytes bytes
    → version_info host (opened bytes) ≡ ok info
    → (length (version_hex info) ≡ 16) × (read_hex 0 (version_hex info) ≡ info.version_num)
version_info-read_hex host bytes info are h =
    version_hex-read_hex info
      (value_has (version_info host (opened bytes)) info (version_info-Fits host bytes are) h)
