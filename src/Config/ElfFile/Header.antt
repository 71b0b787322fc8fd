-- ===== src/Config/ElfFile/Header.antt =====
-- The headers that `elf_header` of src/config/version_info.cpp takes.
use odin_analytics.Prelude.{
  ℕ, ◌≡◌, ◌⊎◌, inl, inr, arith, true, false, get_or, ok, Result, ◌>>=◌, ◌==◌, chain-OnValue,
  value_has, OnValue, on_ok, guard_ok, Bool-cases, ==_iff, subst, ok-injective, not, Bool, ◌||◌,
}
use odin_analytics.Prelude.Text.{Text, eqb_text-eq}
use odin_analytics.Config.FileStream.{Host, FileStream, first_bytes}
use odin_analytics.Config.ElfFile.{
  Elf64Ehdr, ei_class, ei_data, ei_version, elf_magic, is_64, is_little_endian, is_big_endian,
  char_value, is_native_endian, is_exe, is_dyn, check_ident, read_checked, elf_header,
}

-- The bytes of numbers have the host's order; a host that has the high byte first must not have a
-- sign on its plain `char`.
pub data IsNative (host : Host) (ident : Text) : Type 0 where
  low_first : host.has_big_endian ≡ false → get_or ident ei_data 0 ≡ 1 → IsNative host ident
  high_first :
      host.has_big_endian ≡ true
      → host.has_signed_char ≡ false
      → get_or ident ei_data 0 ≡ 2
      → IsNative host ident

pub record IsIdent (host : Host) (ident : Text) : Type 0 where
  has_magic : first_bytes 4 ident ≡ elf_magic
  has_class : get_or ident ei_class 0 ≡ 2
  has_version : get_or ident ei_version 0 ≡ 1
  has_order : IsNative host ident

is_native_endian-IsNative :
    (host : Host) (ident : Text) → is_native_endian host ident ≡ true → IsNative host ident
unfolding is_native_endian is_big_endian is_little_endian char_value
is_native_endian-IsNative host ident h = elim (Bool-cases host.has_big_endian) [
  | inl big ↦ elim (Bool-cases host.has_signed_char) [
    | inl signed ↦ absurd (ground arith)
    | inr unsigned ↦ high_first big unsigned (ground arith)
  ]
  | inr little ↦ low_first little (ground arith)
]

class_found : (ident : Text) → is_64 ident ≡ true → get_or ident ei_class 0 ≡ 2
unfolding is_64
class_found ident h = ground arith

unnegated : (b : Bool) → not b ≡ false → b ≡ true
unnegated b h = ground arith

check_ident-IsIdent :
    (host : Host) (ident checked : Text)
    → check_ident host ident ≡ ok checked
    → IsIdent host checked
unfolding check_ident
check_ident-IsIdent host ident checked h =
    let (a, h1) = guard_ok _ _ _ checked h in
    let (b, h2) = guard_ok _ _ _ checked h1 in
    let (c, h3) = guard_ok _ _ _ checked h2 in
    let (d, h4) = guard_ok _ _ _ checked h3 in
    let (e, h5) = guard_ok _ _ _ checked h4 in
    subst (IsIdent host) (ok-injective h5) (record {
      has_magic = eqb_text-eq _ _ (unnegated _ a);
      has_class = class_found ident (unnegated _ b);
      has_version = (==_iff _ _).0 (unnegated _ d);
      has_order = is_native_endian-IsNative host ident (unnegated _ e);
    })

read_checked-passed :
    (host : Host) (n : ℕ) (test : ℕ → Bool) (fs : FileStream) (got : ℕ × FileStream)
    → read_checked host n test fs ≡ ok got
    → test got.0 ≡ true
unfolding read_checked
read_checked-passed host n test fs got h =
    let (passed, e) = guard_ok _ _ _ got h in
    subst (λ g. test g.0 ≡ true) (ok-injective e) (unnegated _ passed)

-- A header that is taken: its identification, its type, its version and the sizes of its parts.
pub record IsSupported (host : Host) (hdr : Elf64Ehdr) : Type 0 where
  is_ident : IsIdent host hdr.e_ident
  is_program : (hdr.e_type ≡ 2) ⊎ (hdr.e_type ≡ 3)
  is_current : hdr.e_version ≡ 1
  header_size : hdr.e_ehsize ≡ 0x40
  program_entry_size : hdr.e_phentsize ≡ 0x38
  section_entry_size : hdr.e_shentsize ≡ 0x40

program_type : (t : ℕ) → (is_exe t || is_dyn t) ≡ true → (t ≡ 2) ⊎ (t ≡ 3)
unfolding is_exe is_dyn
program_type t h = ground arith

supported :
    (host : Host) (hdr : Elf64Ehdr)
    → IsIdent host hdr.e_ident
    → (is_exe hdr.e_type || is_dyn hdr.e_type) ≡ true
    → (hdr.e_version == 1) ≡ true
    → (hdr.e_ehsize == 0x40) ≡ true
    → (hdr.e_phentsize == 0x38) ≡ true
    → (hdr.e_shentsize == 0x40) ≡ true
    → IsSupported host hdr
supported host hdr a b c d e f = record {
  is_ident = a;
  is_program = program_type hdr.e_type b;
  is_current = (==_iff _ _).0 c;
  header_size = (==_iff _ _).0 d;
  program_entry_size = (==_iff _ _).0 e;
  section_entry_size = (==_iff _ _).0 f;
}

module _ {A : Type 0} {P : A → Type 0} (host : Host) where
  check_ident-chain :
      (ident : Text) (f : Text → Result A)
      → ((checked : Text) → IsIdent host checked → OnValue P (f checked))
      → OnValue P (check_ident host ident >>= f)
  check_ident-chain ident f k =
      chain-OnValue (check_ident host ident) f (λ c h. k c (check_ident-IsIdent host ident c h))

  read_checked-chain :
      (n : ℕ) (test : ℕ → Bool) (fs : FileStream) (f : ℕ × FileStream → Result A)
      → ((got : ℕ × FileStream) → test got.0 ≡ true → OnValue P (f got))
      → OnValue P (read_checked host n test fs >>= f)
  read_checked-chain n test fs f k =
      chain-OnValue (read_checked host n test fs) f
        (λ g h. k g (read_checked-passed host n test fs g h))

elf_header-OnValue :
    (host : Host) (fs : FileStream)
    → OnValue (λ (got : Elf64Ehdr × FileStream). IsSupported host got.0) (elf_header host fs)
unfolding elf_header
elf_header-OnValue host fs =
    search (check_ident-chain, read_checked-chain, on_ok, supported) depth 20

-- A header that is taken is one of this format's first version for 64 bits, of a program or of a
-- shared object, with the sizes of the format, and its numbers have the host's order of bytes; a
-- host that has the high byte first takes none at all if its plain `char` has a sign.
pub elf_header-IsSupported :
    (host : Host) (fs rest : FileStream) (hdr : Elf64Ehdr)
    → elf_header host fs ≡ ok (hdr, rest)
    → IsSupported host hdr
elf_header-IsSupported host fs rest hdr h =
    value_has (elf_header host fs) (hdr, rest) (elf_header-OnValue host fs) h
