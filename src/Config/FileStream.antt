-- ===== src/Config/FileStream.antt =====
-- The `std::ifstream` that src/config/version_info.cpp reads a program's file with: the bytes of the
-- file, the place in it, and whether a call has met the end or has failed.
pub mod Bytes
use odin_analytics.Prelude.{
  ℕ, zero, suc, ◌+◌, ◌-◌, ◌*◌, ◌^◌, Bool, true, false, not, ◌&&◌, ◌||◌, if◌then◌else◌, ltb, List,
  [], ◌∷◌, ◌++◌, length, replicate,
}
use odin_analytics.Prelude.Text.{Text, drop_chars}

-- What the program is run on: the order of the bytes of its numbers, and whether a plain `char` has
-- a sign.
pub record Host : Type 0 where
  pub has_big_endian : Bool
  pub has_signed_char : Bool

pub record FileStream : Type 0 where
  pub bytes : Text
  pub place : ℕ
  pub eofbit : Bool
  pub failbit : Bool

abbrev pub file_stream : Text → ℕ → Bool → Bool → FileStream
file_stream b p e f = record { bytes = b; place = p; eofbit = e; failbit = f }

abbrev pub is_good : FileStream → Bool
is_good fs = not (fs.eofbit || fs.failbit)

abbrev pub first_bytes : ℕ → Text → Text
first_bytes zero bs = []
first_bytes (suc n) [] = []
first_bytes (suc n) (b ∷ bs) = b ∷ first_bytes n bs

-- `seekg`: the offset is on 64 bits with a sign, and a negative one fails. A place behind the end is
-- found, but nothing can be read there.
unfoldable pub seekg : ℕ → FileStream → FileStream
seekg offset fs =
    if fs.failbit
    then file_stream fs.bytes fs.place false true
    else if ltb offset (2 ^ 63)
    then file_stream fs.bytes offset false false
    else file_stream fs.bytes fs.place false true

-- `read` into n bytes that were zero: what the file has, and zeros where it ends too soon or the
-- stream is not good.
unfoldable pub read_bytes : ℕ → FileStream → Text × FileStream
read_bytes n fs =
    let got = first_bytes n (drop_chars fs.place fs.bytes) in
    if is_good fs
    then (if ltb (length got) n
        then (
          got ++ replicate (n - length got) 0,
          file_stream fs.bytes (fs.place + length got) true true,
        )
        else (got, file_stream fs.bytes (fs.place + n) false false))
    else (replicate n 0, file_stream fs.bytes fs.place fs.eofbit true)

-- The number whose bytes are these, the lowest first.
unfoldable pub little_endian : Text → ℕ
little_endian [] = 0
little_endian (b ∷ bs) = b + 256 * little_endian bs

-- The number whose bytes are these behind those of acc, the highest first.
unfoldable pub big_endian : ℕ → Text → ℕ
big_endian acc [] = acc
big_endian acc (b ∷ bs) = big_endian (acc * 256 + b) bs

-- The number that these bytes of memory are.
unfoldable pub native_number : Host → Text → ℕ
native_number host bs = if host.has_big_endian then big_endian 0 bs else little_endian bs

-- A member that is a number of n bytes.
unfoldable pub read_number : Host → ℕ → FileStream → ℕ × FileStream
read_number host n fs = let got = read_bytes n fs in (native_number host got.0, got.1)
