-- ===== src/Config/FileStream/Bytes.antt =====
-- The bytes of a file's stream (src/config/version_info.cpp), and the numbers that are made of them.
use native.Mathlib.Nat.{pow-suc}
use odin_analytics.Prelude.{
  ℕ, zero, suc, ◌+◌, ◌-◌, ◌*◌, ◌^◌, ◌<◌, ◌≡◌, arith, true, Bool, ◌&&◌, ltb→lt, Bool-cases, inl, inr,
  ltb, [], ◌∷◌, ◌++◌, length, replicate,
}
use odin_analytics.Prelude.Text.{Text, drop_chars}
use odin_analytics.Config.FileStream.{
  Host, FileStream, first_bytes, is_good, seekg, read_bytes, little_endian, big_endian,
  native_number, read_number,
}

pub data AreBytes : Text → Type 0 where
  no_bytes : AreBytes []
  more_bytes : (b : ℕ) (bs : Text) → b < 256 → AreBytes bs → AreBytes (b ∷ bs)

pub record HasBytes (fs : FileStream) : Type 0 where
  pub are_bytes : AreBytes fs.bytes

first_bytes-AreBytes : (n : ℕ) (bs : Text) → AreBytes bs → AreBytes (first_bytes n bs)
first_bytes-AreBytes zero bs h = no_bytes
first_bytes-AreBytes (suc n) [] h = no_bytes
first_bytes-AreBytes (suc n) (b ∷ bs) (more_bytes _ _ p h) =
    more_bytes b _ p (first_bytes-AreBytes n bs h)

drop_chars-AreBytes : (n : ℕ) (bs : Text) → AreBytes bs → AreBytes (drop_chars n bs)
drop_chars-AreBytes zero bs h = h
drop_chars-AreBytes (suc n) [] h = no_bytes
drop_chars-AreBytes (suc n) (b ∷ bs) (more_bytes _ _ p h) = drop_chars-AreBytes n bs h

zeros-AreBytes : (n : ℕ) → AreBytes (replicate n 0)
zeros-AreBytes zero = no_bytes
zeros-AreBytes (suc n) = more_bytes 0 _ (omega arith) (zeros-AreBytes n)

append-AreBytes : (bs cs : Text) → AreBytes bs → AreBytes cs → AreBytes (bs ++ cs)
append-AreBytes [] cs no_bytes k = k
append-AreBytes (b ∷ bs) cs (more_bytes _ _ p h) k = more_bytes b _ p (append-AreBytes bs cs h k)

pub seekg-HasBytes : (offset : ℕ) (fs : FileStream) → HasBytes fs → HasBytes (seekg offset fs)
unfolding seekg
seekg-HasBytes offset fs h = elim (Bool-cases fs.failbit) [
  | inl failed ↦ rw failed (record { are_bytes = h.are_bytes })
  | inr works ↦ elim (Bool-cases (ltb offset (2 ^ 63))) [
    | inl found ↦ rw (works, found) (record { are_bytes = h.are_bytes })
    | inr negative ↦ rw (works, negative) (record { are_bytes = h.are_bytes })
  ]
]

-- What is read is bytes, and the stream has its bytes afterwards.
read_bytes-both :
    (n : ℕ) (fs : FileStream)
    → HasBytes fs
    → AreBytes (read_bytes n fs).0 × HasBytes (read_bytes n fs).1
unfolding read_bytes
read_bytes-both n fs h =
    let got : Text = first_bytes n (drop_chars fs.place fs.bytes) in
    let good : AreBytes got =
      first_bytes-AreBytes n _ (drop_chars-AreBytes fs.place fs.bytes h.are_bytes) in
    elim (Bool-cases (is_good fs)) [
      | inr bad ↦ rw bad (zeros-AreBytes n, record { are_bytes = h.are_bytes })
      | inl fine ↦ elim (Bool-cases (ltb (length got) n)) [
        | inl short ↦
            rw (fine, short)
              (
                append-AreBytes got _ good (zeros-AreBytes (n - length got)),
                record { are_bytes = h.are_bytes },
              )
        | inr full ↦ rw (fine, full) (good, record { are_bytes = h.are_bytes })
      ]
    ]

pub read_bytes-AreBytes : (n : ℕ) (fs : FileStream) → HasBytes fs → AreBytes (read_bytes n fs).0
read_bytes-AreBytes n fs h = (read_bytes-both n fs h).0

pub read_bytes-HasBytes : (n : ℕ) (fs : FileStream) → HasBytes fs → HasBytes (read_bytes n fs).1
read_bytes-HasBytes n fs h = (read_bytes-both n fs h).1

pub read_number-HasBytes :
    (host : Host) (n : ℕ) (fs : FileStream) → HasBytes fs → HasBytes (read_number host n fs).1
unfolding read_number
read_number-HasBytes host n fs h = read_bytes-HasBytes n fs h

little_endian-lt : (bs : Text) → AreBytes bs → little_endian bs < 256 ^ length bs
unfolding little_endian
little_endian-lt [] h = omega arith
little_endian-lt (b ∷ bs) (more_bytes _ _ p h) =
    omega (arith, pow-suc 256 (length bs), little_endian-lt bs h)

regroup : (m p : ℕ) → m * 256 * p ≡ m * (p * 256)
regroup m p = grind arith

times_power : (m k : ℕ) → m * 256 * 256 ^ k ≡ m * 256 ^ suc k
times_power m k = rw (pow-suc 256 k) (regroup m (256 ^ k))

big_endian-lt :
    (acc m : ℕ) (bs : Text) → acc < m → AreBytes bs → big_endian acc bs < m * 256 ^ length bs
unfolding big_endian
big_endian-lt acc m [] p h = omega arith
big_endian-lt acc m (b ∷ bs) p (more_bytes _ _ q h) =
    omega
      (arith, big_endian-lt (acc * 256 + b) (m * 256) bs (omega arith) h, times_power m (length bs))

pub native_number-lt :
    (host : Host) (bs : Text) → AreBytes bs → native_number host bs < 256 ^ length bs
unfolding native_number
native_number-lt host bs h = elim (Bool-cases host.has_big_endian) [
  | inl big ↦ rw big (omega (arith, big_endian-lt 0 1 bs (omega arith) h))
  | inr little ↦ rw little (little_endian-lt bs h)
]

unfoldable pub all_bytes : Text → Bool
all_bytes [] = true
all_bytes (b ∷ bs) = ltb b 256 && all_bytes bs

pub all_bytes-AreBytes : (bs : Text) → all_bytes bs ≡ true → AreBytes bs
unfolding all_bytes
all_bytes-AreBytes [] h = no_bytes
all_bytes-AreBytes (b ∷ bs) h =
    more_bytes b bs (ltb→lt b 256 (ground arith)) (all_bytes-AreBytes bs (ground arith))
