-- ===== src/Config/VersionInfo/Hex.antt =====
-- The hexadecimal digits of a version (src/config/version_info.cpp).
use native.Mathlib.Nat.{div-div-eq-div-mul, mod-add-div}
use odin_analytics.Prelude.{
  Bool-cases, inl, inr, subst, ℕ, zero, suc, ◌+◌, ◌-◌, ◌*◌, ◌/◌, ◌%◌, ◌^◌, ◌<◌, ◌≡◌, refl, sym, ap,
  ◌∙◌, arith, Bool, true, ◌&&◌, ltb, ◌==◌, ==_iff, if◌then◌else◌, [], ◌∷◌, length,
}
use odin_analytics.Prelude.Text.{Text}
use odin_analytics.Config.VersionInfo.{VersionInfo, hex_digit, hex_bytes, version_hex}

-- The number that hexadecimal digits spell, the highest first, after the digits that spelled acc.
unfoldable pub hex_value : ℕ → ℕ
hex_value c = if ltb c 58 then c - 48 else c - 87

unfoldable pub read_hex : ℕ → Text → ℕ
read_hex acc [] = acc
read_hex acc (c ∷ cs) = read_hex (acc * 16 + hex_value c) cs

-- Each digit below n is read as itself.
agree_upto : ℕ → Bool
agree_upto zero = true
agree_upto (suc n) = agree_upto n && (hex_value (hex_digit n) == n)

hex_value-hex_digit_upto : (n d : ℕ) → agree_upto n ≡ true → d < n → hex_value (hex_digit d) ≡ d
unfolding agree_upto
hex_value-hex_digit_upto zero d table below = absurd (omega arith)
hex_value-hex_digit_upto (suc n) d table below = elim (Bool-cases (d == n)) [
  | inl last ↦
      let here : d ≡ n = (==_iff d n).0 last in
      subst (λ k. hex_value (hex_digit k) ≡ k) (sym here) ((==_iff _ n).0 (ground arith))
  | inr other ↦ hex_value-hex_digit_upto n d (ground arith) (ground arith)
]

all_agree : agree_upto 16 ≡ true
unfolding agree_upto hex_value hex_digit
all_agree = refl

hex_value-hex_digit : (d : ℕ) → d < 16 → hex_value (hex_digit d) ≡ d
hex_value-hex_digit d below = hex_value-hex_digit_upto 16 d all_agree below

low_byte : (q : ℕ) → q / 16 % 16 * 16 + q % 16 ≡ q % 256
low_byte q = omega arith

low_part : (q r m k : ℕ) → r + m * (q % 256) + m * 256 * k ≡ r + m * (q % 256 + 256 * k)
low_part q r m k = grind arith

-- What is below a byte and the byte itself: m is a power of 256.
mod_byte : (v m : ℕ) → v % (m * 256) ≡ v / m % 256 * m + v % m
mod_byte v m =
    let q : ℕ = v / m in
    let whole : v % (m * 256) + m * 256 * (q / 256) ≡ v =
      rw (div-div-eq-div-mul v m 256) (mod-add-div v (m * 256)) in
    let split : q % 256 + 256 * (q / 256) ≡ q = omega arith in
    let inner : v % m + m * q ≡ v = mod-add-div v m in
    let again : v % m + m * (q % 256) + m * 256 * (q / 256) ≡ v =
      low_part q (v % m) m (q / 256) ∙ ap (λ x. v % m + m * x) split ∙ inner in
    grind arith

regroup :
    (acc h l m r : ℕ) → ((acc * 16 + h) * 16 + l) * m + r ≡ acc * (m * 256) + ((h * 16 + l) * m + r)
regroup acc h l m r = grind arith

byte_split :
    (acc v m : ℕ)
    → ((acc * 16 + v / (m * 16) % 16) * 16 + v / m % 16) * m + v % m
      ≡ acc * (m * 256) + v % (m * 256)
byte_split acc v m =
    rw (sym (div-div-eq-div-mul v m 16), mod_byte v m, sym (low_byte (v / m)))
      (regroup acc (v / m / 16 % 16) (v / m % 16) m (v % m))

power_of_half : (k : ℕ) → 2 ^ suc (suc (suc (suc k))) ≡ 2 ^ k * 16
power_of_half k = omega arith

power_of_byte :
    (n : ℕ) → (2 ^ (8 * suc n) ≡ 2 ^ (8 * n) * 256) × (2 ^ (8 * n + 4) ≡ 2 ^ (8 * n) * 16)
power_of_byte n =
    let half : 2 ^ (8 * n + 4) ≡ 2 ^ (8 * n) * 16 =
      ap (λ k. 2 ^ k) (omega arith) ∙ power_of_half (8 * n) in
    let shift : 2 ^ (8 * suc n) ≡ 2 ^ (8 * n + 4) * 16 =
      ap (λ k. 2 ^ k) (omega arith) ∙ power_of_half (8 * n + 4) in
    (omega arith, half)

length-hex_bytes : (n v : ℕ) → length (hex_bytes n v) ≡ 2 * n
unfolding hex_bytes
length-hex_bytes zero v = refl
length-hex_bytes (suc n) v = omega (arith, length-hex_bytes n v)

read_two :
    (acc h l : ℕ) (cs : Text)
    → h < 16
    → l < 16
    → read_hex acc (hex_digit h ∷ hex_digit l ∷ cs) ≡ read_hex ((acc * 16 + h) * 16 + l) cs
unfolding read_hex
read_two acc h l cs p q = rw (hex_value-hex_digit h p, hex_value-hex_digit l q) refl

read_hex-hex_bytes :
    (n acc v : ℕ) → read_hex acc (hex_bytes n v) ≡ acc * 2 ^ (8 * n) + v % 2 ^ (8 * n)
unfolding read_hex hex_bytes
read_hex-hex_bytes zero acc v = omega arith
read_hex-hex_bytes (suc n) acc v =
    let high : ℕ = v / 2 ^ (8 * n + 4) % 16 in
    let low : ℕ = v / 2 ^ (8 * n) % 16 in
    read_two acc high low (hex_bytes n v) (omega arith) (omega arith)
    ∙ read_hex-hex_bytes n ((acc * 16 + high) * 16 + low) v
    ∙ rw ((power_of_byte n).0, (power_of_byte n).1) (byte_split acc v (2 ^ (8 * n)))

-- A version of 64 bits is spelled by sixteen digits, from which it is read back.
pub version_hex-read_hex :
    (info : VersionInfo)
    → info.version_num < 2 ^ 64
    → (length (version_hex info) ≡ 16) × (read_hex 0 (version_hex info) ≡ info.version_num)
unfolding version_hex
version_hex-read_hex info h =
    (length-hex_bytes 8 info.version_num, read_hex-hex_bytes 8 0 info.version_num ∙ omega arith)
