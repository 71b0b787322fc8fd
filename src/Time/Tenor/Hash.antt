-- ===== src/Time/Tenor/Hash.antt =====
-- The hash of a tenor (src/time/tenor.cpp), where `std::size_t` has 64 bits and `int` 32.
use Prim.Native.Nat.{bit_xor}
use odin_analytics.Prelude.{ℕ, zero, suc, ◌-◌, ◌*◌, ◌/◌, ◌%◌, ◌^◌}
use odin_analytics.Prelude.Int.{ℤ, pos, negsuc}
use odin_analytics.Time.Enums.{unit_code}
use odin_analytics.Time.Tenor.{Tenor}

abbrev pub fnv_prime : ℕ
fnv_prime = 0x100000001b3

abbrev pub fnv_offset : ℕ
fnv_offset = 0xcbf29ce484222325

-- `0xFF & num` and `num >>= 8` of a signed number, which is in two's complement.
unfoldable pub low_byte : ℤ → ℕ
low_byte (pos n) = n % 256
low_byte (negsuc n) = 255 - n % 256

unfoldable pub shift_byte : ℤ → ℤ
shift_byte (pos n) = pos (n / 256)
shift_byte (negsuc n) = negsuc (n / 256)

-- A multiplication on 64 bits and an exclusive or.
unfoldable pub hash_byte : ℕ → ℕ → ℕ
hash_byte result byte = bit_xor (result * fnv_prime % 2 ^ 64) byte

-- The loop over the bytes of the count.
unfoldable pub hash_bytes : ℕ → ℤ → ℕ → ℕ
hash_bytes zero num result = result
hash_bytes (suc n) num result = hash_bytes n (shift_byte num) (hash_byte result (low_byte num))

unfoldable pub hash : Tenor → ℕ
hash t = hash_byte (hash_bytes 4 t.count fnv_offset) (unit_code t.unit % 256)
