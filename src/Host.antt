-- ===== src/Host.antt =====
-- Integers as the host stores them, the byte-order functions of <arpa/inet.h>, and the 64-bit
-- conversions of src/common/pack.c, for a host of either byte order.
pub mod Laws
pub mod Words
pub mod Lost
use deamon.Common.{ℕ, zero, suc, ◌+◌, ◌-◌, ◌*◌, ◌/◌, ◌%◌, ◌^◌, List, [], ◌∷◌, ltb, if◌then◌else◌}
use Prim.Native.Nat.{bit_or}
use mathlib.Core.List.{reverse}

pub data Endian : Type 0 where
  little big : Endian

-- The n lowest bytes of v, the lowest first.
abbrev pub le_bytes : ℕ → ℕ → List ℕ
le_bytes zero v = []
le_bytes (suc n) v = v % 256 ∷ le_bytes n (v / 256)

abbrev pub of_le : List ℕ → ℕ
of_le [] = 0
of_le (b ∷ bs) = b + 256 * of_le bs

-- The n bytes that `memcpy` takes from an unsigned integer in memory, and the integer they make.
abbrev pub bytes_of : Endian → ℕ → ℕ → List ℕ
bytes_of little n v = le_bytes n v
bytes_of big n v = reverse (le_bytes n v)

abbrev pub value_of : Endian → List ℕ → ℕ
value_of little bs = of_le bs
value_of big bs = of_le (reverse bs)

-- htons and ntohs, htonl and ntohl: one swap on a little-endian host, nothing on the other.
abbrev pub htons : Endian → ℕ → ℕ
htons little v = v % 256 * 256 + v / 256
htons big v = v

abbrev pub htonl : Endian → ℕ → ℕ
htonl little v = v % 256 * 2 ^ 24 + v / 2 ^ 8 % 256 * 2 ^ 16 + v / 2 ^ 16 % 256 * 2 ^ 8 + v / 2 ^ 24
htonl big v = v

-- `(int64_t) w` of an int32_t, both as bit patterns.
abbrev pub sign_extend : ℕ → ℕ
sign_extend w = if ltb w (2 ^ 31) then w else (2 ^ 32 - 1) * 2 ^ 32 + w

-- `hi << 32` on 64 bits.
abbrev pub shl32 : ℕ → ℕ
shl32 w = w * 2 ^ 32 % 2 ^ 64

pub hton_uint64 : Endian → ℕ → ℕ
hton_uint64 little val =
    let high_part = htonl little (val / 2 ^ 32) in
    let low_part = htonl little (val % 2 ^ 32) in bit_or (shl32 low_part) high_part
hton_uint64 big val = val

pub ntoh_uint64 : Endian → ℕ → ℕ
ntoh_uint64 little val =
    let high_part = htonl little (val % 2 ^ 32) in
    let low_part = htonl little (val / 2 ^ 32) in bit_or (shl32 high_part) low_part
ntoh_uint64 big val = val

-- Here the parts are int32_t, so widening them to 64 bits copies their sign bit.
pub hton_int64 : Endian → ℕ → ℕ
hton_int64 little val =
    let high_part = htonl little (val / 2 ^ 32 % 2 ^ 32) in
    let low_part = htonl little (val % 2 ^ 32) in
    bit_or (shl32 (sign_extend low_part)) (sign_extend high_part)
hton_int64 big val = val

pub ntoh_int64 : Endian → ℕ → ℕ
ntoh_int64 little val =
    let high_part = htonl little (val % 2 ^ 32) in
    let low_part = htonl little (val / 2 ^ 32 % 2 ^ 32) in
    bit_or (shl32 (sign_extend high_part)) (sign_extend low_part)
ntoh_int64 big val = val
