-- ===== src/Host/Lost.antt =====
-- The 64-bit conversions of src/common/pack.c: where the sign of a 32-bit half gets into the other
-- half.
use deamon.Common.{ℕ, ◌+◌, ◌-◌, ◌*◌, ◌/◌, ◌%◌, ◌^◌, ◌≤◌, ◌<◌, ◌≡◌, ap, ◌∙◌, ◌++◌, arith}
use deamon.Host.{
  little, le_bytes, bytes_of, value_of, htonl, sign_extend, shl32, hton_int64, ntoh_int64,
}
use deamon.Host.Laws.{wire32, bytes_of-htonl, htonl-lt}
use Prim.Native.Nat.{bit_or}
use deamon.Host.Words.{
  wire64, join_int_lost, ntoh_int64-wire64_halves, swap_negative, le_bytes-join,
}

ntoh_int64-wire64_late :
    (v : ℕ)
    → v < 2 ^ 64
    → 2 ^ 31 ≤ v % 2 ^ 32
    → ntoh_int64 little (value_of little (wire64 v)) ≡ (2 ^ 32 - 1) * 2 ^ 32 + v % 2 ^ 32
ntoh_int64-wire64_late v h p =
    ntoh_int64-wire64_halves v h
    ∙ join_int_lost (v / 2 ^ 32) (v % 2 ^ 32) (omega arith) (omega arith) p

hton_int64_lost :
    (v : ℕ)
    → v < 2 ^ 64
    → 128 ≤ v / 2 ^ 32 % 256
    → bytes_of little 8 (hton_int64 little v) ≡ wire32 (v / 2 ^ 32) ++ wire32 (2 ^ 32 - 1)
unfolding hton_int64
hton_int64_lost v h p =
    ap (λ (t : ℕ). le_bytes 8 (bit_or (shl32 (sign_extend low)) (sign_extend (htonl little t))))
      high
    ∙ ap (le_bytes 8) (
        join_int_lost low (htonl little (v / 2 ^ 32)) (htonl-lt (v % 2 ^ 32) (omega arith))
          (htonl-lt (v / 2 ^ 32) (omega arith)) (swap_negative (v / 2 ^ 32) (omega arith) p))
    ∙ le_bytes-join (2 ^ 32 - 1) _ (htonl-lt (v / 2 ^ 32) (omega arith))
    ∙ ap (λ bs. bs ++ le_bytes 4 (2 ^ 32 - 1)) (bytes_of-htonl little (v / 2 ^ 32) (omega arith))
  where
    low : ℕ
    low = htonl little (v % 2 ^ 32)

    high : v / 2 ^ 32 % 2 ^ 32 ≡ v / 2 ^ 32
    high = omega arith

-- On a little-endian host a 64-bit value whose low half is at least 2 ^ 31, read from network order,
-- comes out with ones in place of its high half; and a 64-bit value with bit 39 set, converted to
-- network order, has its high half and ones in place of its low half in memory.
pub int64_lost :
    (v u : ℕ)
    → v < 2 ^ 64
    → 2 ^ 31 ≤ v % 2 ^ 32
    → u < 2 ^ 64
    → 128 ≤ u / 2 ^ 32 % 256
    → (ntoh_int64 little (value_of little (wire64 v)) ≡ (2 ^ 32 - 1) * 2 ^ 32 + v % 2 ^ 32)
      × (bytes_of little 8 (hton_int64 little u) ≡ wire32 (u / 2 ^ 32) ++ wire32 (2 ^ 32 - 1))
int64_lost v u h p k q = (ntoh_int64-wire64_late v h p, hton_int64_lost u k q)
