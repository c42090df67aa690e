-- ===== src/Host/Words.antt =====
-- The 64-bit conversions of src/common/pack.c: where they are network order. Host/Lost has the
-- values for which they are not.
use deamon.Common.{
  ℕ, ◌+◌, ◌-◌, ◌*◌, ◌/◌, ◌%◌, ◌^◌, ◌≤◌, ◌<◌, ◌≡◌, refl, ap, ◌∙◌, List, ◌++◌, arith, le→ltb, lt→ltb,
}
use deamon.Common.Bits.{bit_or_halves, bit_or_covered}
use deamon.Host.{
  Endian, little, big, le_bytes, of_le, bytes_of, value_of, htonl, sign_extend, shl32, hton_uint64,
  ntoh_uint64, hton_int64, ntoh_int64,
}
use deamon.Host.Laws.{cons_eq, wire32, bytes_of-htonl, htonl-htonl, htonl-lt}
use mathlib.Core.Path.{ap₂}
use Prim.Native.Nat.{bit_or}

abbrev pub wire64 : ℕ → List ℕ
wire64 v = wire32 (v / 2 ^ 32) ++ wire32 (v % 2 ^ 32)

shl32_word : (w : ℕ) → w < 2 ^ 32 → shl32 w ≡ w * 2 ^ 32
shl32_word w h = omega arith

shl32-sign_extend : (w : ℕ) → w < 2 ^ 32 → shl32 (sign_extend w) ≡ w * 2 ^ 32
shl32-sign_extend w h = ground arith

sign_extend_low : (w : ℕ) → w < 2 ^ 31 → sign_extend w ≡ w
sign_extend_low w h = rw (lt→ltb w (2 ^ 31) h)

sign_extend_high : (w : ℕ) → 2 ^ 31 ≤ w → sign_extend w ≡ (2 ^ 32 - 1) * 2 ^ 32 + w
sign_extend_high w h = rw (le→ltb w (2 ^ 31) h)

-- A 64-bit word from its halves.
abbrev pub join : ℕ → ℕ → ℕ
join hi lo = hi * 2 ^ 32 + lo

join_uint : (hi lo : ℕ) → hi < 2 ^ 32 → lo < 2 ^ 32 → bit_or (shl32 hi) lo ≡ join hi lo
join_uint hi lo h l = ap (λ (t : ℕ). bit_or t lo) (shl32_word hi h) ∙ bit_or_halves 32 hi lo l

join_int :
    (hi lo : ℕ)
    → hi < 2 ^ 32
    → lo < 2 ^ 31
    → bit_or (shl32 (sign_extend hi)) (sign_extend lo) ≡ join hi lo
join_int hi lo h l =
    ap₂ bit_or (shl32-sign_extend hi h) (sign_extend_low lo l)
    ∙ bit_or_halves 32 hi lo (omega arith)

pub join_int_lost :
    (hi lo : ℕ)
    → hi < 2 ^ 32
    → lo < 2 ^ 32
    → 2 ^ 31 ≤ lo
    → bit_or (shl32 (sign_extend hi)) (sign_extend lo) ≡ join (2 ^ 32 - 1) lo
join_int_lost hi lo h l s =
    ap₂ bit_or (shl32-sign_extend hi h) (sign_extend_high lo s) ∙ bit_or_covered 32 hi lo h l

pub le_bytes-join :
    (hi lo : ℕ) → lo < 2 ^ 32 → le_bytes 8 (join hi lo) ≡ le_bytes 4 lo ++ le_bytes 4 hi
le_bytes-join hi lo h = cons_eq (omega arith) (
    cons_eq (omega arith) (
      cons_eq (omega arith) (
        cons_eq (omega arith) (
          cons_eq (omega arith)
            (cons_eq (omega arith) (cons_eq (omega arith) (cons_eq (omega arith) refl)))))))

of_le-wire32 :
    (hi lo : ℕ)
    → hi < 2 ^ 32
    → lo < 2 ^ 32
    → of_le (wire32 hi ++ wire32 lo) ≡ join (htonl little lo) (htonl little hi)
of_le-wire32 hi lo h l = omega arith

swap_positive : (w : ℕ) → w < 2 ^ 32 → w % 256 < 128 → htonl little w < 2 ^ 31
swap_positive w h l = omega arith

pub swap_negative : (w : ℕ) → w < 2 ^ 32 → 128 ≤ w % 256 → 2 ^ 31 ≤ htonl little w
swap_negative w h l = omega arith

of_le-wire64 :
    (v : ℕ)
    → v < 2 ^ 64
    → of_le (wire64 v) ≡ join (htonl little (v % 2 ^ 32)) (htonl little (v / 2 ^ 32))
of_le-wire64 v h = of_le-wire32 (v / 2 ^ 32) (v % 2 ^ 32) (omega arith) (omega arith)

-- The halves of a joined word.
join_high : (hi lo : ℕ) → lo < 2 ^ 32 → join hi lo / 2 ^ 32 ≡ hi
join_high hi lo h = omega arith

join_low : (hi lo : ℕ) → lo < 2 ^ 32 → join hi lo % 2 ^ 32 ≡ lo
join_low hi lo h = omega arith

join_halves : (v : ℕ) → join (v / 2 ^ 32) (v % 2 ^ 32) ≡ v
join_halves v = omega arith

hton_uint64_halves :
    (v : ℕ)
    → v < 2 ^ 64
    → hton_uint64 little v ≡ join (htonl little (v % 2 ^ 32)) (htonl little (v / 2 ^ 32))
unfolding hton_uint64
hton_uint64_halves v h =
    join_uint _ _ (htonl-lt (v % 2 ^ 32) (omega arith)) (htonl-lt (v / 2 ^ 32) (omega arith))

ntoh_uint64-join :
    (hi lo : ℕ)
    → hi < 2 ^ 32
    → lo < 2 ^ 32
    → ntoh_uint64 little (join hi lo) ≡ join (htonl little lo) (htonl little hi)
unfolding ntoh_uint64
ntoh_uint64-join hi lo h l =
    ap₂ (λ x y. bit_or (shl32 (htonl little x)) (htonl little y)) (join_low hi lo l)
      (join_high hi lo l)
    ∙ join_uint _ _ (htonl-lt lo l) (htonl-lt hi h)

-- The unsigned conversions undo one another on every 64-bit value, on a host of either order.
pub ntoh_uint64-hton_uint64 :
    (e : Endian) (v : ℕ) → v < 2 ^ 64 → ntoh_uint64 e (hton_uint64 e v) ≡ v
ntoh_uint64-hton_uint64 little v h =
    ap (ntoh_uint64 little) (hton_uint64_halves v h)
    ∙ ntoh_uint64-join _ _ (htonl-lt (v % 2 ^ 32) (omega arith))
        (htonl-lt (v / 2 ^ 32) (omega arith))
    ∙ ap₂ join (htonl-htonl (v / 2 ^ 32) (omega arith)) (htonl-htonl (v % 2 ^ 32) (omega arith))
    ∙ join_halves v
ntoh_uint64-hton_uint64 big v h = unfold ntoh_uint64 hton_uint64 in refl

hton_int64_halves :
    (v : ℕ)
    → v < 2 ^ 64
    → v / 2 ^ 32 % 256 < 128
    → hton_int64 little v ≡ join (htonl little (v % 2 ^ 32)) (htonl little (v / 2 ^ 32))
unfolding hton_int64
hton_int64_halves v h p =
    ap
      (λ (t : ℕ).
        bit_or (shl32 (sign_extend (htonl little (v % 2 ^ 32)))) (sign_extend (htonl little t)))
      high
    ∙ join_int _ _ (htonl-lt (v % 2 ^ 32) (omega arith))
        (swap_positive (v / 2 ^ 32) (omega arith) p)
  where
    high : v / 2 ^ 32 % 2 ^ 32 ≡ v / 2 ^ 32
    high = omega arith

-- The bytes that `pack_time` copies are the value in network order, if bit 39 of it is clear.
pub bytes_of-hton_int64 :
    (e : Endian) (v : ℕ)
    → v < 2 ^ 64
    → v / 2 ^ 32 % 256 < 128
    → bytes_of e 8 (hton_int64 e v) ≡ wire64 v
bytes_of-hton_int64 little v h p =
    ap (le_bytes 8) (hton_int64_halves v h p)
    ∙ le_bytes-join _ _ (htonl-lt (v / 2 ^ 32) (omega arith))
    ∙ ap₂ ◌++◌ (bytes_of-htonl little (v / 2 ^ 32) (omega arith))
        (bytes_of-htonl little (v % 2 ^ 32) (omega arith))
bytes_of-hton_int64 big v h p =
    unfold hton_int64 in
    cons_eq (omega arith) (
      cons_eq (omega arith) (
        cons_eq (omega arith) (
          cons_eq (omega arith) (
            cons_eq (omega arith)
              (cons_eq (omega arith) (cons_eq (omega arith) (cons_eq (omega arith) refl)))))))

ntoh_int64-join :
    (hi lo : ℕ)
    → hi < 2 ^ 32
    → lo < 2 ^ 32
    → ntoh_int64 little (join hi lo)
      ≡ bit_or (shl32 (sign_extend (htonl little lo))) (sign_extend (htonl little hi))
unfolding ntoh_int64
ntoh_int64-join hi lo h l =
    ap₂ (λ x y. bit_or (shl32 (sign_extend (htonl little x))) (sign_extend (htonl little y)))
      (join_low hi lo l) high
  where
    high : join hi lo / 2 ^ 32 % 2 ^ 32 ≡ hi
    high = omega arith

pub ntoh_int64-wire64_halves :
    (v : ℕ)
    → v < 2 ^ 64
    → ntoh_int64 little (of_le (wire64 v))
      ≡ bit_or (shl32 (sign_extend (v / 2 ^ 32))) (sign_extend (v % 2 ^ 32))
ntoh_int64-wire64_halves v h =
    ap (ntoh_int64 little) (of_le-wire64 v h)
    ∙ ntoh_int64-join _ _ (htonl-lt (v % 2 ^ 32) (omega arith))
        (htonl-lt (v / 2 ^ 32) (omega arith))
    ∙ ap₂ (λ x y. bit_or (shl32 (sign_extend x)) (sign_extend y))
        (htonl-htonl (v / 2 ^ 32) (omega arith)) (htonl-htonl (v % 2 ^ 32) (omega arith))

-- Reading network order gives the value back, if its low half is no negative int32_t.
pub ntoh_int64-wire64 :
    (e : Endian) (v : ℕ)
    → v < 2 ^ 64
    → v % 2 ^ 32 < 2 ^ 31
    → ntoh_int64 e (value_of e (wire64 v)) ≡ v
ntoh_int64-wire64 little v h p =
    ntoh_int64-wire64_halves v h ∙ join_int _ _ (omega arith) p ∙ join_halves v
ntoh_int64-wire64 big v h p = unfold ntoh_int64 in omega arith
