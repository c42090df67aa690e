-- ===== src/Buf/Write.antt =====
-- The packing functions append the network-order encoding of their argument, or change nothing
-- when it does not fit; no argument makes them write outside the buffer.
use deamon.Common.{
  ℕ, ◌+◌, ◌%◌, ◌/◌, ◌^◌, ◌≤◌, ◌<◌, ◌≡◌, refl, sym, ap, ◌∙◌, List, [], ◌++◌, arith, length, take,
  length-take, take-all, ltb, le→ltb, Bool-cases, ltb→le, inl, inr, false, append-nil,
}
use mathlib.Core.Path.{ap₂, subst}
use deamon.Host.{Endian, bytes_of, htons, htonl, hton_int64}
use deamon.Host.Laws.{wire16, wire32, bytes_of-htons, bytes_of-htonl}
use deamon.Host.Words.{wire64, bytes_of-hton_int64}
use deamon.Buf.{
  Buf, Sockaddr, remaining_buf, put, pack16, pack32, packmem, pack_time, pack_sockaddr,
}
use deamon.Buf.Cursor.{IsValid, Emits, put-Emits, Emits-trans, remaining_buf_lem, length-bytes_of}

-- One guarded write: the bytes `bs` of a value whose size the guard tests.
module _ (b : Buf) (v : IsValid b) (bs : List ℕ) (n : ℕ) (e : length bs ≡ n) where
  put_fits : n ≤ remaining_buf b → Emits b bs (put bs b)
  put_fits h = put-Emits b v bs (omega (arith, remaining_buf_lem b v))

pub pack16-Emits :
    (e : Endian) (v : ℕ) (b : Buf)
    → v < 2 ^ 16
    → IsValid b
    → 2 ≤ remaining_buf b
    → Emits b (wire16 v) (pack16 e v b)
unfolding pack16
pack16-Emits e v b h ok_b room =
    rw (le→ltb (remaining_buf b) 2 room, bytes_of-htons e v h)
      (put_fits b ok_b (wire16 v) 2 refl room)

pub pack32-Emits :
    (e : Endian) (v : ℕ) (b : Buf)
    → v < 2 ^ 32
    → IsValid b
    → 4 ≤ remaining_buf b
    → Emits b (wire32 v) (pack32 e v b)
unfolding pack32
pack32-Emits e v b h ok_b room =
    rw (le→ltb (remaining_buf b) 4 room, bytes_of-htonl e v h)
      (put_fits b ok_b (wire32 v) 4 refl room)

pub pack_time-Emits :
    (e : Endian) (v : ℕ) (b : Buf)
    → v < 2 ^ 64
    → v / 2 ^ 32 % 256 < 128
    → IsValid b
    → 8 ≤ remaining_buf b
    → Emits b (wire64 v) (pack_time e v b)
unfolding pack_time
pack_time-Emits e v b h p ok_b room =
    rw (le→ltb (remaining_buf b) 8 room, bytes_of-hton_int64 e v h p)
      (put_fits b ok_b (wire64 v) 8 refl room)

-- A guarded write keeps the buffer valid, whatever the bytes.
put-IsValid :
    (b : Buf) (n : ℕ) (bs : List ℕ)
    → IsValid b
    → length bs ≤ n
    → ltb (remaining_buf b) n ≡ false
    → IsValid (put bs b)
put-IsValid b n bs v le room =
    (put-Emits b v bs (omega (arith, remaining_buf_lem b v, ltb→le (remaining_buf b) n room))).valid

pub pack16-IsValid : (e : Endian) (v : ℕ) (b : Buf) → IsValid b → IsValid (pack16 e v b)
unfolding pack16
pack16-IsValid e v b h = elim (Bool-cases (ltb (remaining_buf b) 2)) [
  | inl full ↦ rw full h
  | inr room ↦ rw room (put-IsValid b 2 _ h (omega (arith, length-bytes_of e (htons e v))) room)
]

pub pack32-IsValid : (e : Endian) (v : ℕ) (b : Buf) → IsValid b → IsValid (pack32 e v b)
unfolding pack32
pack32-IsValid e v b h = elim (Bool-cases (ltb (remaining_buf b) 4)) [
  | inl full ↦ rw full h
  | inr room ↦ rw room (put-IsValid b 4 _ h (omega (arith, length-bytes_of e (htonl e v))) room)
]

pub pack_time-IsValid : (e : Endian) (v : ℕ) (b : Buf) → IsValid b → IsValid (pack_time e v b)
unfolding pack_time
pack_time-IsValid e v b h = elim (Bool-cases (ltb (remaining_buf b) 8)) [
  | inl full ↦ rw full h
  | inr room ↦
      rw room (put-IsValid b 8 _ h (omega (arith, length-bytes_of e (hton_int64 e v))) room)
]

Emits-bytes : {b b' : Buf} {xs ys : List ℕ} → xs ≡ ys → Emits b xs b' → Emits b ys b'
Emits-bytes {b} {b'} p f = subst (λ t. Emits b t b') p f

-- `packmem` once its guard has passed.
module _ (e : Endian) (valp : List ℕ) (n : ℕ) (b : Buf) (v : IsValid b)
    (room : 4 + n ≤ remaining_buf b) where
  size_word : List ℕ
  size_word = bytes_of e 4 (htonl e n)

  size_word-Emits : Emits b size_word (put size_word b)
  unfolding size_word
  size_word-Emits =
      put-Emits b v _ (omega (arith, remaining_buf_lem b v, length-bytes_of e (htonl e n)))

  body_Emits : Emits (put size_word b) (take n valp) (put (take n valp) (put size_word b))
  body_Emits =
      put-Emits (put size_word b) f.valid (take n valp)
        (omega (arith, remaining_buf_lem b v, f.moved, f.same_size, length-take n valp, four))
    where
      f : Emits b size_word (put size_word b)
      f = size_word-Emits

      four : length size_word ≡ 4
      four = unfold size_word in (length-bytes_of e (htonl e n)).1

  packmem-IsValid_room : IsValid (packmem e valp n b)
  unfolding packmem size_word
  packmem-IsValid_room = rw (le→ltb (remaining_buf b) (4 + n) room) (elim (Bool-cases (ltb 0 n)) [
    | inl some_bytes ↦ rw some_bytes body_Emits.valid
    | inr none_left ↦ rw none_left size_word-Emits.valid
  ])

  pub packmem-Emits : n < 2 ^ 32 → length valp ≡ n → Emits b (wire32 n ++ valp) (packmem e valp n b)
  unfolding packmem size_word
  packmem-Emits small len =
      rw (le→ltb (remaining_buf b) (4 + n) room) (elim (Bool-cases (ltb 0 n)) [
        | inl some_bytes ↦ rw some_bytes (
            Emits-bytes (ap₂ ◌++◌ word (take-all n valp (omega arith)))
              (Emits-trans size_word-Emits body_Emits))
        | inr none_left ↦ rw none_left (
            Emits-bytes
              (word ∙ sym (append-nil (wire32 n)) ∙ ap (λ t. wire32 n ++ t) (no_bytes none_left))
              size_word-Emits)
      ])
    where
      word : bytes_of e 4 (htonl e n) ≡ wire32 n
      word = bytes_of-htonl e n small

      no_bytes : ltb 0 n ≡ false → [] ≡ valp
      no_bytes h = take-all 0 valp (omega (arith, ltb→le 0 n h))

pub packmem-IsValid :
    (e : Endian) (valp : List ℕ) (n : ℕ) (b : Buf) → IsValid b → IsValid (packmem e valp n b)
packmem-IsValid e valp n b v = elim (Bool-cases (ltb (remaining_buf b) (4 + n))) [
  | inl full ↦ unfold packmem in rw full v
  | inr room ↦ packmem-IsValid_room e valp n b v (ltb→le (remaining_buf b) (4 + n) room)
]

pub pack_sockaddr-IsValid :
    (e : Endian) (a : Sockaddr) (b : Buf) → IsValid b → IsValid (pack_sockaddr e a b)
unfolding pack_sockaddr
pack_sockaddr-IsValid e a b v =
    packmem-IsValid e _ 8 _ (pack32-IsValid e _ _ (pack16-IsValid e _ _ (pack16-IsValid e _ b v)))

-- The fields of a sockaddr_in as their C types allow them.
pub record IsSockaddr (a : Sockaddr) : Type 0 where
  pub family : a.sin_family < 2 ^ 16
  pub port : a.sin_port < 2 ^ 16
  pub addr : a.s_addr < 2 ^ 32
  pub zero_size : length a.sin_zero ≡ 8

abbrev pub wire_sockaddr : Sockaddr → List ℕ
wire_sockaddr a =
    wire16 a.sin_family ++ (wire16 a.sin_port ++ (wire32 a.s_addr ++ (wire32 8 ++ a.sin_zero)))

-- What an emitter leaves free.
pub remaining_buf-Emits :
    {b b' : Buf} {xs : List ℕ}
    → IsValid b
    → Emits b xs b'
    → remaining_buf b' + length xs ≡ remaining_buf b
remaining_buf-Emits {b} {b'} v f =
    omega (arith, remaining_buf_lem b v, remaining_buf_lem b' f.valid, f.moved, f.same_size)

pub pack_sockaddr-Emits :
    (e : Endian) (a : Sockaddr) (b : Buf)
    → IsSockaddr a
    → IsValid b
    → 20 ≤ remaining_buf b
    → Emits b (wire_sockaddr a) (pack_sockaddr e a b)
unfolding pack_sockaddr
pack_sockaddr-Emits e a b w v room = Emits-trans f1 (Emits-trans f2 (Emits-trans f3 f4))
  where
    f1 : Emits b (wire16 a.sin_family) (pack16 e a.sin_family b)
    f1 = pack16-Emits e a.sin_family b w.family v (omega arith)

    b1 : Buf
    b1 = pack16 e a.sin_family b

    f2 : Emits b1 (wire16 a.sin_port) (pack16 e a.sin_port b1)
    f2 = pack16-Emits e a.sin_port b1 w.port f1.valid (omega (arith, remaining_buf-Emits v f1))

    b2 : Buf
    b2 = pack16 e a.sin_port b1

    f3 : Emits b2 (wire32 a.s_addr) (pack32 e a.s_addr b2)
    f3 =
        pack32-Emits e a.s_addr b2 w.addr f2.valid
          (omega (arith, remaining_buf-Emits v f1, remaining_buf-Emits f1.valid f2))

    b3 : Buf
    b3 = pack32 e a.s_addr b2

    f4 : Emits b3 (wire32 8 ++ a.sin_zero) (packmem e a.sin_zero 8 b3)
    f4 =
        packmem-Emits e a.sin_zero 8 b3 f3.valid
          (omega (
            arith,
            remaining_buf-Emits v f1,
            remaining_buf-Emits f1.valid f2,
            remaining_buf-Emits f2.valid f3,
          ))
          (omega arith) w.zero_size
