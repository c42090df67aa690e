-- ===== src/Buf/Read.antt =====
-- The unpacking functions read the network-order encoding that stands ahead, and leave what
-- follows it; on a buffer that is too short they leave their target as it was.
use deamon.Common.{
  ℕ, ◌^◌, ◌≤◌, ◌<◌, ◌≡◌, refl, ap, ◌∙◌, List, ◌++◌, arith, length, drop, length-append, ltb, le→ltb,
  lt→ltb, le→leb, lt→leb, true, false, append-nil, drop-all,
}
use deamon.Common.Outcome.{Outcome, ok, fault, out_of_bounds, ◌>>=◌}
use deamon.Host.{Endian, value_of, htons, htonl, ntoh_int64}
use deamon.Host.Laws.{wire16, wire32, ntohs-wire16, ntohl-wire32}
use deamon.Buf.{
  Buf, Sockaddr, memcpy, remaining_buf, advance, get, unpack16, unpack32, unpackmem, unpack_time,
  unpack_sockaddr,
}
use deamon.Buf.Cursor.{Ready, advance-Ready, remaining_buf-Ready}
use deamon.Buf.Write.{IsSockaddr, wire_sockaddr}

-- A read of an encoding `bs` yields `v` and leaves the position behind it.
abbrev pub Reads {ℓ} : {A : Type ℓ} → A × Buf → A → Buf → List ℕ → Type ℓ
Reads got v b' r = (got ≡ (v, b')) × Ready b' r

pub unpack16-Ready :
    (e : Endian) (old v : ℕ) (b : Buf) (r : List ℕ)
    → v < 2 ^ 16
    → Ready b (wire16 v ++ r)
    → (unpack16 e old b ≡ (v, advance 2 b)) × Ready (advance 2 b) r
unfolding unpack16
unpack16-Ready e old v b r h f =
    let (ready, bytes) = advance-Ready 2 (wire16 v) r refl f in
    (
      rw (le→ltb (remaining_buf b) 2 (omega (arith, remaining_buf-Ready f))) (
          ap (λ bs. (htons e (value_of e bs), advance 2 b)) bytes
          ∙ ap (λ n. (n, advance 2 b)) (ntohs-wire16 e v h)),
      ready,
    )

pub unpack32-Ready :
    (e : Endian) (old v : ℕ) (b : Buf) (r : List ℕ)
    → v < 2 ^ 32
    → Ready b (wire32 v ++ r)
    → (unpack32 e old b ≡ (v, advance 4 b)) × Ready (advance 4 b) r
unfolding unpack32
unpack32-Ready e old v b r h f =
    let (ready, bytes) = advance-Ready 4 (wire32 v) r refl f in
    (
      rw (le→ltb (remaining_buf b) 4 (omega (arith, remaining_buf-Ready f))) (
          ap (λ bs. (htonl e (value_of e bs), advance 4 b)) bytes
          ∙ ap (λ n. (n, advance 4 b)) (ntohl-wire32 e v h)),
      ready,
    )

-- Eight bytes ahead are converted by `ntoh_int64`, whatever they are.
pub unpack_time-Ready :
    (e : Endian) (old : ℕ) (bs : List ℕ) (b : Buf) (r : List ℕ)
    → length bs ≡ 8
    → Ready b (bs ++ r)
    → (unpack_time e old b ≡ (ntoh_int64 e (value_of e bs), advance 8 b)) × Ready (advance 8 b) r
unfolding unpack_time
unpack_time-Ready e old bs b r len f =
    let (ready, bytes) = advance-Ready 8 bs r len f in
    (
      rw (le→ltb (remaining_buf b) 8 (omega (arith, remaining_buf-Ready f, length-append bs r)))
          (ap (λ t. (ntoh_int64 e (value_of e t), advance 8 b)) bytes),
      ready,
    )

-- `unpackmem` on a size word n and n bytes behind it.
module _ (e : Endian) (dest : List ℕ) (old n : ℕ) (bs r : List ℕ) (b : Buf) (small : n < 2 ^ 32)
    (some_bytes : 0 < n) (len : length bs ≡ n) (f : Ready b (wire32 n ++ (bs ++ r))) where
  -- What `unpackmem` hands back after its copy.
  abbrev pub finish : List ℕ → Outcome (List ℕ × ℕ × Buf)
  finish dest' = ok (dest', n, advance n (advance 4 b))

  behind : Ready (advance 4 b) (bs ++ r) × (get 4 b ≡ wire32 n)
  behind = advance-Ready 4 (wire32 n) (bs ++ r) refl f

  size_read : htonl e (value_of e (get 4 b)) ≡ n
  size_read = ap (λ t. htonl e (value_of e t)) behind.1 ∙ ntohl-wire32 e n small

  body : Ready (advance n (advance 4 b)) r × (get n (advance 4 b) ≡ bs)
  body = advance-Ready n bs r len behind.0

  guards :
      (ltb (remaining_buf b) 4 ≡ false)
      × (ltb 0 n ≡ true)
      × (ltb (remaining_buf (advance 4 b)) n ≡ false)
  guards = (
    le→ltb (remaining_buf b) 4 (omega (arith, remaining_buf-Ready f)),
    lt→ltb 0 n some_bytes,
    le→ltb (remaining_buf (advance 4 b)) n
        (omega (arith, remaining_buf-Ready behind.0, length-append bs r)),
  )

  pub unpackmem-memcpy : unpackmem e dest old b ≡ (memcpy dest bs >>= finish)
  unfolding unpackmem
  unpackmem-memcpy =
      rw (guards.0, size_read, guards.1, guards.2) (ap (λ t. memcpy dest t >>= finish) body.1)

  -- Where the destination has room the bytes fill its front.
  pub unpackmem-Ready :
      n ≤ length dest
      → (unpackmem e dest old b ≡ ok (bs ++ drop n dest, n, advance n (advance 4 b)))
        × Ready (advance n (advance 4 b)) r
  unpackmem-Ready room = (unpackmem-memcpy ∙ copied, body.0)
    where
      copied : (memcpy dest bs >>= finish) ≡ ok (bs ++ drop n dest, n, advance n (advance 4 b))
      copied = rw (len, le→leb n (length dest) room)

  -- Where it has not, they run over its end.
  pub unpackmem_overflow : length dest < n → unpackmem e dest old b ≡ fault out_of_bounds
  unpackmem_overflow over = unpackmem-memcpy ∙ copied
    where
      copied : (memcpy dest bs >>= finish) ≡ fault out_of_bounds
      copied = rw (len, lt→leb (length dest) n over)

pub unpack_sockaddr-Ready :
    (e : Endian) (junk : ℕ) (old a : Sockaddr) (b : Buf) (r : List ℕ)
    → IsSockaddr a
    → length old.sin_zero ≡ 8
    → Ready b (wire_sockaddr a ++ r)
    → (b' : Buf) × (unpack_sockaddr e junk old b ≡ ok (a, b')) × Ready b' r
unfolding unpack_sockaddr
unpack_sockaddr-Ready e junk old a b r w len f =
    let (e1, f1) = unpack16-Ready e old.sin_family a.sin_family b _ w.family f in
    let (e2, f2) = unpack16-Ready e old.sin_port a.sin_port _ _ w.port f1 in
    let (e3, f3) = unpack32-Ready e old.s_addr a.s_addr _ _ w.addr f2 in
    let (e4, f4) =
      unpackmem-Ready e old.sin_zero junk 8 a.sin_zero r _ (omega arith) (omega arith) w.zero_size
        f3 (omega arith) in
    (_, rw (e1, e2, e3, e4) (rw filled), f4)
  where
    filled : a.sin_zero ++ drop 8 old.sin_zero ≡ a.sin_zero
    filled =
        ap (λ t. a.sin_zero ++ t) (drop-all 8 old.sin_zero (omega arith)) ∙ append-nil a.sin_zero
