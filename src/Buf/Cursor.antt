-- ===== src/Buf/Cursor.antt =====
-- The buffer as two lists, what has been processed and what is ahead, and one write and one
-- read in terms of them.
use deamon.Common.{
  ℕ, ◌+◌, ◌%◌, ◌^◌, ◌≤◌, ◌≡◌, refl, sym, ap, ◌∙◌, List, ◌++◌, append_assoc, arith, length, take,
  drop, length-append, length-take, length-drop, take-append, drop-append, drop-drop,
}
use deamon.Buf.{Buf, max_buf_size, remaining_buf, write_at, advance, put, get}
use deamon.Host.{Endian, little, big, bytes_of}

abbrev pub out : Buf → List ℕ
out b = take b.processed b.head

abbrev pub rest : Buf → List ℕ
rest b = drop b.processed b.head

-- The block has the size that the structure says, and the position lies in it.
pub record IsValid (b : Buf) : Type 0 where
  pub block : length b.head ≡ b.size
  pub inside : b.processed ≤ b.size
  pub small : b.size ≤ max_buf_size

pub remaining_buf-rest : (b : Buf) → IsValid b → remaining_buf b ≡ length (rest b)
unfolding remaining_buf
remaining_buf-rest b v = omega (arith, length-drop b.processed b.head, v)

pub remaining_buf_lem : (b : Buf) → IsValid b → remaining_buf b + b.processed ≡ b.size
unfolding remaining_buf
remaining_buf_lem b v = omega (arith, v)

pub length-bytes_of :
    (e : Endian) (v : ℕ)
    → (length (bytes_of e 2 v) ≡ 2) × (length (bytes_of e 4 v) ≡ 4) × (length (bytes_of e 8 v) ≡ 8)
length-bytes_of little v = (refl, refl, refl)
length-bytes_of big v = (refl, refl, refl)

-- What a packing function did: the bytes `bs` follow those written before.
pub record Emits (b : Buf) (bs : List ℕ) (b' : Buf) : Type 0 where
  pub valid : IsValid b'
  pub written : out b' ≡ out b ++ bs
  pub moved : b'.processed ≡ b.processed + length bs
  pub same_size : b'.size ≡ b.size

-- The bytes ahead of the position.
pub record Ready (b : Buf) (r : List ℕ) : Type 0 where
  pub valid : IsValid b
  pub ahead : rest b ≡ r

length-write_at :
    (h : List ℕ) (p : ℕ) (bs : List ℕ)
    → p + length bs ≤ length h
    → length (write_at h p bs) ≡ length h
length-write_at h p bs fits = omega (
  arith,
  length-append (take p h) (bs ++ drop (p + length bs) h),
  length-append bs (drop (p + length bs) h),
  length-take p h,
  length-drop (p + length bs) h,
)

take-write_at :
    (h : List ℕ) (p : ℕ) (bs : List ℕ)
    → p + length bs ≤ length h
    → take (p + length bs) (write_at h p bs) ≡ take p h ++ bs
take-write_at h p bs fits =
    ap (take (p + length bs)) (sym (append_assoc (take p h) bs (drop (p + length bs) h)))
    ∙ take-append (p + length bs) (take p h ++ bs) (drop (p + length bs) h) size
  where
    size : length (take p h ++ bs) ≡ p + length bs
    size = omega (arith, length-append (take p h) bs, length-take p h)

module _ (b : Buf) (v : IsValid b) (bs : List ℕ) (fits : b.processed + length bs ≤ b.size) where
  no_wrap : (b.processed + length bs) % 2 ^ 32 ≡ b.processed + length bs
  no_wrap = omega (arith, v)

  pub put-Emits : Emits b bs (put bs b)
  put-Emits = record {
    valid = record {
      block = length-write_at b.head b.processed bs (omega (arith, v)) ∙ v.block;
      inside = omega (arith, no_wrap);
      small = v.small;
    };
    written =
        ap (λ n. take n (write_at b.head b.processed bs)) no_wrap
        ∙ take-write_at b.head b.processed bs (omega (arith, v));
    moved = no_wrap;
    same_size = refl;
  }

pub Emits-trans :
    {a b c : Buf} {xs ys : List ℕ} → Emits a xs b → Emits b ys c → Emits a (xs ++ ys) c
Emits-trans {a} {b} {c} {xs} {ys} f g = record {
  valid = g.valid;
  written = g.written ∙ ap (λ t. t ++ ys) f.written ∙ append_assoc (out a) xs ys;
  moved = omega (arith, f.moved, g.moved, length-append xs ys);
  same_size = g.same_size ∙ f.same_size;
}

pub remaining_buf-Ready : {b : Buf} {r : List ℕ} → Ready b r → remaining_buf b ≡ length r
remaining_buf-Ready {b} f = remaining_buf-rest b f.valid ∙ ap length f.ahead

-- `advance` over the bytes that are next.
pub advance-Ready :
    {b : Buf} (n : ℕ) (bs r : List ℕ)
    → length bs ≡ n
    → Ready b (bs ++ r)
    → Ready (advance n b) r × (get n b ≡ bs)
advance-Ready {b} n bs r e f = (
  record {
    valid = record {
      block = f.valid.block;
      inside = omega (arith, no_wrap, room, f.valid);
      small = f.valid.small;
    };
    ahead =
        ap (λ k. drop k b.head) no_wrap
        ∙ drop-drop b.processed n b.head
        ∙ ap (drop n) f.ahead
        ∙ drop-append n bs r e;
  },
  ap (take n) f.ahead ∙ take-append n bs r e,
)
  where
    room : b.processed + n ≤ b.size
    room =
        omega (
          arith,
          f.valid,
          e,
          remaining_buf-Ready f,
          remaining_buf_lem b f.valid,
          length-append bs r,
        )

    no_wrap : (b.processed + n) % 2 ^ 32 ≡ b.processed + n
    no_wrap = omega (arith, f.valid, room)
