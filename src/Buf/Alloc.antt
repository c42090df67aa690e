-- ===== src/Buf/Alloc.antt =====
-- The buffers that `init_buf` and `create_buf` make, and when they make none.
use deamon.Common.{
  ℕ, ◌≤◌, ◌<◌, ◌≡◌, refl, true, none, some, List, arith, length, replicate, length-replicate,
  take-all, le→ltb, lt→ltb, le→leb,
}
use deamon.Common.Outcome.{ok}
use deamon.Buf.{Buf, Malloc, max_buf_size, init_buf, create_buf}
use deamon.Buf.Cursor.{IsValid, Ready}

-- Both calls of malloc succeed.
pub record IsGranted (m : Malloc) : Type 0 where
  pub struct : m.got_struct ≡ true
  pub head : m.got_head ≡ true

-- A buffer with nothing written to it.
pub record IsFresh (b : Buf) (size : ℕ) : Type 0 where
  pub valid : IsValid b
  pub start : b.processed ≡ 0
  pub full : b.size ≡ size

pub init_buf-IsFresh :
    (m : Malloc) (size : ℕ)
    → IsGranted m
    → size ≤ max_buf_size
    → (b : Buf) × (init_buf m size ≡ ok (some b)) × IsFresh b size
unfolding init_buf
init_buf-IsFresh m size g h = (
  record { head = replicate size 0; size = size; processed = 0 },
  rw (le→ltb max_buf_size size h, g.struct, g.head),
  record {
    valid = record { block = length-replicate size 0; inside = omega arith; small = h };
    start = refl;
    full = refl;
  },
)

-- The received bytes are what the new buffer has ahead.
pub create_buf-Ready :
    (m : Malloc) (bytes : List ℕ) (size : ℕ)
    → IsGranted m
    → length bytes ≡ size
    → size ≤ max_buf_size
    → (b : Buf) × (create_buf m bytes size ≡ ok (some b)) × Ready b bytes
unfolding create_buf
create_buf-Ready m bytes size g len h = (
  record { head = bytes; size = size; processed = 0 },
  rw (
    le→ltb max_buf_size size h,
    g.struct,
    g.head,
    le→leb size (length bytes) (omega arith),
    take-all size bytes (omega arith),
  ),
  record { valid = record { block = len; inside = omega arith; small = h }; ahead = refl },
)

-- Past MAX_BUF_SIZE there is no buffer.
pub create_buf_too_large :
    (m : Malloc) (bytes : List ℕ) (size : ℕ)
    → max_buf_size < size
    → create_buf m bytes size ≡ ok none
unfolding create_buf
create_buf_too_large m bytes size h = rw (lt→ltb max_buf_size size h)
