-- ===== src/Buf.antt =====
-- src/common/pack.c and pack.h: the buffer that messages are packed into and unpacked from.
-- A pointer argument through which a function returns a value becomes the old value in and the
-- new value out; the memory behind `valp` is a list as long as the object.
pub mod Cursor
pub mod Write
pub mod Read
pub mod Alloc
use deamon.Common.{
  ℕ, ◌+◌, ◌-◌, ◌%◌, ◌^◌, Bool, true, false, Option, none, some, List, [], ◌∷◌, ◌++◌, length, take,
  drop, replicate, ltb, leb, if◌then◌else◌,
}
use deamon.Common.Outcome.{Outcome, ok, fault, Fault, null_dereference, out_of_bounds, ◌>>=◌}
use deamon.Host.{Endian, bytes_of, value_of, htons, htonl, hton_int64, ntoh_int64}

abbrev pub buf_size : ℕ
buf_size = 16384

abbrev pub max_buf_size : ℕ
max_buf_size = 32768

-- `head` is the malloced block.
pub record Buf : Type 0 where
  pub head : List ℕ
  pub size : ℕ  -- uint32_t
  pub processed : ℕ  -- uint32_t

-- Whether the two calls of malloc succeed, for the structure and for its block.
pub record Malloc : Type 0 where
  pub got_struct : Bool
  pub got_head : Bool

-- `&head[at]` as the source and as the target of a memcpy.
abbrev pub slice : ℕ → ℕ → List ℕ → List ℕ
slice at n bs = take n (drop at bs)

abbrev pub write_at : List ℕ → ℕ → List ℕ → List ℕ
write_at bs at new = take at bs ++ (new ++ drop (at + length new) bs)

-- `memcpy(dest, src, n)` into an object of its own.
abbrev pub memcpy : List ℕ → List ℕ → Outcome (List ℕ)
memcpy dest src =
    if leb (length src) (length dest)
    then ok (src ++ drop (length src) dest)
    else fault out_of_bounds

-- The first malloc is not checked before the structure is written; `fill` is what follows both.
unfoldable pub alloc_buf : Malloc → ℕ → Outcome (List ℕ) → Outcome (Option Buf)
alloc_buf m size fill =
    if m.got_struct
    then if m.got_head
      then (fill >>= λ bytes. ok (some (record { head = bytes; size = size; processed = 0 })))
      else ok none
    else fault null_dereference

-- `bytes` is what stands at the pointer `data`.
unfoldable pub create_buf : Malloc → List ℕ → ℕ → Outcome (Option Buf)
unfolding alloc_buf
create_buf m bytes size =
    if ltb max_buf_size size
    then ok none
    else alloc_buf m size
        (if leb size (length bytes) then ok (take size bytes) else fault out_of_bounds)

unfoldable pub init_buf : Malloc → ℕ → Outcome (Option Buf)
unfolding alloc_buf
init_buf m size =
    if ltb max_buf_size size then ok none else alloc_buf m size (ok (replicate size 0))

unfoldable pub remaining_buf : Buf → ℕ
remaining_buf b = (b.size + 2 ^ 32 - b.processed) % 2 ^ 32

-- `buffer->processed += n`
abbrev pub advance : ℕ → Buf → Buf
advance n b = record b { processed = (b.processed + n) % 2 ^ 32 }

-- `memcpy(&buffer->head[buffer->processed], …)` and the step past it.
abbrev pub put : List ℕ → Buf → Buf
put new b = advance (length new) (record b { head = write_at b.head b.processed new })

abbrev pub get : ℕ → Buf → List ℕ
get n b = slice b.processed n b.head

unfoldable pub pack16 : Endian → ℕ → Buf → Buf
pack16 e val b =
    let ns = htons e val in if ltb (remaining_buf b) 2 then b else put (bytes_of e 2 ns) b

unfoldable pub unpack16 : Endian → ℕ → Buf → ℕ × Buf
unpack16 e val b =
    if ltb (remaining_buf b) 2 then (val, b) else (htons e (value_of e (get 2 b)), advance 2 b)

unfoldable pub pack32 : Endian → ℕ → Buf → Buf
pack32 e val b =
    let nl = htonl e val in if ltb (remaining_buf b) 4 then b else put (bytes_of e 4 nl) b

unfoldable pub unpack32 : Endian → ℕ → Buf → ℕ × Buf
unpack32 e val b =
    if ltb (remaining_buf b) 4 then (val, b) else (htonl e (value_of e (get 4 b)), advance 4 b)

-- `sizeof(nl) + size_val` is a size_t, so it does not wrap.
unfoldable pub packmem : Endian → List ℕ → ℕ → Buf → Buf
packmem e valp size_val b =
    let nl = htonl e size_val in
    if ltb (remaining_buf b) (4 + size_val)
    then b
    else let b' = put (bytes_of e 4 nl) b in
      if ltb 0 size_val then put (take size_val valp) b' else b'

-- The result holds `valp`'s object, `*size_valp` and the buffer.
unfoldable pub unpackmem : Endian → List ℕ → ℕ → Buf → Outcome (List ℕ × ℕ × Buf)
unpackmem e valp size_val b =
    if ltb (remaining_buf b) 4
    then ok (valp, size_val, b)
    else let n = htonl e (value_of e (get 4 b)) in
      let b' = advance 4 b in
      if ltb 0 n
      then if ltb (remaining_buf b') n
        then ok (valp, n, b')
        else (memcpy valp (get n b') >>= λ valp'. ok (valp', n, advance n b'))
      else (memcpy valp (0 ∷ []) >>= λ valp'. ok (valp', n, b'))

-- A time_t is its 64-bit pattern.
unfoldable pub pack_time : Endian → ℕ → Buf → Buf
pack_time e val b =
    let ns = hton_int64 e val in if ltb (remaining_buf b) 8 then b else put (bytes_of e 8 ns) b

unfoldable pub unpack_time : Endian → ℕ → Buf → ℕ × Buf
unpack_time e val b =
    if ltb (remaining_buf b) 8 then (val, b) else (ntoh_int64 e (value_of e (get 8 b)), advance 8 b)

-- struct sockaddr_in; `sin_zero` has eight bytes.
pub record Sockaddr : Type 0 where
  pub sin_family : ℕ
  pub sin_port : ℕ
  pub s_addr : ℕ
  pub sin_zero : List ℕ

-- The members are in network order in memory already, and are swapped again.
unfoldable pub pack_sockaddr : Endian → Sockaddr → Buf → Buf
pack_sockaddr e addr b =
    packmem e addr.sin_zero 8
      (pack32 e addr.s_addr (pack16 e addr.sin_port (pack16 e addr.sin_family b)))

-- `sin_zero_size` starts out with whatever the stack held.
unfoldable pub unpack_sockaddr : Endian → ℕ → Sockaddr → Buf → Outcome (Sockaddr × Buf)
unpack_sockaddr e junk addr b =
    let (family, b1) = unpack16 e addr.sin_family b in
    let (port, b2) = unpack16 e addr.sin_port b1 in
    let (s_addr, b3) = unpack32 e addr.s_addr b2 in
    unpackmem e addr.sin_zero junk b3 >>= λ r.
    ok (record { sin_family = family; sin_port = port; s_addr = s_addr; sin_zero = r.0 }, r.2)
