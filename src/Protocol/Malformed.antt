-- ===== src/Protocol/Malformed.antt =====
-- `unpack_msg` on bytes that are no message: nothing at all, and a size word that is too large.
use deamon.Common.{ℕ, ◌^◌, ◌<◌, ◌≡◌, ◌∙◌, ap, List, ◌++◌, arith, length}
use deamon.Common.Outcome.{ok, fault, out_of_bounds}
use deamon.Host.{Endian}
use deamon.Host.Laws.{wire16, wire32}
use deamon.Buf.{
  Buf, Sockaddr, remaining_buf, unpack16, unpack32, unpackmem, unpack_time, unpack_sockaddr,
}
use deamon.Buf.Cursor.{Ready}
use deamon.Buf.Read.{unpack16-Ready, unpack32-Ready, unpackmem_overflow}
use deamon.Protocol.{controller_info, Pointer, to, SkrumMsg, unpack_body, unpack_msg}

abbrev pub zero_info : Pointer
zero_info = to (controller_info (record { ctrlr_port = 0; ctrlr_startup_ts = 0 }))

-- With no byte left an unpacking function leaves its target alone.
module _ (e : Endian) (b : Buf) (empty : remaining_buf b ≡ 0) where
  unpack16_empty : (old : ℕ) → unpack16 e old b ≡ (old, b)
  unfolding unpack16
  unpack16_empty old = rw empty

  unpack32_empty : (old : ℕ) → unpack32 e old b ≡ (old, b)
  unfolding unpack32
  unpack32_empty old = rw empty

  unpack_time_empty : (old : ℕ) → unpack_time e old b ≡ (old, b)
  unfolding unpack_time
  unpack_time_empty old = rw empty

  unpackmem_empty : (dest : List ℕ) (n : ℕ) → unpackmem e dest n b ≡ ok (dest, n, b)
  unfolding unpackmem
  unpackmem_empty dest n = rw empty

  unpack_body_empty : unpack_body e 0 b ≡ (0, zero_info, b)
  unfolding unpack_body
  unpack_body_empty = rw (unpack16_empty 0, unpack_time_empty 0)

  unpack_sockaddr_empty : (junk : ℕ) (a : Sockaddr) → unpack_sockaddr e junk a b ≡ ok (a, b)
  unfolding unpack_sockaddr
  unpack_sockaddr_empty junk a = rw (
    unpack16_empty a.sin_family,
    unpack16_empty a.sin_port,
    unpack32_empty a.s_addr,
    unpackmem_empty a.sin_zero junk,
  )

  -- A buffer with nothing to read is taken for a controller message full of zeros, if the type
  -- was 0 before, as `skrum_msg_t_init` leaves it.
  pub unpack_msg_empty :
      (junk : ℕ) (old : SkrumMsg)
      → old.msg_type ≡ 0
      → unpack_msg e junk old b ≡ ok (0, record old { data_ptr = zero_info }, b)
  unfolding unpack_msg
  unpack_msg_empty junk old t = rw (
    unpack16_empty old.msg_type,
    unpack_sockaddr_empty junk old.orig_addr,
    ap (λ n. unpack_body e n b) t ∙ unpack_body_empty,
  )

-- A message whose `sin_zero` on the wire is present and longer than the eight bytes of a sockaddr_in
-- is copied over the end of the structure, with the numbers before it in the range of their types.
pub unpack_msg_overflow :
    (e : Endian) (junk : ℕ) (old : SkrumMsg) (b : Buf)
    → (type family port addr n : ℕ) (bs r : List ℕ) → type < 2 ^ 16
    → family < 2 ^ 16
    → port < 2 ^ 16
    → addr < 2 ^ 32
    → n < 2 ^ 32
    → length old.orig_addr.sin_zero ≡ 8
    → length bs ≡ n
    → 8 < n
    → Ready b (
        wire16 type ++ (wire16 family ++ (wire16 port ++ (wire32 addr ++ (wire32 n ++ (bs ++ r))))))
    → unpack_msg e junk old b ≡ fault out_of_bounds
unfolding unpack_msg unpack_sockaddr
unpack_msg_overflow e junk old b type family port addr n bs r ht hf hp ha hn len sz over f0 =
    let (e1, f1) = unpack16-Ready e old.msg_type type b _ ht f0 in
    let (e2, f2) = unpack16-Ready e old.orig_addr.sin_family family _ _ hf f1 in
    let (e3, f3) = unpack16-Ready e old.orig_addr.sin_port port _ _ hp f2 in
    let (e4, f4) = unpack32-Ready e old.orig_addr.s_addr addr _ _ ha f3 in
    rw (
      e1,
      e2,
      e3,
      e4,
      unpackmem_overflow e old.orig_addr.sin_zero junk n bs r _ hn (omega arith) sz f4
          (omega arith),
    )
