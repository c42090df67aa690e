-- ===== src/Api/Failure.antt =====
-- `skrum_receive_msg` when the message does not arrive, arrives in pieces, or is too long.
use deamon.Common.{ℕ, ◌^◌, ◌<◌, ◌≡◌, refl, List, [], ◌∷◌, ◌++◌, arith, length}
use deamon.Common.Int.{ℤ, minus_one}
use deamon.Common.Outcome.{ok, fault, double_free, null_dereference}
use deamon.Host.{Endian}
use deamon.Host.Laws.{wire32}
use deamon.Buf.{max_buf_size}
use deamon.Buf.Alloc.{create_buf-Ready, create_buf_too_large}
use deamon.Buf.Cursor.{remaining_buf-Ready}
use deamon.Protocol.{SkrumMsg}
use deamon.Protocol.Malformed.{zero_info, unpack_msg_empty}
use deamon.Socket.{Conn, got, no_block, skrum_msg_recvfrom}
use deamon.Socket.Frame.{IsPrompt, recvfrom_frame, recvfrom_fragmented, recvfrom_split_header}
use deamon.Api.{RecvMalloc, skrum_receive_msg}
use deamon.Api.Receive.{IsAllGranted}

module _ (c : Conn) (e : Endian) (ma : RecvMalloc) (g : IsAllGranted ma) (junk : ℕ) (fd : ℤ)
    (old : SkrumMsg) where
  open c use {State, recv, incoming}

  -- No block came back from `skrum_msg_recvfrom`: the call still returns 0, with a controller
  -- message full of zeros.
  nothing_received :
      (s s' : State)
      → old.msg_type ≡ 0
      → skrum_msg_recvfrom c e ma.got_payload 0 s ≡ ok (minus_one, no_block, 0, s')
      → skrum_receive_msg c e ma junk fd old s
        ≡ ok (0, record old { conn_fd = fd; data_ptr = zero_info }, s')
  unfolding skrum_receive_msg
  nothing_received s s' t q =
      let (b, made, ready) = create_buf-Ready ma.buffer [] 0 g.buffer refl (omega arith) in
      rw (
        q,
        made,
        unpack_msg_empty e b (remaining_buf-Ready ready) junk (record old { conn_fd = fd }) t,
      )

  -- A length word of which only some bytes arrive first is a failed receive, which `skrum_receive_msg`
  -- into a message of type 0 reports as success, with memory granted: it returns 0 and a controller
  -- message full of zeros.
  pub receive_split_header :
      (s s1 : State) (y : ℕ) (ys : List ℕ)
      → old.msg_type ≡ 0
      → length (y ∷ ys) < 4
      → recv s 4 ≡ (got (y ∷ ys), s1)
      → (s' : State) × (skrum_receive_msg c e ma junk fd old s
          ≡ ok (0, record old { conn_fd = fd; data_ptr = zero_info }, s'))
  receive_split_header s s1 y ys t short q =
      let (s', r) = recvfrom_split_header c e ma.got_payload 0 s s1 y ys short q in
      (s', nothing_received s s' t r)

  -- When the length word arrives whole and the first chunk of the payload is not all of it, but some
  -- of it, `skrum_receive_msg` into a message of type 0 frees the block twice, with memory granted.
  pub receive_fragmented :
      (n : ℕ) (s s1 s2 : State) (y : ℕ) (ys : List ℕ)
      → old.msg_type ≡ 0
      → n < 2 ^ 31
      → recv s 4 ≡ (got (wire32 n), s1)
      → length (y ∷ ys) < n
      → recv s1 n ≡ (got (y ∷ ys), s2)
      → skrum_receive_msg c e ma junk fd old s ≡ fault double_free
  unfolding skrum_receive_msg
  receive_fragmented n s s1 s2 y ys t h1 q1 short q2 =
      let (s', r) = recvfrom_fragmented c e 0 n s s1 s2 y ys h1 q1 short q2 in
      let (b, made, ready) = create_buf-Ready ma.buffer [] 0 g.buffer refl (omega arith) in
      rw (
        g.payload,
        r,
        made,
        unpack_msg_empty e b (remaining_buf-Ready ready) junk (record old { conn_fd = fd }) t,
      )

  -- A frame longer than MAX_BUF_SIZE, with less than 2 ^ 31 bytes, that arrives on a prompt connection
  -- makes `skrum_receive_msg` read through a null pointer, with memory granted.
  pub receive_too_large :
      IsPrompt c e
      → (n : ℕ) (bs r : List ℕ) (s : State) → max_buf_size < n
      → n < 2 ^ 31
      → length bs ≡ n
      → incoming s ≡ wire32 n ++ (bs ++ r)
      → skrum_receive_msg c e ma junk fd old s ≡ fault null_dereference
  unfolding skrum_receive_msg
  receive_too_large prompt n bs r s large h1 len q =
      let (s', whole, left, _) = recvfrom_frame c e prompt 0 n bs r s (omega arith) h1 len q in
      rw (g.payload, whole, create_buf_too_large ma.buffer bs n large)
