-- ===== src/Api.antt =====
-- src/common/skrum_protocol_api.c: sending and receiving one message over a connected socket.
pub mod Send
pub mod Receive
pub mod Failure
use deamon.Common.{
  ℕ, ◌+◌, ◌≤◌, Bool, true, false, Option, none, some, List, [], ◌≡◌, if◌then◌else◌, ltb, ◌||◌,
}
use deamon.Common.Int.{ℤ, pos, negsuc, minus_one, is_neg, eq_ℤ}
use deamon.Common.Outcome.{Outcome, ok, fault, null_dereference, double_free, ◌>>=◌}
use deamon.Host.{Endian}
use deamon.Buf.{Buf, Malloc, buf_size, create_buf, init_buf}
use deamon.Protocol.{SkrumMsg, pack_msg, unpack_msg}
use deamon.Socket.{Conn, Block, no_block, released, block, skrum_msg_recvfrom, skrum_msg_sendto}

-- Neither caller checks the buffer that it gets before using it.
abbrev pub used : Option Buf → Outcome Buf
used none = fault null_dereference
used (some b) = ok b

-- What `create_buf` finds at the pointer. A block that was released comes with the length 0.
abbrev pub contents : Block → List ℕ
contents no_block = []
contents released = []
contents (block bs) = bs

-- `free(buf)` at the end of `skrum_receive_msg`.
abbrev pub free_payload : Block → Outcome (Unit {0})
free_payload no_block = ok tt
free_payload released = fault double_free
free_payload (block bs) = ok tt

-- Which mallocs of `skrum_receive_msg` succeed.
pub record RecvMalloc : Type 0 where
  pub got_payload : Bool
  pub buffer : Malloc

module _ (c : Conn) (e : Endian) where
  open c use {State}

  -- The result of `pack_msg` is not looked at.
  unfoldable pub skrum_send_msg : Malloc → SkrumMsg → State → Outcome (ℤ × State)
  skrum_send_msg m msg s = init_buf m buf_size >>= λ buffer.
      used buffer >>= λ b. pack_msg e msg b >>= λ r. skrum_msg_sendto c e r.1.head r.1.processed s

  -- `junk` is the uninitialised word of `unpack_sockaddr`. The return value of the receiving
  -- call is overwritten by that of `unpack_msg`.
  unfoldable pub skrum_receive_msg :
      RecvMalloc → ℕ → ℤ → SkrumMsg → State → Outcome (ℕ × SkrumMsg × State)
  skrum_receive_msg m junk fd msg s = skrum_msg_recvfrom c e m.got_payload 0 s >>= λ r.
      create_buf m.buffer (contents r.1) r.2 >>= λ buffer. used buffer >>= λ b.
      unpack_msg e junk (record msg { conn_fd = fd }) b >>= λ u.
      free_payload r.1 >>= λ _. ok (u.0, u.1, r.3)

  -- `fd` is what `skrum_open_msg_conn` returned, and `s` the new connection.
  unfoldable pub skrum_send_recv_msg :
      Malloc → RecvMalloc → ℕ → ℤ → SkrumMsg → SkrumMsg → State → Outcome (ℤ × SkrumMsg × State)
  unfolding skrum_send_msg skrum_receive_msg
  skrum_send_recv_msg m rm junk fd request response s =
      if is_neg fd || eq_ℤ fd (pos 0)
      then ok (minus_one, response, s)
      else (skrum_send_msg m request s >>= λ sent.
          if is_neg sent.0
          then ok (minus_one, response, sent.1)
          else (skrum_receive_msg rm junk fd response sent.1 >>= λ r. ok (pos r.0, r.1, r.2)))
