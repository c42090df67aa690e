-- ===== src/Api/Send.antt =====
-- `skrum_send_msg` writes a message as one frame.
use deamon.Common.{ℕ, ◌≤◌, ◌<◌, ◌≡◌, ◌⊎◌, ap, ◌∙◌, List, ◌++◌, arith, length, take, length-append}
use mathlib.Core.Path.{subst, ap₂}
use deamon.Common.Int.{ℤ, pos, minus_one}
use deamon.Common.Outcome.{ok}
use deamon.Host.{Endian}
use deamon.Host.Laws.{wire32}
use deamon.Buf.{Buf, Malloc, buf_size}
use deamon.Buf.Alloc.{IsGranted, IsFresh, init_buf-IsFresh}
use deamon.Buf.Write.{wire_sockaddr}
use deamon.Buf.Cursor.{remaining_buf_lem}
use deamon.Protocol.{Body, SkrumMsg, pack_msg}
use deamon.Protocol.Wire.{IsMsg, wire_msg, wire_body, length-wire_body, pack_msg-Emits}
use deamon.Socket.{Conn}
use deamon.Socket.Frame.{sendto_frame}
use deamon.Api.{skrum_send_msg}

-- The number of bytes of a message.
pub length-wire_msg :
    (m : SkrumMsg) (body : Body)
    → IsMsg m body
    → (0 < length (wire_msg m body)) × (length (wire_msg m body) ≤ 36)
length-wire_msg m body w = (
  omega arith,
  omega (
    arith,
    length-append (wire_sockaddr m.orig_addr) (wire_body body ++ wire32 m.data_size),
    length-append (wire_body body) (wire32 m.data_size),
    length-wire_body body,
    w.addr,
  ),
)

-- The frame of a message: its length, then its bytes.
abbrev pub frame : SkrumMsg → Body → List ℕ
frame m body = wire32 (length (wire_msg m body)) ++ wire_msg m body

-- A message packed into a new buffer of any size that has room for it.
pub packed :
    (e : Endian) (m : SkrumMsg) (body : Body) (b : Buf) (size : ℕ)
    → IsMsg m body
    → IsFresh b size
    → 36 ≤ size
    → (b' : Buf) × (pack_msg e m b ≡ ok (0, b'))
      × (b'.processed ≡ length (wire_msg m body))
      × (take b'.processed b'.head ≡ wire_msg m body)
packed e m body b size w f room =
    let (b', q, g) =
      pack_msg-Emits e m body b w f.valid
        (omega (arith, remaining_buf_lem b f.valid, f.start, f.full, room)) in
    (
      b',
      q,
      omega (arith, g.moved, f.start),
      g.written ∙ ap (λ n. take n b.head ++ wire_msg m body) f.start,
    )

module _ (c : Conn) (e : Endian) where
  open c use {State, outgoing}

  -- A well-formed message is sent whatever the host's byte order: the call returns, and unless
  -- it reports failure one frame with the message stands on the stream.
  pub send_msg_frame :
      (ma : Malloc) (m : SkrumMsg) (body : Body) (s : State)
      → IsGranted ma
      → IsMsg m body
      → (rc : ℤ) × (s' : State) × (skrum_send_msg c e ma m s ≡ ok (rc, s'))
        × ((rc ≡ minus_one) ⊎ (k : ℕ) × (rc ≡ pos k) × (outgoing s' ≡ outgoing s ++ frame m body))
  unfolding skrum_send_msg
  send_msg_frame ma m body s g w =
      let (b, q, f) = init_buf-IsFresh ma buf_size g (omega arith) in
      let (b', q', len, bytes) = packed e m body b buf_size w f (omega arith) in
      let (rc, s', sent, framed) =
        sendto_frame c e b'.head b'.processed s (omega (arith, len, length-wire_msg m body w))
          (omega (arith, len, length-wire_msg m body w)) in
      (
        rc,
        s',
        rw (q, q', sent),
        subst
            (λ (t : List ℕ).
              (rc ≡ minus_one) ⊎ (k : ℕ) × (rc ≡ pos k) × (outgoing s' ≡ outgoing s ++ t))
            (ap₂ (λ n t. wire32 n ++ t) len bytes) framed,
      )
