-- ===== src/Api/Receive.antt =====
-- `skrum_receive_msg` gives back the message of a frame that a prompt connection delivers.
use deamon.Common.{
  ℕ, ◌≤◌, ◌<◌, ◌≡◌, ◌⊎◌, inl, inr, refl, sym, ap, ◌∙◌, true, List, [], ◌++◌, arith, length,
  append-nil, append_cancel_left,
}
use mathlib.Core.Path.{subst}
use deamon.Common.Int.{ℤ, pos, minus_one, pos-ne-minus_one}
use deamon.Common.Outcome.{ok, >>=-eq-ok, ok_injective}
use deamon.Host.{Endian}
use deamon.Buf.{Malloc, create_buf}
use deamon.Buf.Alloc.{IsGranted, create_buf-Ready}
use deamon.Buf.Cursor.{Ready}
use deamon.Protocol.{Body, to, SkrumMsg, unpack_msg}
use deamon.Protocol.Wire.{IsMsg, wire_msg}
use deamon.Protocol.Unpack.{unpack_msg-Ready, IsUnpacked, unpack_msg-IsUnpacked}
use deamon.Socket.{Conn, skrum_msg_recvfrom}
use deamon.Socket.Frame.{IsPrompt, recvfrom_frame}
use deamon.Api.{RecvMalloc, used, contents, free_payload, skrum_receive_msg, skrum_send_msg}
use deamon.Api.Send.{frame, length-wire_msg, send_msg_frame}

-- Every malloc of `skrum_receive_msg` succeeds.
pub record IsAllGranted (m : RecvMalloc) : Type 0 where
  pub payload : m.got_payload ≡ true
  pub buffer : IsGranted m.buffer

-- The received message: the sender's type, address and data, on the receiver's descriptor.
abbrev pub received : ℤ → SkrumMsg → SkrumMsg → Body → SkrumMsg
received fd old m body = record old {
  conn_fd = fd;
  msg_type = m.msg_type;
  orig_addr = m.orig_addr;
  data_ptr = to body;
}

module _ (c : Conn) (e : Endian) where
  open c use {State, incoming, outgoing}

  pub receive_frame :
      IsPrompt c e
      → (ma : RecvMalloc) (junk : ℕ) (fd : ℤ) (old m : SkrumMsg) (body : Body) (r : List ℕ)
        (s : State)
      → IsAllGranted ma
      → IsMsg m body
      → length old.orig_addr.sin_zero ≡ 8
      → incoming s ≡ frame m body ++ r
      → (s' : State) × (skrum_receive_msg c e ma junk fd old s ≡ ok (0, received fd old m body, s'))
        × (incoming s' ≡ r)
        × (outgoing s' ≡ outgoing s)
  unfolding skrum_receive_msg
  receive_frame prompt ma junk fd old m body r s g w len q =
      let (s', got, left, kept) =
        recvfrom_frame c e prompt 0 n (wire_msg m body) r s (omega (arith, sizes))
          (omega (arith, sizes)) refl q in
      let (b, made, ready) =
        create_buf-Ready ma.buffer (wire_msg m body) n g.buffer refl (omega (arith, sizes)) in
      let (b', read, _) =
        unpack_msg-Ready e junk (record old { conn_fd = fd }) m body b [] w len
          (subst (Ready b) (sym (append-nil (wire_msg m body))) ready) in
      (s', rw (g.payload, got, made, read), left, kept)
    where
      n : ℕ
      n = length (wire_msg m body)

      sizes : (0 < length (wire_msg m body)) × (length (wire_msg m body) ≤ 36)
      sizes = length-wire_msg m body w

  -- Whatever arrives: a message that is handed out has data of the type it says, or none.
  pub receive_msg-IsUnpacked :
      (ma : RecvMalloc) (junk : ℕ) (fd : ℤ) (old : SkrumMsg) (s : State) {rc : ℕ} {m : SkrumMsg}
      {s' : State}
      → skrum_receive_msg c e ma junk fd old s ≡ ok (rc, m, s')
      → IsUnpacked rc m.msg_type m.data_ptr
  unfolding skrum_receive_msg
  receive_msg-IsUnpacked ma junk fd old s h =
      let (r, q1, h1) = >>=-eq-ok (skrum_msg_recvfrom c e ma.got_payload 0 s) _ h in
      let (buffer, q2, h2) = >>=-eq-ok (create_buf ma.buffer (contents r.1) r.2) _ h1 in
      let (b, q3, h3) = >>=-eq-ok (used buffer) _ h2 in
      let (u, q4, h4) = >>=-eq-ok (unpack_msg e junk (record old { conn_fd = fd }) b) _ h3 in
      let (_, q5, h5) = >>=-eq-ok (free_payload r.1) _ h4 in
      subst (λ (t : ℕ × SkrumMsg × State). IsUnpacked t.0 t.1.msg_type t.1.data_ptr)
        (ok_injective h5) (unpack_msg-IsUnpacked e junk (record old { conn_fd = fd }) b q4)

-- A well-formed message sent from a host of one byte order is the message received on a host of any
-- order: if `skrum_send_msg` reports no failure, the bytes that it wrote, read through a connection
-- that delivers promptly, make `skrum_receive_msg` return 0 with the sender's type, address and data,
-- and leave what follows them. The mallocs are granted.
pub receive-send :
    (c1 c2 : Conn) (e1 e2 : Endian)
    → IsPrompt c2 e2
    → (ma : Malloc) (ra : RecvMalloc) (junk : ℕ) (fd : ℤ)
    → (m old : SkrumMsg) (body : Body) (s1 s1' : c1.State) (s2 : c2.State)
    → (k : ℕ) (written r : List ℕ) → IsGranted ma
    → IsAllGranted ra
    → IsMsg m body
    → length old.orig_addr.sin_zero ≡ 8
    → skrum_send_msg c1 e1 ma m s1 ≡ ok (pos k, s1')
    → c1.outgoing s1' ≡ c1.outgoing s1 ++ written
    → c2.incoming s2 ≡ written ++ r
    → (s2' : c2.State) × (skrum_receive_msg c2 e2 ra junk fd old s2
        ≡ ok (0, received fd old m body, s2'))
      × (c2.incoming s2' ≡ r)
receive-send c1 c2 e1 e2 prompt ma ra junk fd m old body s1 s1' s2 k written r g1 g2 w len sent o
      i =
    let (rc, t, q, done) = send_msg_frame c1 e1 ma m body s1 g1 w in
    let (s2', got, left, _) =
      receive_frame c2 e2 prompt ra junk fd old m body r s2 g2 w len
        (i ∙ ap (λ x. x ++ r) (go rc t q done)) in
    (s2', got, left)
  where
    go :
        (rc : ℤ) (t : c1.State)
        → skrum_send_msg c1 e1 ma m s1 ≡ ok (rc, t)
        → (rc ≡ minus_one)
          ⊎ (j : ℕ) × (rc ≡ pos j) × (c1.outgoing t ≡ c1.outgoing s1 ++ frame m body)
        → written ≡ frame m body
    go rc t q (inl p) = absurd (pos-ne-minus_one (ap (λ x. x.0) (ok_injective (sym sent ∙ q)) ∙ p))
    go rc t q (inr (j, p, f)) =
        append_cancel_left (c1.outgoing s1) written (frame m body)
          (sym o ∙ ap (λ x. c1.outgoing x.1) (ok_injective (sym sent ∙ q)) ∙ f)
