-- ===== src/Discovery/Datagram.antt =====
-- A message that is multicast is the message that the daemons get.
use deamon.Common.{
  ℕ, ◌≡◌, ◌⊎◌, inl, inr, refl, ap, ◌∙◌, false, none, some, List, ◌∷◌, ◌++◌, arith, length, take,
  drop, length-append, length-drop, ◌==◌, ◌||◌,
}
use mathlib.Core.Path.{subst}
use deamon.Common.Int.{ℤ, pos, minus_one}
use deamon.Common.Outcome.{ok}
use deamon.Host.{Endian, little, big}
use deamon.Buf.{Malloc}
use deamon.Buf.Alloc.{IsGranted, init_buf-IsFresh, create_buf-Ready}
use deamon.Protocol.{SkrumMsg, Body, to}
use deamon.Protocol.Wire.{IsMsg, wire_msg}
use deamon.Protocol.Unpack.{unpack_msg-Ready}
use deamon.Api.Send.{length-wire_msg, packed}
use deamon.Os.{Os}
use deamon.Connect.{skrum_setup_sockaddr, skrum_open_datagram_conn}
use deamon.Connect.Ledger.{Option-cases}
use deamon.Discovery.{
  udp_buf_size, discovery_addr, send_datagram, skrum_send_discovery_msg,
  skrum_receive_discovery_msg,
}

-- The multicast address is good, whatever the host's byte order.
good_addr :
    (e : Endian)
    → (((discovery_addr e).sin_family == 0) || ((discovery_addr e).sin_port == 0)) ≡ false
unfolding skrum_setup_sockaddr
good_addr little = refl
good_addr big = refl

module _ (os : Os) (e : Endian) where
  open os use {World, open_fds, datagrams, socket, sendto}

  open_none :
      (w : World)
      → (socket w).0 ≡ none
      → skrum_open_datagram_conn os (discovery_addr e) w ≡ (minus_one, (socket w).1)
  unfolding skrum_open_datagram_conn
  open_none w q = rw (good_addr e, q)

  open_some :
      (w : World) (fd : ℕ)
      → (socket w).0 ≡ some fd
      → skrum_open_datagram_conn os (discovery_addr e) w ≡ (pos fd, (socket w).1)
  unfolding skrum_open_datagram_conn
  open_some w fd q = rw (good_addr e, q)

  -- What `sendto` and `close` do to the ledgers of a world in which `fd` has just been opened.
  datagram_sent :
      (bs : List ℕ) (fd : ℕ) (w0 w1 : World)
      → open_fds w1 ≡ fd ∷ open_fds w0
      → datagrams w1 ≡ datagrams w0
      → (rc : ℤ) × (w' : World) × (send_datagram os e bs (discovery_addr e) fd w1 ≡ (rc, w'))
        × (open_fds w' ≡ open_fds w0)
        × (((rc ≡ minus_one) × (datagrams w' ≡ datagrams w0))
            ⊎ (n : ℕ) × (rc ≡ pos n) × (datagrams w' ≡ (discovery_addr e, bs) ∷ datagrams w0))
  unfolding send_datagram
  datagram_sent bs fd w0 w1 held same = elim (Option-cases (sendto fd bs (discovery_addr e) w1).0) [
    | inl q ↦ (
      minus_one,
      os.close fd (sendto fd bs (discovery_addr e) w1).1,
      rw (q, send_datagram),
      os.close_fds (os.sendto_fds fd bs (discovery_addr e) w1 ∙ held),
      inl (
        refl,
        os.close_datagrams fd _ ∙ os.sendto_datagrams fd bs (discovery_addr e) w1 ∙ rw q same,
      ),
    )
    | inr (n, q) ↦ (
      pos n,
      os.close fd (sendto fd bs (discovery_addr e) w1).1,
      rw (q, send_datagram),
      os.close_fds (os.sendto_fds fd bs (discovery_addr e) w1 ∙ held),
      inr (
        n,
        refl,
        os.close_datagrams fd _
            ∙ os.sendto_datagrams fd bs (discovery_addr e) w1
            ∙ rw q (ap (λ x. (discovery_addr e, bs) ∷ x) same),
      ),
    )
  ]

  -- For a well-formed message and with memory granted `skrum_send_discovery_msg` returns, leaves no
  -- descriptor open, and unless it returns -1 it has sent one datagram with the bytes of the message
  -- to the multicast address and port.
  pub send_discovery_datagram :
      (ma : Malloc) (m : SkrumMsg) (body : Body) (w : World)
      → IsGranted ma
      → IsMsg m body
      → (rc : ℤ) × (w' : World) × (skrum_send_discovery_msg os e ma m w ≡ ok (rc, w'))
        × (open_fds w' ≡ open_fds w)
        × (((rc ≡ minus_one) × (datagrams w' ≡ datagrams w))
            ⊎ (n : ℕ) × (rc ≡ pos n)
              × (datagrams w' ≡ (discovery_addr e, wire_msg m body) ∷ datagrams w))
  unfolding skrum_send_discovery_msg
  send_discovery_datagram ma m body w g wf =
      let (b, q, f) = init_buf-IsFresh ma udp_buf_size g (omega arith) in
      let (b', q', len, bytes) = packed e m body b udp_buf_size wf f (omega arith) in
      elim (Option-cases (socket w).0) [
        | inl n ↦ (
          minus_one,
          (socket w).1,
          rw (q, q', ap (λ x. x.0) (open_none w n), ap (λ x. x.1) (open_none w n)),
          (os.socket_none n).0,
          inl (refl, os.socket_datagrams w),
        )
        | inr (fd, n) ↦
            let (rc, w', sent, held, told) =
              datagram_sent (take b'.processed b'.head) fd w (socket w).1 (os.socket_some n).0
                (os.socket_datagrams w) in
            (
              rc,
              w',
              rw (q, q', ap (λ x. x.0) (open_some w fd n), ap (λ x. x.1) (open_some w fd n), sent),
              held,
              subst
                  (λ (t : List ℕ).
                    ((rc ≡ minus_one) × (datagrams w' ≡ datagrams w))
                    ⊎ (k : ℕ) × (rc ≡ pos k) × (datagrams w' ≡ (discovery_addr e, t) ∷ datagrams w))
                  bytes told,
            )
      ]

-- The datagram of a well-formed message, received with memory granted on a host of either byte order
-- over whatever lay in the array of 512 bytes, is that message: its type, address and data, with the
-- receiver's other fields kept.
pub receive_discovery_datagram :
    (e : Endian) (ma : Malloc) (junk : ℕ) (stack : List ℕ) (m old : SkrumMsg) (body : Body)
    → IsGranted ma
    → IsMsg m body
    → length stack ≡ udp_buf_size
    → length old.orig_addr.sin_zero ≡ 8
    → skrum_receive_discovery_msg e ma junk stack (some (wire_msg m body)) old
      ≡ ok (0, record old { msg_type = m.msg_type; orig_addr = m.orig_addr; data_ptr = to body })
unfolding skrum_receive_discovery_msg
receive_discovery_datagram e ma junk stack m old body g wf size len =
    let (b, made, ready) =
      create_buf-Ready ma (wire_msg m body ++ drop (length (wire_msg m body)) stack) udp_buf_size g
        (omega (
          arith,
          length-append (wire_msg m body) (drop (length (wire_msg m body)) stack),
          length-drop (length (wire_msg m body)) stack,
          length-wire_msg m body wf,
          size,
        ))
        (omega arith) in
    let (b', read, _) = unpack_msg-Ready e junk old m body b _ wf len ready in rw (made, read)
