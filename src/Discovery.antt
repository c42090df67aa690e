-- ===== src/Discovery.antt =====
-- src/common/skrum_discovery_api.c: the multicast of the controller, one datagram for a message.
pub mod Datagram
pub mod Join
use deamon.Common.{
  ℕ, ◌+◌, ◌≤◌, Bool, true, false, Option, none, some, List, [], ◌∷◌, ◌++◌, take, drop, length,
  if◌then◌else◌,
}
use deamon.Common.Int.{ℤ, pos, minus_one, is_neg}
use deamon.Common.Outcome.{Outcome, ok, ◌>>=◌}
use deamon.Host.{Endian}
use deamon.Buf.{Buf, Malloc, Sockaddr, create_buf, init_buf}
use deamon.Protocol.{SkrumMsg, pack_msg, unpack_msg}
use deamon.Api.{used}
use deamon.Os.{Os}
use deamon.Connect.{skrum_setup_sockaddr, skrum_init_discovery_engine, skrum_open_datagram_conn}

abbrev pub discovery_port : ℕ
discovery_port = 6666

-- DISCOVERY_MCAST_ADDR
abbrev pub discovery_mcast_addr : List ℕ
discovery_mcast_addr = 224 ∷ 0 ∷ 0 ∷ 7 ∷ []

abbrev pub udp_buf_size : ℕ
udp_buf_size = 512

abbrev pub discovery_addr : Endian → Sockaddr
discovery_addr e = skrum_setup_sockaddr e discovery_port discovery_mcast_addr

module _ (os : Os) (e : Endian) where
  open os use {World, add_membership, sendto, close}

  -- A failure of the engine is only logged; then setsockopt gets the descriptor -1.
  unfoldable pub skrum_init_discovery : World → ℤ × World
  unfolding skrum_init_discovery_engine
  skrum_init_discovery w =
      let (fd, w1) = skrum_init_discovery_engine os (discovery_addr e) w in
      let (joined, w2) = add_membership fd w1 in (if joined then fd else minus_one, w2)

  -- `sendto` and the lines after it, with the address and the descriptor.
  unfoldable pub send_datagram : List ℕ → Sockaddr → ℕ → World → ℤ × World
  send_datagram bs dest_addr fd w =
      let (sent, w1) = sendto fd bs dest_addr w in
      (elim sent [ none ↦ minus_one | some n ↦ pos n ], close fd w1)

  unfoldable pub skrum_send_discovery_msg : Malloc → SkrumMsg → World → Outcome (ℤ × World)
  unfolding skrum_open_datagram_conn send_datagram
  skrum_send_discovery_msg m msg w = init_buf m udp_buf_size >>= λ buffer. used buffer >>= λ b.
      pack_msg e msg b >>= λ r.
      let (fd, w1) = skrum_open_datagram_conn os (discovery_addr e) w in
      ok (elim fd [
        | pos n ↦ send_datagram (take r.1.processed r.1.head) (discovery_addr e) n w1
        | _ ↦ (minus_one, w1)
      ])

-- What recvfrom stores over the first bytes of the array `buf`, none if it fails.
abbrev pub filled : Option (List ℕ) → List ℕ → List ℕ
filled none buf = buf
filled (some bs) buf = bs ++ drop (length bs) buf

-- `stack` is the uninitialised array, and `arrived` what recvfrom gives, cut to the size of it. A
-- failure is only logged, and its return value is overwritten.
unfoldable pub skrum_receive_discovery_msg :
    Endian → Malloc → ℕ → List ℕ → Option (List ℕ) → SkrumMsg → Outcome (ℕ × SkrumMsg)
skrum_receive_discovery_msg e m junk stack arrived msg =
    create_buf m (filled arrived stack) udp_buf_size >>= λ buffer.
    used buffer >>= λ b. unpack_msg e junk msg b >>= λ u. ok (u.0, u.1)
