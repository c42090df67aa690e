-- ===== src/Tests/Opening.antt =====
-- Sockets on a system with some busy ports, and the multicast.
use deamon.Common.{ℕ, ◌≡◌, ◌⊎◌, refl, some, [], ◌∷◌, replicate}
use deamon.Common.Int.{ℤ, pos, minus_one}
use deamon.Common.Outcome.{ok}
use deamon.Host.{little, big}
use deamon.Protocol.{to, skrum_msg_t_init}
use deamon.Protocol.Wire.{wire_msg}
use deamon.Os.Sample.{Sockets, sample}
use deamon.Connect.{skrum_init_msg_engine, skrum_open_msg_conn}
use deamon.Connect.Ledger.{Bound, Failed, opened_held}
use deamon.Discovery.{discovery_addr, skrum_send_discovery_msg, skrum_receive_discovery_msg}
use deamon.Discovery.Datagram.{send_discovery_datagram, receive_discovery_datagram}
use deamon.Tests.Messages.{
  granted, granted-IsGranted, loopback, info_msg, info_body, info_msg-IsMsg,
}

-- Port 10001 is taken; on this host its sin_port is 10001.
abbrev pub system : Sockets
system = record { open_fds = []; bound = []; listening = []; datagrams = []; busy = 10001 ∷ [] }

opened_held_example :
    ((rc : ℤ) × (w' : Sockets) × (skrum_init_msg_engine sample loopback system ≡ (rc, w'))
      × (Bound sample loopback.sin_port rc system w' ⊎ Failed sample loopback rc system w'))
    × ((rc : ℤ) × (v' : Sockets) × (skrum_open_msg_conn sample loopback system ≡ (rc, v'))
        × (((rc ≡ minus_one) × (v'.open_fds ≡ []))
            ⊎ (fd : ℕ) × (rc ≡ pos fd) × (v'.open_fds ≡ fd ∷ [])))
opened_held_example = opened_held sample loopback loopback system system

send_discovery_datagram_example :
    (rc : ℤ) × (w' : Sockets) × (skrum_send_discovery_msg sample little granted info_msg system
      ≡ ok (rc, w'))
    × (w'.open_fds ≡ [])
    × (((rc ≡ minus_one) × (w'.datagrams ≡ []))
        ⊎ (n : ℕ) × (rc ≡ pos n)
          × (w'.datagrams ≡ (discovery_addr little, wire_msg info_msg info_body) ∷ []))
send_discovery_datagram_example =
    send_discovery_datagram sample little granted info_msg info_body system granted-IsGranted
      info_msg-IsMsg

receive_discovery_datagram_example :
    skrum_receive_discovery_msg big granted 3
      (replicate 512 170)
      (some (wire_msg info_msg info_body))
      skrum_msg_t_init
    ≡ ok (
      0,
      record skrum_msg_t_init {
        msg_type = info_msg.msg_type;
        orig_addr = info_msg.orig_addr;
        data_ptr = to info_body;
      },
    )
receive_discovery_datagram_example =
    receive_discovery_datagram big granted 3 (replicate 512 170) info_msg skrum_msg_t_init info_body
      granted-IsGranted info_msg-IsMsg refl refl
