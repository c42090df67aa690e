-- ===== src/Deamon/Discovery.antt =====
-- src/skrumd/skrumd.c: one round of `_discovery_engine`.
use deamon.Common.{
  ==_is, ℕ, ◌^◌, ◌<◌, ◌≡◌, ◌⊎◌, inl, inr, refl, Bool, true, false, Option, some, List, ◌++◌, length,
  ◌==◌, if◌then◌else◌,
}
use deamon.Common.Int.{ℤ, pos, minus_one}
use deamon.Common.Outcome.{Outcome, ok, ◌>>=◌}
use deamon.Host.{Endian}
use deamon.Buf.{Malloc}
use deamon.Buf.Alloc.{IsGranted}
use deamon.Protocol.{
  SkrumMsg, to, controller_info, deamon_pong, ControllerInfoMsg, mcast_controller_info,
  skrum_free_msg_members,
}
use deamon.Protocol.Wire.{IsMsg, wire_msg}
use deamon.Protocol.Free.{free_typed}
use deamon.Socket.{Conn}
use deamon.Api.{RecvMalloc, skrum_send_msg}
use deamon.Api.Send.{frame}
use deamon.Discovery.{skrum_receive_discovery_msg, udp_buf_size}
use deamon.Discovery.Datagram.{receive_discovery_datagram}
use deamon.Deamon.{Conf, skrumd_req, pong_message, process_ctrlr_mcast}
use deamon.Deamon.Pong.{process_mcast_pong}

-- `fresh` is the message as malloc gives it, `array` and `stack` are uninitialised, `fd` and `s`
-- the connection that `skrum_open_msg_conn` gives for the address of the controller. A message that is not understood is only logged.
unfoldable pub discovery_round :
    (c : Conn) (e : Endian)
    → Malloc
    → RecvMalloc
    → ℕ
    → SkrumMsg
    → List ℕ
    → SkrumMsg
    → ℤ
    → Option (List ℕ)
    → Conf
    → c.State
    → Outcome (Conf × c.State × Bool)
unfolding skrumd_req
discovery_round c e ma rm junk fresh array stack fd arrived conf s =
    skrum_receive_discovery_msg e ma junk array arrived fresh >>= λ r.
    if r.0 == 0
    then (skrumd_req c e ma rm junk stack fd r.1 conf s >>= λ q.
        skrum_free_msg_members (some r.1) >>= λ _. ok q)
    else ok (conf, s, false)

-- A round in which a controller message is received and handled.
round_handled :
    (c : Conn) (e : Endian) (ma : Malloc) (rm : RecvMalloc) (junk : ℕ) (fresh : SkrumMsg)
    → (array : List ℕ) (stack msg : SkrumMsg) (d : ControllerInfoMsg) (fd rc : ℤ)
    → (arrived : Option (List ℕ)) (conf conf' : Conf) (s s' : c.State) (left_open : Bool)
    → skrum_receive_discovery_msg e ma junk array arrived fresh ≡ ok (0, msg)
    → msg.msg_type ≡ mcast_controller_info
    → msg.data_ptr ≡ to (controller_info d)
    → process_ctrlr_mcast c e ma rm junk stack fd msg conf s ≡ ok (rc, conf', s', left_open)
    → discovery_round c e ma rm junk fresh array stack fd arrived conf s ≡ ok (conf', s', left_open)
unfolding discovery_round
round_handled c e ma rm junk fresh array stack msg d fd rc arrived conf conf' s s' left_open got q p
      run =
    rw
      (got, ==_is msg.msg_type mcast_controller_info q, run, free_typed msg (controller_info d) q p)

-- The well-formed multicast of a controller whose start time the daemon knows, as it arrives from a
-- host of either byte order, with memory granted and an open connection: the round returns with the
-- controller's address and port in the configuration, and either `skrum_send_msg` has returned -1 or
-- a pong with the daemon's id stands on the connection.
pub discovery_round-pong :
    (c : Conn) (e : Endian) (ma : Malloc) (rm : RecvMalloc) (junk : ℕ) (fresh : SkrumMsg)
    → (array : List ℕ) (stack m : SkrumMsg) (d : ControllerInfoMsg) (k : ℕ) (conf : Conf)
    → (s : c.State) → IsGranted ma
    → IsMsg m (controller_info d)
    → length array ≡ udp_buf_size
    → length fresh.orig_addr.sin_zero ≡ 8
    → conf.ctrlr_ts ≡ d.ctrlr_startup_ts
    → conf.cluster_id < 2 ^ 16
    → (s' : c.State) × (discovery_round c e ma rm junk fresh array stack
          (pos k)
          (some (wire_msg m (controller_info d)))
          conf
          s
        ≡ ok (record conf { controller_ip = m.orig_addr; cont_port = d.ctrlr_port }, s', true))
      × ((skrum_send_msg c e ma (pong_message conf) s ≡ ok (minus_one, s'))
          ⊎ (c.outgoing s'
              ≡ c.outgoing s
                ++ frame (pong_message conf) (deamon_pong (record { my_id = conf.cluster_id }))))
discovery_round-pong c e ma rm junk fresh array stack m d k conf s g wf size len same small =
    let (rc, s', run, done) =
      process_mcast_pong c e ma rm junk stack msg d conf k s same refl small g in
    (
      s',
      round_handled c e ma rm junk fresh array stack msg d (pos k) rc _ conf _ s s' true
          (receive_discovery_datagram e ma junk array m fresh (controller_info d) g wf size len)
          wf.typed refl run,
      elim done [ inl p ↦ inl p.1 | inr q ↦ inr q.1 ],
    )
  where
    msg : SkrumMsg
    msg = record fresh {
      msg_type = m.msg_type;
      orig_addr = m.orig_addr;
      data_ptr = to (controller_info d);
    }
