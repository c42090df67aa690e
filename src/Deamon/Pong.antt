-- ===== src/Deamon/Pong.antt =====
-- A multicast from the controller that the daemon knows is answered by a pong.
use deamon.Common.{
  ◌∙◌, ap, ==_is, ℕ, ◌^◌, ◌<◌, ◌≡◌, ◌⊎◌, inl, inr, refl, true, ◌++◌, arith, if◌then◌else◌,
}
use deamon.Common.Int.{ℤ, pos, minus_one, is_neg}
use deamon.Common.Outcome.{ok}
use deamon.Host.{Endian}
use deamon.Buf.{Malloc}
use deamon.Buf.Alloc.{IsGranted}
use deamon.Protocol.{SkrumMsg, to, controller_info, deamon_pong, ControllerInfoMsg}
use deamon.Protocol.Wire.{IsMsg}
use deamon.Socket.{Conn}
use deamon.Api.{RecvMalloc, skrum_send_msg}
use deamon.Api.Send.{frame, send_msg_frame}
use deamon.Deamon.{Conf, pong_message, send_pong, process_ctrlr_mcast}

pub pong-IsMsg :
    (conf : Conf)
    → conf.cluster_id < 2 ^ 16
    → IsMsg (pong_message conf) (deamon_pong (record { my_id = conf.cluster_id }))
pong-IsMsg conf h = record {
  points = refl;
  typed = refl;
  addr = record { family = omega arith; port = omega arith; addr = omega arith; zero_size = refl };
  range = h;
  size = omega arith;
}

-- The daemon's pong to a controller whose start time it knows, with memory granted and an open
-- connection: the call returns 0 with one frame with the daemon's id on the stream, or it returns
-- -1 because `skrum_send_msg` has. It takes over the controller's address and port alone, and the
-- descriptor is left open.
pub process_mcast_pong :
    (c : Conn) (e : Endian) (ma : Malloc) (rm : RecvMalloc) (junk : ℕ) (stack : SkrumMsg)
    → (msg : SkrumMsg) (dmsg : ControllerInfoMsg) (conf : Conf) (k : ℕ) (s : c.State)
    → conf.ctrlr_ts ≡ dmsg.ctrlr_startup_ts
    → msg.data_ptr ≡ to (controller_info dmsg)
    → conf.cluster_id < 2 ^ 16
    → IsGranted ma
    → (rc : ℤ) × (s' : c.State) × (process_ctrlr_mcast c e ma rm junk stack (pos k) msg conf s
        ≡ ok (
          rc,
          record conf { controller_ip = msg.orig_addr; cont_port = dmsg.ctrlr_port },
          s',
          true,
        ))
      × (((rc ≡ minus_one) × (skrum_send_msg c e ma (pong_message conf) s ≡ ok (minus_one, s')))
          ⊎ (rc ≡ pos 0)
            × (c.outgoing s'
                ≡ c.outgoing s
                  ++ frame (pong_message conf) (deamon_pong (record { my_id = conf.cluster_id }))))
unfolding process_ctrlr_mcast send_pong
process_mcast_pong c e ma rm junk stack msg dmsg conf k s same points small g =
    let (rc, t, sent, done) =
      send_msg_frame c e ma (pong_message conf) (deamon_pong (record { my_id = conf.cluster_id })) s
        g (pong-IsMsg conf small) in
    (if is_neg rc then minus_one else pos 0, t, run rc t sent, told rc t sent done)
  where
    run :
        (rc : ℤ) (t : c.State)
        → skrum_send_msg c e ma (pong_message conf) s ≡ ok (rc, t)
        → process_ctrlr_mcast c e ma rm junk stack (pos k) msg conf s
          ≡ ok (
            if is_neg rc then minus_one else pos 0,
            record conf { controller_ip = msg.orig_addr; cont_port = dmsg.ctrlr_port },
            t,
            true,
          )
    run rc t sent = rw (points, ==_is conf.ctrlr_ts dmsg.ctrlr_startup_ts same, sent)

    Framed : c.State → Type 0
    Framed t =
        c.outgoing t
        ≡ c.outgoing s
          ++ frame (pong_message conf) (deamon_pong (record { my_id = conf.cluster_id }))

    told :
        (rc : ℤ) (t : c.State)
        → skrum_send_msg c e ma (pong_message conf) s ≡ ok (rc, t)
        → (rc ≡ minus_one) ⊎ (j : ℕ) × (rc ≡ pos j) × Framed t
        → (((if is_neg rc then minus_one else pos 0) ≡ minus_one)
            × (skrum_send_msg c e ma (pong_message conf) s ≡ ok (minus_one, t)))
          ⊎ ((if is_neg rc then minus_one else pos 0) ≡ pos 0) × Framed t
    told rc t sent (inl p) = inl (rw p, sent ∙ ap (λ x. ok (x, t)) p)
    told rc t sent (inr (j, p, o)) = inr (rw p, o)
