-- ===== src/Deamon/Register.antt =====
-- A multicast from a controller that has started anew makes the daemon register with it.
use deamon.Common.{
  ==_ne, ℕ, ◌+◌, ◌^◌, ◌<◌, ◌≡◌, ◌⊎◌, inl, inr, refl, ap, ◌∙◌, true, false, List, ◌++◌, arith,
  length, ◌||◌,
}
use deamon.Common.Int.{ℤ, pos, minus_one, is_neg, eq_ℤ}
use deamon.Common.Outcome.{ok, fault, indeterminate}
use deamon.Host.{Endian}
use deamon.Buf.{Malloc}
use deamon.Buf.Alloc.{IsGranted}
use deamon.Protocol.{
  SkrumMsg, to, wild, controller_info, request_register, response_register, ControllerInfoMsg,
  skrum_free_msg_members,
}
use deamon.Protocol.Wire.{IsMsg}
use deamon.Socket.{Conn}
use deamon.Socket.Frame.{IsPrompt}
use deamon.Api.{RecvMalloc, skrum_send_msg, skrum_send_recv_msg}
use deamon.Api.Send.{frame, send_msg_frame}
use deamon.Api.Receive.{IsAllGranted, receive_frame}
use deamon.Deamon.{Conf, register_request, controller_set, send_register, process_ctrlr_mcast}

pub request-IsMsg :
    (conf : Conf)
    → conf.port < 2 ^ 16
    → IsMsg (register_request conf) (request_register (record { my_port = conf.port }))
request-IsMsg conf h = record {
  points = refl;
  typed = refl;
  addr = record { family = omega arith; port = omega arith; addr = omega arith; zero_size = refl };
  range = h;
  size = omega arith;
}

is_open : (k : ℕ) → (is_neg (pos (k + 1)) || eq_ℤ (pos (k + 1)) (pos 0)) ≡ false
is_open k = ==_ne (k + 1) 0 (λ h. omega (arith, h))

module _ (c : Conn) (e : Endian) (ma : Malloc) (rm : RecvMalloc) (junk : ℕ) (stack : SkrumMsg)
    (msg : SkrumMsg) (dmsg : ControllerInfoMsg) (conf : Conf)
    (changed : conf.ctrlr_ts ≡ dmsg.ctrlr_startup_ts → ⊥)
    (points : msg.data_ptr ≡ to (controller_info dmsg)) where
  open c use {State, incoming, outgoing}

  -- The multicast of a new controller leads to the registration.
  to_register :
      (fd : ℤ) (s : State)
      → process_ctrlr_mcast c e ma rm junk stack fd msg conf s
        ≡ send_register c e ma rm junk stack fd dmsg.ctrlr_startup_ts
            (controller_set msg dmsg conf)
            s
  unfolding process_ctrlr_mcast
  to_register fd s = rw (points, ==_ne conf.ctrlr_ts dmsg.ctrlr_startup_ts changed)

  -- A multicast with a new start time when the connection cannot be opened, so that the descriptor is
  -- not positive: the daemon reads through the pointer of the answer, which was not set.
  pub register_unreachable :
      stack.data_ptr ≡ wild
      → (fd : ℤ) (s : State) → (is_neg fd || eq_ℤ fd (pos 0)) ≡ true
      → process_ctrlr_mcast c e ma rm junk stack fd msg conf s ≡ fault indeterminate
  unfolding send_register skrum_send_recv_msg
  register_unreachable w fd s closed = to_register fd s ∙ go
    where
      go :
          send_register c e ma rm junk stack fd dmsg.ctrlr_startup_ts
            (controller_set msg dmsg conf)
            s
          ≡ fault indeterminate
      go = rw (closed, w)

  -- The request cannot be sent.
  pub register_unsent :
      stack.data_ptr ≡ wild
      → (k : ℕ) (s t : State) → skrum_send_msg c e ma (register_request conf) s ≡ ok (minus_one, t)
      → process_ctrlr_mcast c e ma rm junk stack (pos (k + 1)) msg conf s ≡ fault indeterminate
  unfolding send_register skrum_send_recv_msg
  register_unsent w k s t sent = to_register (pos (k + 1)) s ∙ rw (is_open k, sent, w)

  -- A multicast with a new start time, an open connection that delivers promptly, memory granted and
  -- the pointer of the answer's structure not set: if the controller's answer is on the connection
  -- once the request has been sent, the call returns 0, and the daemon has taken over the id in the
  -- answer with the controller's address, port and start time; if the request cannot be sent, the
  -- daemon reads through the pointer that was not set.
  pub register_answered :
      stack.data_ptr ≡ wild
      → length stack.orig_addr.sin_zero ≡ 8
      → conf.port < 2 ^ 16
      → IsGranted ma
      → IsAllGranted rm
      → IsPrompt c e
      → (k : ℕ) (s : State) (m : SkrumMsg) (id : ℕ) (r : List ℕ)
      → IsMsg m (response_register (record { my_id = id }))
      → ((j : ℕ) (t : State)
          → skrum_send_msg c e ma (register_request conf) s ≡ ok (pos j, t)
          → incoming t ≡ frame m (response_register (record { my_id = id })) ++ r)
      → ((t : State) × (skrum_send_msg c e ma (register_request conf) s ≡ ok (minus_one, t))
          × (process_ctrlr_mcast c e ma rm junk stack (pos (k + 1)) msg conf s
              ≡ fault indeterminate))
        ⊎ (s' : State) × (process_ctrlr_mcast c e ma rm junk stack (pos (k + 1)) msg conf s
            ≡ ok (
              pos 0,
              record conf {
                controller_ip = msg.orig_addr;
                cont_port = dmsg.ctrlr_port;
                ctrlr_ts = dmsg.ctrlr_startup_ts;
                cluster_id = id;
              },
              s',
              false,
            ))
          × (incoming s' ≡ r)
  unfolding send_register skrum_send_recv_msg skrum_free_msg_members
  register_answered w len hp g1 g2 prompt k s m id r wf answer =
      let (rc, t, sent, done) =
        send_msg_frame c e ma (register_request conf)
          (request_register (record { my_port = conf.port })) s g1 (request-IsMsg conf hp) in
      go rc t sent done
    where
      Answered : Type 0
      Answered =
          ((t : State) × (skrum_send_msg c e ma (register_request conf) s ≡ ok (minus_one, t))
            × (process_ctrlr_mcast c e ma rm junk stack (pos (k + 1)) msg conf s
                ≡ fault indeterminate))
          ⊎ (s' : State) × (process_ctrlr_mcast c e ma rm junk stack (pos (k + 1)) msg conf s
              ≡ ok (
                pos 0,
                record conf {
                  controller_ip = msg.orig_addr;
                  cont_port = dmsg.ctrlr_port;
                  ctrlr_ts = dmsg.ctrlr_startup_ts;
                  cluster_id = id;
                },
                s',
                false,
              ))
            × (incoming s' ≡ r)

      go :
          (rc : ℤ) (t : State)
          → skrum_send_msg c e ma (register_request conf) s ≡ ok (rc, t)
          → (rc ≡ minus_one)
            ⊎ (j : ℕ) × (rc ≡ pos j)
              × (outgoing t
                  ≡ outgoing s
                    ++ frame
                        (register_request conf)
                        (request_register (record { my_port = conf.port })))
          → Answered
      go rc t sent (inl p) =
          inl (
            t,
            sent ∙ ap (λ x. ok (x, t)) p,
            register_unsent w k s t (sent ∙ ap (λ x. ok (x, t)) p),
          )
      go rc t sent (inr (j, p, o)) =
          let (s', q, left, _) =
            receive_frame c e prompt rm junk (pos (k + 1)) stack m
              (response_register (record { my_id = id })) r t g2 wf len
              (answer j t (sent ∙ ap (λ x. ok (x, t)) p)) in
          inr (s', to_register (pos (k + 1)) s ∙ rw (is_open k, sent, p, q, wf.typed), left)
