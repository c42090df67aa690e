-- ===== src/Deamon/Service.antt =====
-- src/skrumd/skrumd.c: `_service_connection`, for a daemon. Unlike the controller's it does not close
-- the descriptor.
use deamon.Common.{
  ℕ, ◌≡◌, refl, sym, ◌∙◌, Bool, true, false, some, List, ◌++◌, ==_ne, if◌then◌else◌,
}
use deamon.Common.Int.{ℤ, pos, is_neg}
use deamon.Common.Outcome.{Outcome, ok, ◌>>=◌}
use deamon.Host.{Endian}
use deamon.Buf.{Malloc}
use deamon.Protocol.{
  SkrumMsg, Body, mcast_controller_info, skrum_msg_t_init, skrum_free_msg_members,
}
use deamon.Protocol.Wire.{IsMsg, type_of}
use deamon.Protocol.Free.{free_typed}
use deamon.Socket.{Conn}
use deamon.Socket.Frame.{IsPrompt}
use deamon.Api.{RecvMalloc, skrum_receive_msg}
use deamon.Api.Send.{frame}
use deamon.Api.Receive.{IsAllGranted, received, receive_frame}
use deamon.Deamon.{Conf, skrumd_req}

-- What the thread leaves behind: the configuration, the two sockets, and whether it closed the
-- descriptor of its connection and took itself off the count of active threads.
pub record ServedByDeamon (c d : Conn) : Type 0 where
  pub conf : Conf
  pub socket : c.State
  pub controller : d.State
  pub closed : Bool
  pub counted_down : Bool

-- `c` is the connection that was accepted; `d` and `cfd` are the connection to the controller that
-- the handler may open.
unfoldable pub service_deamon_connection :
    (c d : Conn) (e : Endian)
    → RecvMalloc
    → Malloc
    → RecvMalloc
    → ℕ
    → SkrumMsg
    → ℕ
    → ℤ
    → Conf
    → c.State
    → d.State
    → Outcome (ServedByDeamon c d)
unfolding skrumd_req
service_deamon_connection c d e rm ma rm' junk stack fd cfd conf t u =
    skrum_receive_msg c e rm junk (pos fd) skrum_msg_t_init t >>= λ r.
    if is_neg (pos r.0)
    then ok
        (record { conf = conf; socket = r.2; controller = u; closed = false; counted_down = false })
    else (skrumd_req d e ma rm' junk stack cfd r.1 conf u >>= λ q.
        skrum_free_msg_members (some r.1) >>= λ _. ok (record {
          conf = q.0;
          socket = r.2;
          controller = q.1;
          closed = false;
          counted_down = true;
        }))

-- The other types are not for the daemon.
skrumd_req_ignored :
    (d : Conn) (e : Endian) (ma : Malloc) (rm : RecvMalloc) (junk : ℕ) (stack : SkrumMsg) (cfd : ℤ)
    → (msg : SkrumMsg) (conf : Conf) (u : d.State) → (msg.msg_type ≡ mcast_controller_info → ⊥)
    → skrumd_req d e ma rm junk stack cfd msg conf u ≡ ok (conf, u, false)
unfolding skrumd_req
skrumd_req_ignored d e ma rm junk stack cfd msg conf u h =
    rw (==_ne msg.msg_type mcast_controller_info h)

-- A prompt connection that brings a well-formed message other than the controller's multicast, with
-- memory granted, is served to its end and changes nothing: the configuration and the connection
-- to the controller are as before. The thread counts itself down, and the descriptor stays open.
pub service_deamon_connection_ignored :
    (c d : Conn) (e : Endian)
    → IsPrompt c e
    → (rm : RecvMalloc) (ma : Malloc) (rm' : RecvMalloc) (junk : ℕ) (stack : SkrumMsg)
    → (fd : ℕ) (cfd : ℤ) (conf : Conf) (m : SkrumMsg) (body : Body) (rest : List ℕ)
    → (t : c.State) (u : d.State) → IsAllGranted rm
    → IsMsg m body
    → (type_of body ≡ mcast_controller_info → ⊥)
    → c.incoming t ≡ frame m body ++ rest
    → (t' : c.State) × (service_deamon_connection c d e rm ma rm' junk stack fd cfd conf t u
        ≡ ok (record {
          conf = conf;
          socket = t';
          controller = u;
          closed = false;
          counted_down = true;
        }))
      × (c.incoming t' ≡ rest)
unfolding service_deamon_connection
service_deamon_connection_ignored c d e prompt rm ma rm' junk stack fd cfd conf m body rest t u g wf
      other q =
    let (t', got, left, _) =
      receive_frame c e prompt rm junk (pos fd) skrum_msg_t_init m body rest t g wf refl q in
    (
      t',
      rw (
        got,
        skrumd_req_ignored d e ma rm' junk stack cfd (received (pos fd) skrum_msg_t_init m body)
            conf u (λ h. other (sym wf.typed ∙ h)),
        free_typed (received (pos fd) skrum_msg_t_init m body) body wf.typed refl,
      ),
      left,
    )
