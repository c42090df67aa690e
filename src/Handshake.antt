-- ===== src/Handshake.antt =====
-- The registration of a daemon with the controller, from both ends: `_process_ctrlr_mcast` of
-- src/skrumd/skrumd_req.c, and `_service_connection` of src/skrumctld/skrumctld.c with `_req_register`
-- of src/skrumctld/skrumctld_req.c. What TCP does between the two is a hypothesis.
pub mod Served
pub mod Joined
use deamon.Common.{
  ℕ, ◌+◌, ◌%◌, ◌^◌, ◌<◌, ◌≡◌, ◌⊎◌, inl, inr, refl, sym, ap, ◌∙◌, Bool, true, false, List, [], ◌∷◌,
  ◌++◌, append-nil, length, arith, ltb,
}
use deamon.Common.Int.{ℤ, pos, minus_one}
use deamon.Common.Outcome.{Outcome, ok, fault, indeterminate}
use deamon.Host.{Endian}
use deamon.Buf.{Malloc, Sockaddr}
use deamon.Buf.Alloc.{IsGranted}
use deamon.Buf.Write.{IsSockaddr}
use deamon.Protocol.{
  SkrumMsg, Body, to, wild, controller_info, request_register, response_register, ControllerInfoMsg,
  RequestRegisterMsg, skrum_msg_t_init, skrum_free_msg_members,
}
use deamon.Protocol.Wire.{IsMsg}
use deamon.Socket.{Conn}
use deamon.Socket.Frame.{IsPrompt}
use deamon.Api.{RecvMalloc, skrum_send_msg, skrum_receive_msg}
use deamon.Api.Send.{frame, send_msg_frame}
use deamon.Api.Receive.{IsAllGranted, received, receive_frame}
use deamon.Nodes.{ListLib}
use deamon.Controller.{Cluster, req_register}
use deamon.Controller.Registry.{Cell, IsRegistry}
use deamon.Controller.Register.{new_node, response, response-IsMsg, req_register-IsRegistry}
use deamon.Controller.Service.{Serviced, service_connection, dispatch_register}
use deamon.Deamon.{Conf, register_request, process_ctrlr_mcast}
use deamon.Deamon.Register.{request-IsMsg, register_unsent, register_answered}

-- The controller, with what it calls granted.
pub record Server : Type 1 where
  pub lib : ListLib
  pub conn : Conn
  pub endian : Endian
  pub recv_malloc : RecvMalloc
  pub malloc : Malloc
  pub junk_addr : ℕ
  pub junk : SkrumMsg
  pub ip : Sockaddr
  pub now : ℕ
  pub fd : ℕ
  pub prompt : IsPrompt conn endian
  pub recv_granted : IsAllGranted recv_malloc
  pub granted : IsGranted malloc
  pub addr : IsSockaddr ip
  pub size : junk.data_size < 2 ^ 32

module _ (k : Server) where
  open k use {lib, conn, endian, recv_malloc, malloc, junk_addr, junk, ip, now, fd}

  -- One connection.
  abbrev pub serve : Cluster lib → conn.State → Outcome (Serviced lib conn)
  serve s t = service_connection lib conn endian recv_malloc malloc junk_addr junk ip now fd s t

  abbrev pub id_for : Cluster lib → ℕ
  id_for s = (s.node_cnt + 1) % 2 ^ 16

  abbrev pub answer_for : Cluster lib → List ℕ
  answer_for s =
      frame (response junk ip (id_for s)) (response_register (record { my_id = id_for s }))

  -- The controller could not send its answer.
  abbrev pub Unanswered : Cluster lib → conn.State → Type 0
  Unanswered s t =
      (m : SkrumMsg) × (t1 : conn.State) × (s2 : Cluster lib) × (t2 : conn.State)
      × (skrum_receive_msg conn endian recv_malloc junk_addr (pos fd) skrum_msg_t_init t
          ≡ ok (0, m, t1))
      × (req_register lib conn endian malloc junk ip now m s t1 ≡ ok (minus_one, s2, t2))

  -- The list with the new node.
  abbrev pub joined : Conf → Cluster lib → List Cell → List Cell
  joined conf s cs =
      cs ++ ((s.fresh, new_node now (record { my_port = conf.port }) s.node_cnt) ∷ [])

-- A daemon that has heard of a new controller, with what it calls granted.
pub record Client : Type 1 where
  pub conn : Conn
  pub endian : Endian
  pub malloc : Malloc
  pub recv_malloc : RecvMalloc
  pub junk : ℕ
  pub stack : SkrumMsg
  pub msg : SkrumMsg
  pub dmsg : ControllerInfoMsg
  pub conf : Conf
  pub prompt : IsPrompt conn endian
  pub granted : IsGranted malloc
  pub recv_granted : IsAllGranted recv_malloc
  pub changed : conf.ctrlr_ts ≡ dmsg.ctrlr_startup_ts → ⊥
  pub points : msg.data_ptr ≡ to (controller_info dmsg)
  pub unset : stack.data_ptr ≡ wild
  pub sized : length stack.orig_addr.sin_zero ≡ 8
  pub port : conf.port < 2 ^ 16

module _ (d : Client) (k : Server) where
  open k use {lib}

  abbrev pub RequestSent : d.conn.State → ℤ → d.conn.State → Type 0
  RequestSent s rc s1 =
      skrum_send_msg d.conn d.endian d.malloc (register_request d.conf) s ≡ ok (rc, s1)

  -- The daemon's `_process_ctrlr_mcast` on the descriptor `fd + 1`.
  abbrev pub heard : ℕ → d.conn.State → Outcome (ℤ × Conf × d.conn.State × Bool)
  heard fd s =
      process_ctrlr_mcast d.conn d.endian d.malloc d.recv_malloc d.junk d.stack (pos (fd + 1)) d.msg
        d.conf s

  -- TCP delivers in order, unchanged and without loss: what the daemon sends is what comes in at the
  -- controller, and what the controller sends is what comes in at the daemon after that.
  pub record IsLinked (s : d.conn.State) (s0 : Cluster lib) (t : k.conn.State) : Type 0 where
    pub forth :
        (j : ℕ) (s1 : d.conn.State) (bs : List ℕ)
        → RequestSent s (pos j) s1
        → d.conn.outgoing s1 ≡ d.conn.outgoing s ++ bs
        → k.conn.incoming t ≡ bs
    pub back :
        (j : ℕ) (s1 : d.conn.State) (v : Serviced lib k.conn) (bs : List ℕ)
        → RequestSent s (pos j) s1
        → serve k s0 t ≡ ok v
        → k.conn.outgoing v.socket ≡ k.conn.outgoing t ++ bs
        → d.conn.incoming s1 ≡ bs

  -- What the daemon has taken over.
  abbrev pub registered : Cluster lib → Conf
  registered s0 = record d.conf {
    controller_ip = d.msg.orig_addr;
    cont_port = d.dmsg.ctrlr_port;
    ctrlr_ts = d.dmsg.ctrlr_startup_ts;
    cluster_id = id_for k s0;
  }
