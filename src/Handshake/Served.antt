-- ===== src/Handshake/Served.antt =====
-- The controller's end of a registration.
use deamon.Common.{
  ◌^◌, ◌<◌, ◌≡◌, ◌⊎◌, inl, inr, refl, sym, ap, ◌∙◌, true, List, [], ◌++◌, append-nil, ltb,
}
use deamon.Common.Int.{pos}
use deamon.Common.Outcome.{ok}
use deamon.Protocol.{
  SkrumMsg, request_register, RequestRegisterMsg, skrum_msg_t_init, skrum_free_msg_members,
}
use deamon.Protocol.Wire.{IsMsg}
use deamon.Api.Send.{frame}
use deamon.Api.Receive.{received, receive_frame}
use deamon.Controller.{Cluster}
use deamon.Controller.Registry.{Cell, IsRegistry}
use deamon.Controller.Register.{req_register-IsRegistry}
use deamon.Controller.Service.{Serviced, service_connection, dispatch_register}
use deamon.Deamon.{Conf, register_request}
use deamon.Deamon.Register.{request-IsMsg}
use deamon.Handshake.{Server, serve, answer_for, joined, Unanswered}

module _ (k : Server) where
  open k use {lib, conn, endian, recv_malloc, malloc, junk_addr, junk, ip, now, fd}

  -- A registration that has arrived is served, and answered unless sending fails.
  pub served :
      (conf : Conf) (s : Cluster lib) (cs : List Cell) (t : conn.State)
      → conf.port < 2 ^ 16
      → conn.incoming t
        ≡ frame (register_request conf) (request_register (record { my_port = conf.port }))
      → IsRegistry lib s cs
      → (v : Serviced lib conn) × (serve k s t ≡ ok v)
        × IsRegistry lib v.cluster (joined k conf s cs)
        × (Unanswered k s t ⊎ (conn.outgoing v.socket ≡ conn.outgoing t ++ answer_for k s))
  unfolding service_connection
  served conf s cs t hp q r =
      let (t1, got, _, kept) =
        receive_frame conn endian k.prompt recv_malloc junk_addr (pos fd) skrum_msg_t_init
          (register_request conf) (request_register req) [] t k.recv_granted wf refl
          (q ∙ sym (append-nil (frame (register_request conf) (request_register req)))) in
      let (rc, s2, t2, run, r2, sent) =
        req_register-IsRegistry lib conn endian malloc junk ip now m req s cs t1 k.granted k.addr
          k.size refl r in
      (
        record { cluster = s2; socket = t2; closed = ltb 0 fd; counted_down = true },
        rw (
          got,
          dispatch_register lib conn endian malloc junk ip k.granted k.addr k.size now m s t1 refl,
          run,
          skrum_free_msg_members,
        ),
        r2,
        elim sent [
          | inl p ↦ inl (m, t1, s2, t2, got, run ∙ ap (λ x. ok (x, s2, t2)) p)
          | inr (j, p, o) ↦ inr (o ∙ ap (λ x. x ++ answer_for k s) kept)
        ],
      )
    where
      req : RequestRegisterMsg
      req = record { my_port = conf.port }

      wf : IsMsg (register_request conf) (request_register req)
      wf = request-IsMsg conf hp

      m : SkrumMsg
      m = received (pos fd) skrum_msg_t_init (register_request conf) (request_register req)
