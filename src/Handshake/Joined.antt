-- ===== src/Handshake/Joined.antt =====
-- Both ends of a registration.
use deamon.Common.{ℕ, ◌≡◌, ◌⊎◌, inl, inr, sym, ap, ◌∙◌, false, List, [], ◌++◌, append-nil, arith}
use deamon.Common.Int.{pos, minus_one}
use deamon.Common.Outcome.{ok, fault, indeterminate}
use deamon.Protocol.{Body, request_register}
use deamon.Api.Send.{frame, send_msg_frame}
use deamon.Controller.{Cluster}
use deamon.Controller.Registry.{Cell, IsRegistry}
use deamon.Controller.Register.{response, response-IsMsg}
use deamon.Controller.Service.{Serviced}
use deamon.Deamon.{register_request}
use deamon.Deamon.Register.{request-IsMsg, register_unsent, register_answered}
use deamon.Handshake.{
  Server, Client, serve, id_for, answer_for, joined, Unanswered, RequestSent, heard, IsLinked,
  registered,
}
use deamon.Handshake.Served.{served}

module _ (d : Client) (k : Server) where
  open k use {lib}

  -- A daemon that hears of a new controller and the controller, on hosts of either byte order and
  -- with a connection between them that loses nothing. Either the daemon cannot send its request
  -- and reads through a wild pointer; or the controller serves the request to the end and has the
  -- node at the end of its list, and then either it cannot send its answer, or the daemon has
  -- taken over the data of the controller and the id that the node has in the list.
  pub handshake :
      (fd : ℕ) (s : d.conn.State) (s0 : Cluster lib) (cs : List Cell) (t : k.conn.State)
      → IsLinked d k s s0 t
      → IsRegistry lib s0 cs
      → ((s1 : d.conn.State) × RequestSent d k s minus_one s1
          × (heard d k fd s ≡ fault indeterminate))
        ⊎ (v : Serviced lib k.conn) × (serve k s0 t ≡ ok v)
          × IsRegistry lib v.cluster (joined k d.conf s0 cs)
          × (Unanswered k s0 t
              ⊎ (s2 : d.conn.State) × (heard d k fd s ≡ ok (pos 0, registered d k s0, s2, false)))
  handshake fd s s0 cs t link r =
      let (rc, s1, sent, done) =
        send_msg_frame d.conn d.endian d.malloc (register_request d.conf) req s d.granted
          (request-IsMsg d.conf d.port) in
      elim done [
        | inl p ↦ unsent s1 (sent ∙ ap (λ x. ok (x, s1)) p)
        | inr (j, p, o) ↦ arrived j s1 (sent ∙ ap (λ x. ok (x, s1)) p) o
      ]
    where
      req : Body
      req = request_register (record { my_port = d.conf.port })

      End : Type 0
      End =
          ((s1 : d.conn.State) × RequestSent d k s minus_one s1
            × (heard d k fd s ≡ fault indeterminate))
          ⊎ (v : Serviced lib k.conn) × (serve k s0 t ≡ ok v)
            × IsRegistry lib v.cluster (joined k d.conf s0 cs)
            × (Unanswered k s0 t
                ⊎ (s2 : d.conn.State) × (heard d k fd s ≡ ok (pos 0, registered d k s0, s2, false)))

      unsent : (s1 : d.conn.State) → RequestSent d k s minus_one s1 → End
      unsent s1 q = inl (
        s1,
        q,
        register_unsent d.conn d.endian d.malloc d.recv_malloc d.junk d.stack d.msg d.dmsg d.conf
            d.changed d.points d.unset fd s s1 q,
      )

      -- The answer is on the connection.
      answered :
          (v : Serviced lib k.conn)
          → serve k s0 t ≡ ok v
          → IsRegistry lib v.cluster (joined k d.conf s0 cs)
          → k.conn.outgoing v.socket ≡ k.conn.outgoing t ++ answer_for k s0
          → End
      answered v run r2 o =
          elim (register_answered d.conn d.endian d.malloc d.recv_malloc d.junk d.stack d.msg d.dmsg
            d.conf d.changed d.points d.unset d.sized d.port d.granted d.recv_granted d.prompt fd s
            (response k.junk k.ip (id_for k s0)) (id_for k s0) []
            (response-IsMsg k.junk k.ip (id_for k s0) k.addr (omega arith) k.size)
            (λ j s1 q.
              link.back j s1 v (answer_for k s0) q run o ∙ sym (append-nil (answer_for k s0)))) [
                | inl (s1, q, lost) ↦ inl (s1, q, lost)
                | inr (s2, taken, left) ↦ inr (v, run, r2, inr (s2, taken))
              ]

      arrived :
          (j : ℕ) (s1 : d.conn.State)
          → RequestSent d k s (pos j) s1
          → d.conn.outgoing s1 ≡ d.conn.outgoing s ++ frame (register_request d.conf) req
          → End
      arrived j s1 q o =
          let (v, run, r2, answer) =
            served k d.conf s0 cs t d.port
              (link.forth j s1 (frame (register_request d.conf) req) q o) r in
          elim answer [ inl u ↦ inr (v, run, r2, inl u) | inr o2 ↦ answered v run r2 o2 ]
