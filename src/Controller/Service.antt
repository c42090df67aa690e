-- ===== src/Controller/Service.antt =====
-- src/skrumctld/skrumctld.c: `_service_connection`, from the bytes of one connection to the
-- change of the node list.
use deamon.Common.{
  ==_is, ℕ, ◌^◌, ◌<◌, ◌≡◌, refl, ◌∙◌, Bool, true, false, some, List, [], ◌∷◌, ◌++◌, arith, ltb,
  ◌==◌, if◌then◌else◌,
}
use deamon.Common.Int.{pos, is_neg}
use deamon.Common.Outcome.{Outcome, ok, ◌>>=◌}
use deamon.Host.{Endian}
use deamon.Buf.{Malloc, Sockaddr}
use deamon.Buf.Alloc.{IsGranted}
use deamon.Buf.Write.{IsSockaddr}
use deamon.Protocol.{
  SkrumMsg, Body, to, controller_info, request_register, response_register, deamon_pong,
  skrum_msg_t_init, skrum_free_msg_members, request_node_registration, response_pong,
}
use deamon.Protocol.Wire.{IsMsg, type_of}
use deamon.Protocol.Free.{free_typed}
use deamon.Socket.{Conn}
use deamon.Socket.Frame.{IsPrompt}
use deamon.Api.{RecvMalloc, skrum_receive_msg}
use deamon.Api.Send.{frame}
use deamon.Api.Receive.{IsAllGranted, received, receive_frame}
use deamon.Nodes.{ListLib}
use deamon.Controller.{Cluster, req_register, resp_pong, skrumctld_req}
use deamon.Controller.Registry.{Cell, IsRegistry, touch}
use deamon.Controller.Register.{new_node, req_register-IsRegistry}
use deamon.Controller.Pong.{resp_pong-touch}

-- What the thread leaves behind: the list, the socket, and whether it closed the descriptor and
-- took itself off the count of active threads.
pub record Serviced (lib : ListLib) (c : Conn) : Type 0 where
  pub cluster : Cluster lib
  pub socket : c.State
  pub closed : Bool
  pub counted_down : Bool

-- `junk_addr` is the uninitialised word of `unpack_sockaddr`, `junk` the stack below `resp_msg`.
unfoldable pub service_connection :
    (lib : ListLib) (c : Conn) (e : Endian)
    → RecvMalloc
    → Malloc
    → ℕ
    → SkrumMsg
    → Sockaddr
    → ℕ
    → ℕ
    → Cluster lib
    → c.State
    → Outcome (Serviced lib c)
unfolding skrumctld_req skrum_receive_msg skrum_free_msg_members
service_connection lib c e rm ma junk_addr junk ip now fd s t =
    skrum_receive_msg c e rm junk_addr (pos fd) skrum_msg_t_init t >>= λ r.
    if is_neg (pos r.0)
    then ok (record { cluster = s; socket = r.2; closed = false; counted_down = false })
    else (skrumctld_req lib c e ma junk ip now r.1 s r.2 >>= λ q.
        skrum_free_msg_members (some r.1) >>= λ _.
        ok (record { cluster = q.0; socket = q.1; closed = ltb 0 fd; counted_down = true }))

-- What a message is to do to the registered nodes, `fresh` and `cnt` being the next address and
-- the number of registrations so far.
abbrev pub applied : ℕ → ℕ → ℕ → Body → List Cell → List Cell
applied now fresh cnt (controller_info d) cs = cs
applied now fresh cnt (request_register d) cs = cs ++ ((fresh, new_node now d cnt) ∷ [])
applied now fresh cnt (response_register d) cs = cs
applied now fresh cnt (deamon_pong d) cs = touch now d.my_id cs

==_other : (a b c : ℕ) → a ≡ b → c < b → (a == c) ≡ false
==_other a b c h l = ground arith

module _ (lib : ListLib) (c : Conn) (e : Endian) (ma : Malloc) (junk : SkrumMsg) (ip : Sockaddr)
    (g : IsGranted ma) (addr : IsSockaddr ip) (size : junk.data_size < 2 ^ 32) where
  pub dispatch_register :
      (now : ℕ) (msg : SkrumMsg) (s : Cluster lib) (t : c.State)
      → msg.msg_type ≡ request_node_registration
      → skrumctld_req lib c e ma junk ip now msg s t
        ≡ (req_register lib c e ma junk ip now msg s t >>= λ r. ok (r.1, r.2))
  unfolding skrumctld_req
  dispatch_register now msg s t q = rw (==_is msg.msg_type request_node_registration q)

  dispatch_pong :
      (now : ℕ) (msg : SkrumMsg) (s : Cluster lib) (t : c.State)
      → msg.msg_type ≡ response_pong
      → skrumctld_req lib c e ma junk ip now msg s t
        ≡ (resp_pong lib now msg s >>= λ r. ok (r.1, t))
  unfolding skrumctld_req
  dispatch_pong now msg s t q = rw (
    ==_other msg.msg_type response_pong request_node_registration q (omega arith),
    ==_is msg.msg_type response_pong q,
  )

  -- The dispatch on the type of a message whose data has that type.
  pub skrumctld_req-applied :
      (now : ℕ) (msg : SkrumMsg) (body : Body) (s : Cluster lib) (cs : List Cell) (t : c.State)
      → msg.msg_type ≡ type_of body
      → msg.data_ptr ≡ to body
      → IsRegistry lib s cs
      → (s' : Cluster lib) × (t' : c.State) × (skrumctld_req lib c e ma junk ip now msg s t
          ≡ ok (s', t'))
        × IsRegistry lib s' (applied now s.fresh s.node_cnt body cs)
  unfolding skrumctld_req
  skrumctld_req-applied now msg (controller_info d) s cs t q p r = (s, t, rw q, r)
  skrumctld_req-applied now msg (request_register d) s cs t q p r =
      let (rc, s', t', run, r', _) =
        req_register-IsRegistry lib c e ma junk ip now msg d s cs t g addr size p r in
      (s', t', dispatch_register now msg s t q ∙ rw run, r')
  skrumctld_req-applied now msg (response_register d) s cs t q p r = (s, t, rw q, r)
  skrumctld_req-applied now msg (deamon_pong d) s cs t q p r =
      let (s', run, r', _) = resp_pong-touch lib now msg d s cs p r in
      (s', t, dispatch_pong now msg s t q ∙ rw run, r')

  -- A prompt connection that brings one well-formed message of any type, with memory granted, is served
  -- to its end: the list has changed as the message asks, the thread has counted itself down, and it
  -- has closed the descriptor unless that is 0.
  pub service_connection-applied :
      IsPrompt c e
      → (rm : RecvMalloc) (junk_addr now fd : ℕ) (m : SkrumMsg) (body : Body) (rest : List ℕ)
      → (s : Cluster lib) (cs : List Cell) (t : c.State) → IsAllGranted rm
      → IsMsg m body
      → c.incoming t ≡ frame m body ++ rest
      → IsRegistry lib s cs
      → (s' : Cluster lib) × (t' : c.State) × (service_connection lib c e rm ma junk_addr junk ip
            now fd s t
          ≡ ok (record { cluster = s'; socket = t'; closed = ltb 0 fd; counted_down = true }))
        × IsRegistry lib s' (applied now s.fresh s.node_cnt body cs)
  unfolding service_connection
  service_connection-applied prompt rm junk_addr now fd m body rest s cs t g2 wf q r =
      let (t1, got, _, _) =
        receive_frame c e prompt rm junk_addr (pos fd) skrum_msg_t_init m body rest t g2 wf refl
          q in
      let (s', t', run, r') =
        skrumctld_req-applied now (received (pos fd) skrum_msg_t_init m body) body s cs t1 wf.typed
          refl r in
      (
        s',
        t',
        rw (got, run, free_typed (received (pos fd) skrum_msg_t_init m body) body wf.typed refl),
        r',
      )
