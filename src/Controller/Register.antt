-- ===== src/Controller/Register.antt =====
-- Registration: `_register_cluster_node` and `_req_register` of skrumctld_req.c.
use deamon.Common.{
  ==_refl, ==_gt, ℕ, ◌+◌, ◌%◌, ◌^◌, ◌<◌, ◌≡◌, ◌⊎◌, refl, sym, ◌∙◌, some, List, [], ◌∷◌, ◌++◌, arith,
}
use deamon.Common.Int.{ℤ, pos, minus_one}
use deamon.Common.Outcome.{ok}
use deamon.Host.{Endian}
use deamon.Buf.{Malloc, Sockaddr}
use deamon.Buf.Alloc.{IsGranted}
use deamon.Buf.Write.{IsSockaddr}
use deamon.Protocol.{
  SkrumMsg, to, request_register, response_register, response_node_registration, RequestRegisterMsg,
}
use deamon.Protocol.Wire.{IsMsg}
use deamon.Socket.{Conn}
use deamon.Api.Send.{frame, send_msg_frame}
use deamon.Nodes.{ListLib}
use deamon.Controller.{Node, Heap, store, Cluster, register_cluster_node, req_register}
use deamon.Controller.Registry.{
  Cell, Stored, Below, IsRegistry, addresses-append, All-append, All-map, Distinct-snoc,
}

-- A store past all cells leaves them as they are.
Stored-store :
    (h : Heap) (fresh : ℕ) (n : Node) (cs : List Cell)
    → Below fresh cs
    → Stored h cs
    → Stored (store h fresh n) cs
Stored-store h fresh n [] b st = tt
Stored-store h fresh n (c ∷ cs) b st =
    (rw (==_gt fresh c.0 b.0) st.0, Stored-store h fresh n cs b.1 st.1)

-- The node that `_register_cluster_node` makes of a request.
abbrev pub new_node : ℕ → RequestRegisterMsg → ℕ → Node
new_node now req cnt = record {
  cluster_node_id = (cnt + 1) % 2 ^ 16;
  registration_ts = now;
  rpc_port = req.my_port;
}

-- The new node is put at the end of the list, heard of now and with the port it asked from, under
-- the next id cut to 16 bits, and the nodes before it keep their places.
pub register_cluster_node-IsRegistry :
    (lib : ListLib) (now : ℕ) (req : RequestRegisterMsg) (s : Cluster lib) (cs : List Cell)
    → IsRegistry lib s cs
    → ((register_cluster_node lib now req s).0 ≡ (s.node_cnt + 1) % 2 ^ 16)
      × IsRegistry lib
          (register_cluster_node lib now req s).1
          (cs ++ ((s.fresh, new_node now req s.node_cnt) ∷ []))
      × ((register_cluster_node lib now req s).1.node_cnt ≡ s.node_cnt + 1)
unfolding register_cluster_node
register_cluster_node-IsRegistry lib now req s cs r = (
  refl,
  record {
    listed = lib.append_items s.nodes s.fresh ∙ rw r.listed (sym (addresses-append cs (cell ∷ [])));
    stored =
        All-append (λ (c : Cell). store s.heap s.fresh cell.1 c.0 ≡ some c.1) cs (cell ∷ [])
          (Stored-store s.heap s.fresh cell.1 cs r.below r.stored) (rw (==_refl s.fresh), tt);
    below =
        All-append (λ (c : Cell). c.0 < s.fresh + 1) cs (cell ∷ [])
          (All-map (λ (c : Cell). c.0 < s.fresh) (λ (c : Cell). c.0 < s.fresh + 1) cs
            (λ c h. omega (arith, h)) r.below)
          (omega arith, tt);
    distinct = Distinct-snoc s.fresh cell.1 cs r.below r.distinct;
  },
  refl,
)
  where
    cell : Cell
    cell = (s.fresh, new_node now req s.node_cnt)

-- The answer to a registration with the id.
abbrev pub response : SkrumMsg → Sockaddr → ℕ → SkrumMsg
response junk controller_ip id = record junk {
  msg_type = response_node_registration;
  orig_addr = controller_ip;
  data_ptr = to (response_register (record { my_id = id }));
}

pub response-IsMsg :
    (junk : SkrumMsg) (ip : Sockaddr) (id : ℕ)
    → IsSockaddr ip
    → id < 2 ^ 16
    → junk.data_size < 2 ^ 32
    → IsMsg (response junk ip id) (response_register (record { my_id = id }))
response-IsMsg junk ip id a small size = record {
  points = refl;
  typed = refl;
  addr = a;
  range = small;
  size = size;
}

-- A registration, with memory granted and the controller's address and the stack in range, always
-- returns; the node is at the end of the list even when the answer could not be sent, and unless the
-- call returns -1 the answer with the node's id stands on the stream as one frame.
pub req_register-IsRegistry :
    (lib : ListLib) (c : Conn) (e : Endian) (ma : Malloc) (junk : SkrumMsg) (ip : Sockaddr)
    → (now : ℕ) (msg : SkrumMsg) (req : RequestRegisterMsg) (s : Cluster lib) (cs : List Cell)
      (t : c.State)
    → IsGranted ma
    → IsSockaddr ip
    → junk.data_size < 2 ^ 32
    → msg.data_ptr ≡ to (request_register req)
    → IsRegistry lib s cs
    → (rc : ℤ) × (s' : Cluster lib) × (t' : c.State) × (req_register lib c e ma junk ip now msg s t
        ≡ ok (rc, s', t'))
      × IsRegistry lib s' (cs ++ ((s.fresh, new_node now req s.node_cnt) ∷ []))
      × ((rc ≡ minus_one)
          ⊎ (k : ℕ) × (rc ≡ pos k)
            × (c.outgoing t'
                ≡ c.outgoing t
                  ++ frame
                      (response junk ip ((s.node_cnt + 1) % 2 ^ 16))
                      (response_register (record { my_id = (s.node_cnt + 1) % 2 ^ 16 }))))
unfolding req_register
req_register-IsRegistry lib c e ma junk ip now msg req s cs t g a size d r =
    let (_, r', _) = register_cluster_node-IsRegistry lib now req s cs r in
    let (rc, t', sent, framed) =
      send_msg_frame c e ma (response junk ip id) (response_register (record { my_id = id })) t g
        (response-IsMsg junk ip id a (omega arith) size) in
    (rc, (register_cluster_node lib now req s).1, t', rw (d, sent), r', framed)
  where
    id : ℕ
    id = (s.node_cnt + 1) % 2 ^ 16
