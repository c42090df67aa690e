-- ===== src/Tests/Cluster.antt =====
-- A controller with two nodes.
use deamon.Common.{
  ℕ, ◌≡◌, ◌⊎◌, refl, true, false, none, some, List, [], ◌∷◌, ◌++◌, arith, ltb, if◌then◌else◌,
}
use deamon.Common.Int.{ℤ, pos, minus_one}
use deamon.Common.Outcome.{ok}
use deamon.Host.{little}
use deamon.Protocol.{SkrumMsg, response_register, deamon_pong, RequestRegisterMsg}
use deamon.Api.Send.{frame}
use deamon.Nodes.Sample.{sample, at}
use deamon.Controller.{
  Node, Heap, store, Cluster, register_cluster_node, req_register, resp_pong, update_node_list,
  update_loop,
}
use deamon.Controller.Registry.{Cell, IsRegistry, alive, touch, has_id, first_of}
use deamon.Controller.Register.{new_node, response, req_register-IsRegistry}
use deamon.Controller.Pong.{resp_pong-touch}
use deamon.Controller.Expiry.{update_node_list-alive}
use deamon.Controller.Service.{applied, service_connection, service_connection-applied}
use deamon.Controller.Ids.{
  init_cluster, Reached, start, later, registered, expired, IsNumbered, Reached-IsNumbered,
}
use deamon.Controller.Once.{discovery_engine-once}
use deamon.Controller.Overlap.{pong_find, pong_write, nothing, further}
use deamon.Controller.Overlap.Refreshed.{pong_overlapped}
use deamon.Controller.Race.{numbered, register_step, race, init_race}
use deamon.Controller.Race.Ends.{seat}
use deamon.Controller.Race.Ids.{race_ids}
use deamon.Controller.Discovery.{discovery_engine, alive_through, discovery_engine-alive}
use deamon.Os.Sample.{Sockets, sample as system_sample}
use deamon.Tests.Streams.{Stream, pipe, pipe-IsPrompt}
use deamon.Tests.Messages.{
  granted, granted-IsGranted, recv_granted, recv_granted-IsAllGranted, loopback,
  loopback-IsSockaddr, message, request_msg, request_body, request_msg-IsMsg, stack_msg, info_msg,
  info_body, info_msg-IsMsg,
}

abbrev empty_heap : Heap
empty_heap p = none

abbrev pub node1 : Node
node1 = record { cluster_node_id = 1; registration_ts = 100; rpc_port = 10001 }

abbrev pub node2 : Node
node2 = record { cluster_node_id = 2; registration_ts = 120; rpc_port = 10002 }

abbrev pub cells : List Cell
cells = (64, node1) ∷ (65, node2) ∷ []

abbrev pub cluster : Cluster sample
cluster = record {
  nodes = at [] (64 ∷ 65 ∷ []);
  heap = store (store empty_heap 64 node1) 65 node2;
  fresh = 66;
  node_cnt = 2;
}

pub cluster-IsRegistry : IsRegistry sample cluster cells
cluster-IsRegistry = record {
  listed = refl;
  stored = (refl, (refl, tt));
  below = (omega arith, (omega arith, tt));
  distinct = (((λ h. omega (arith, h)), tt), (tt, tt));
}

-- At 125 the first node is stale.
update_node_list-alive_example :
    (s' : Cluster sample) × (update_node_list sample 125 cluster ≡ ok s')
    × IsRegistry sample s' (alive 125 cells)
    × (s'.heap ≡ cluster.heap)
    × (s'.node_cnt ≡ 2)
update_node_list-alive_example = update_node_list-alive sample 125 cluster cells cluster-IsRegistry

abbrev pong_msg : SkrumMsg
pong_msg = message 3 (deamon_pong (record { my_id = 2 }))

resp_pong-touch_example :
    (s' : Cluster sample) × (resp_pong sample 130 pong_msg cluster
      ≡ ok (if has_id 2 cells then pos 0 else minus_one, s'))
    × IsRegistry sample s' (touch 130 2 cells)
    × (s'.node_cnt ≡ 2)
resp_pong-touch_example =
    resp_pong-touch sample 130 pong_msg (record { my_id = 2 }) cluster cells refl cluster-IsRegistry

abbrev request : RequestRegisterMsg
request = record { my_port = 10001 }

abbrev quiet : Stream
quiet = record { unread = []; written = [] }

req_register-IsRegistry_example :
    (rc : ℤ) × (s' : Cluster sample) × (t' : Stream) × (req_register sample pipe little granted
        stack_msg loopback 130 request_msg cluster quiet
      ≡ ok (rc, s', t'))
    × IsRegistry sample s' (cells ++ ((66, new_node 130 request 2) ∷ []))
    × ((rc ≡ minus_one)
        ⊎ (k : ℕ) × (rc ≡ pos k)
          × (t'.written
              ≡ []
                ++ frame
                    (response stack_msg loopback 3)
                    (response_register (record { my_id = 3 }))))
req_register-IsRegistry_example =
    req_register-IsRegistry sample pipe little granted stack_msg loopback 130 request_msg request
      cluster cells quiet granted-IsGranted loopback-IsSockaddr (omega arith) refl
      cluster-IsRegistry

service_connection-applied_example :
    (s' : Cluster sample) × (t' : Stream) × (service_connection sample pipe little recv_granted
        granted 3 stack_msg loopback 130 5 cluster
        (record { unread = frame request_msg request_body ++ []; written = [] })
      ≡ ok (record { cluster = s'; socket = t'; closed = ltb 0 5; counted_down = true }))
    × IsRegistry sample s' (applied 130 66 2 request_body cells)
service_connection-applied_example =
    service_connection-applied sample pipe little granted stack_msg loopback granted-IsGranted
      loopback-IsSockaddr (omega arith) (pipe-IsPrompt little) recv_granted 3 130 5 request_msg
      request_body [] cluster cells
      (record { unread = frame request_msg request_body ++ []; written = [] })
      recv_granted-IsAllGranted request_msg-IsMsg refl cluster-IsRegistry

abbrev one_node : Cluster sample
one_node = (register_cluster_node sample 100 request (init_cluster sample empty_heap 64)).1

one_node-Reached : Reached sample one_node
one_node-Reached =
    later (init_cluster sample empty_heap 64) one_node (start empty_heap 64)
      (registered 100 request (init_cluster sample empty_heap 64))

Reached-IsNumbered_example : IsNumbered sample one_node
unfolding register_cluster_node
Reached-IsNumbered_example = Reached-IsNumbered sample one_node one_node-Reached (omega arith)

abbrev system : Sockets
system = record { open_fds = []; bound = []; listening = []; datagrams = []; busy = [] }

-- Rounds at 115 and at 125.
discovery_engine-alive_example :
    (s' : Cluster sample) × (w' : Sockets) × (discovery_engine sample system_sample little granted
        info_msg
        (115 ∷ 125 ∷ [])
        cluster
        system
      ≡ ok (s', w'))
    × IsRegistry sample s' (alive_through (115 ∷ 125 ∷ []) cells)
    × (w'.open_fds ≡ [])
discovery_engine-alive_example =
    discovery_engine-alive sample system_sample little granted info_msg info_body (115 ∷ 125 ∷ [])
      cluster system cells granted-IsGranted info_msg-IsMsg cluster-IsRegistry

discovery_engine-once_example :
    (s' : Cluster sample) × (w' : Sockets) × (u : Cluster sample) × (discovery_engine sample
        system_sample little granted info_msg
        (115 ∷ 125 ∷ [])
        cluster
        system
      ≡ ok (s', w'))
    × (update_node_list sample 125 cluster ≡ ok u)
    × (sample.items s'.nodes ≡ sample.items u.nodes)
discovery_engine-once_example =
    discovery_engine-once sample system_sample little granted info_msg info_body (115 ∷ []) 125
      cluster system cells granted-IsGranted info_msg-IsMsg cluster-IsRegistry (omega arith, tt)

-- The second thread stores its number before the first one loads the counter again.
race_ids_example :
    race true (true ∷ true ∷ false ∷ false ∷ true ∷ false ∷ []) (init_race 7)
    ≡ seat true 9 (numbered 9) (numbered 9)
unfolding race register_step
race_ids_example = race_ids true 7 (true ∷ true ∷ false ∷ false ∷ true ∷ false ∷ []) refl

abbrev looked_through : Cluster sample
looked_through = record cluster { nodes = at (65 ∷ []) [] }

looked_through-IsRegistry : IsRegistry sample looked_through ((65, node2) ∷ [])
looked_through-IsRegistry = record {
  listed = refl;
  stored = (refl, tt);
  below = (omega arith, tt);
  distinct = (tt, tt);
}

-- The first node's pong is at work when the list is looked through at 125: it returns 0, and the node
-- is off the list.
pong_overlapped_example :
    ((pong_find sample 1 cluster).0 ≡ some 64)
    × (u : Cluster sample) × (pong_write sample 125
          (pong_find sample 1 cluster).0
          (pong_find sample 1 cluster).1
          looked_through
        ≡ ok (pos 0, u))
    × IsRegistry sample u ((65, node2) ∷ [])
    × (u.node_cnt ≡ 2)
unfolding pong_find first_of has_id update_node_list update_loop
pong_overlapped_example =
    pong_overlapped sample 125 1 cluster looked_through cells ((65, node2) ∷ []) cluster-IsRegistry
      (further _ _ _ (nothing _) (expired 125 _ _ refl)) looked_through-IsRegistry
