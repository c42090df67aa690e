-- ===== src/Controller.antt =====
-- src/skrumctld: the controller's list of nodes. The request handlers of skrumctld_req.c and
-- `_update_node_list` of skrumctld.c, over the list of `Nodes`. Each handler runs to its end
-- here; Race and Overlap split two of them into steps.
pub mod Registry
pub mod Register
pub mod Pong
pub mod Expiry
pub mod Service
pub mod Ids
pub mod Agree
pub mod Once
pub mod Race
pub mod Overlap
pub mod Discovery
use deamon.Common.{
  ℕ, zero, suc, ◌+◌, ◌-◌, ◌%◌, ◌^◌, ◌≤◌, Bool, true, false, Option, none, some, List, [], length,
  ltb, ◌==◌, if◌then◌else◌,
}
use deamon.Common.Int.{ℤ, pos, minus_one}
use deamon.Common.Outcome.{Outcome, ok, fault, use_after_free, exhausted, ◌>>=◌}
use deamon.Host.{Endian}
use deamon.Buf.{Malloc, Sockaddr}
use deamon.Protocol.{
  SkrumMsg, Pointer, to, response_register, request_node_registration, response_node_registration,
  response_pong, RequestRegisterMsg, as_request_register, as_deamon_pong,
}
use deamon.Socket.{Conn}
use deamon.Api.{skrum_send_msg}
use deamon.Nodes.{ListLib}

-- skrum_cluster_node_t; times are seconds.
pub record Node : Type 0 where
  pub cluster_node_id : ℕ  -- uint16_t
  pub registration_ts : ℕ
  pub rpc_port : ℕ  -- uint16_t

abbrev pub Heap : Type 0
Heap = ℕ → Option Node

abbrev pub store : Heap → ℕ → Node → Heap
store h p n q = if p == q then some n else h q

abbrev pub load : Heap → ℕ → Outcome Node
load h p = elim (h p) [ none ↦ fault use_after_free | some n ↦ ok n ]

-- Longer than this many seconds without a pong, and a node is taken off the list.
abbrev pub node_registration_timeout : ℕ
node_registration_timeout = 10

module _ (lib : ListLib) where
  open lib use {L}

  -- `cluster_node_list`, the nodes that were allocated, and `node_cnt`. malloc hands out the
  -- address `fresh`, which no node has had before.
  pub record Cluster : Type 0 where
    pub nodes : L
    pub heap : Heap
    pub fresh : ℕ
    pub node_cnt : ℕ

-- `_step_nodeid_match`; the list code calls it on items that are allocated.
abbrev pub step_nodeid_match : Heap → ℕ → ℕ → Bool
step_nodeid_match h key p = elim (h p) [ none ↦ false | some n ↦ n.cluster_node_id == key ]

module _ (lib : ListLib) where
  open lib use {
    L, I, items, list_append, list_iterator_create, list_iterator_destroy, list_next, list_remove,
    list_find,
  }

  -- The node's id is the counter, cut to 16 bits. The counter is an int in the source: from 2^31
  -- registrations on it overflows there, which is not modelled.
  unfoldable pub register_cluster_node : ℕ → RequestRegisterMsg → Cluster lib → ℕ × Cluster lib
  register_cluster_node now req s =
      let node_id = (s.node_cnt + 1) % 2 ^ 16 in
      (
        node_id,
        record {
          nodes = list_append s.nodes s.fresh;
          heap =
              store s.heap s.fresh (record {
                cluster_node_id = node_id;
                registration_ts = now;
                rpc_port = req.my_port;
              });
          fresh = s.fresh + 1;
          node_cnt = s.node_cnt + 1;
        },
      )

  -- `junk` is what the stack holds where `resp_msg` lies, and `controller_ip` a field of `conf`.
  unfoldable pub req_register :
      (c : Conn) (e : Endian)
      → Malloc
      → SkrumMsg
      → Sockaddr
      → ℕ
      → SkrumMsg
      → Cluster lib
      → c.State
      → Outcome (ℤ × Cluster lib × c.State)
  unfolding register_cluster_node
  req_register c e m junk controller_ip now msg s t = as_request_register msg.data_ptr >>= λ req.
      let (node_id, s') = register_cluster_node now req s in
      let resp_msg : SkrumMsg = record junk {
        msg_type = response_node_registration;
        orig_addr = controller_ip;
        data_ptr = to (response_register (record { my_id = node_id }));
      } in
      skrum_send_msg c e m resp_msg t >>= λ r. ok (r.0, s', r.1)

  unfoldable pub resp_pong : ℕ → SkrumMsg → Cluster lib → Outcome (ℤ × Cluster lib)
  resp_pong now msg s = as_deamon_pong msg.data_ptr >>= λ pong.
      let (node_itr, l1) = list_iterator_create s.nodes in
      let (found, l2) = list_find node_itr (step_nodeid_match s.heap pong.my_id) l1 in
      let l3 = list_iterator_destroy node_itr l2 in
      elim found [
        | none ↦ ok (minus_one, record s { nodes = l3 })
        | some p ↦ load s.heap p >>= λ node. ok (
          pos 0,
          record s { nodes = l3; heap = store s.heap p (record node { registration_ts = now }) },
        )
      ]

  -- What the return values of the handlers were is not looked at.
  unfoldable pub skrumctld_req :
      (c : Conn) (e : Endian)
      → Malloc
      → SkrumMsg
      → Sockaddr
      → ℕ
      → SkrumMsg
      → Cluster lib
      → c.State
      → Outcome (Cluster lib × c.State)
  unfolding req_register resp_pong
  skrumctld_req c e m junk controller_ip now msg s t =
      if msg.msg_type == request_node_registration
      then (req_register c e m junk controller_ip now msg s t >>= λ r. ok (r.1, r.2))
      else if msg.msg_type == response_pong
      then (resp_pong now msg s >>= λ r. ok (r.1, t))
      else ok (s, t)

  -- The while loop of `_update_node_list`; the heap stays as it is, for the removed node is not
  -- freed. A negative difference of times is not above the limit, nor is 0.
  unfoldable pub update_loop : ℕ → Heap → ℕ → I → L → Outcome L
  update_loop zero h now i l = fault exhausted
  update_loop (suc fuel) h now i l =
      let (found, l1) = list_next i l in
      elim found [
        | none ↦ ok l1
        | some p ↦ load h p >>= λ node. update_loop fuel h now i (
            if ltb node_registration_timeout (now - node.registration_ts)
            then (list_remove i l1).1
            else l1)
      ]

  -- One round for each item and one for the end of the list.
  unfoldable pub update_node_list : ℕ → Cluster lib → Outcome (Cluster lib)
  unfolding update_loop
  update_node_list now s =
      let (node_itr, l1) = list_iterator_create s.nodes in
      update_loop (suc (length (items s.nodes))) s.heap now node_itr l1 >>= λ l2.
      ok (record s { nodes = list_iterator_destroy node_itr l2 })
