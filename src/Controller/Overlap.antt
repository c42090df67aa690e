-- ===== src/Controller/Overlap.antt =====
-- `_resp_pong` of skrumctld_req.c while other threads go on: `list_find` and the write to the node
-- that it has found are two steps, with no lock over both.
pub mod Kept
pub mod Refreshed
use deamon.Common.{
  ℕ, suc, length, ◌<◌, ◌≡◌, ◌≢◌, ◌⊎◌, arith, inl, inr, refl, sym, ap, ◌∙◌, Bool, true, false,
  Option, none, some, List, [], ◌∷◌, ◌++◌, All, ◌==◌, if◌then◌else◌, Bool-cases, append-nil,
  append_assoc,
}
use mathlib.Core.Path.{subst}
use deamon.Common.Int.{ℤ, pos, minus_one}
use deamon.Common.Outcome.{Outcome, ok, fault, ok_injective, ◌>>=◌}
use deamon.Protocol.{SkrumMsg, to, deamon_pong, DeamonPongMsg, as_deamon_pong, RequestRegisterMsg}
use deamon.Nodes.{ListLib}
use deamon.Controller.{
  Node, Heap, store, load, Cluster, step_nodeid_match, register_cluster_node, resp_pong,
  update_loop, update_node_list,
}
use deamon.Controller.Registry.{
  Cell, addresses, Stored, Distinct, IsRegistry, has_id, first_of, load_lem,
}
use deamon.Controller.Pong.{Search, missed, hit, Search-cells, store_lem, store_other}
use deamon.Controller.Ids.{Change, registered, ponged, expired}

module _ (lib : ListLib) where
  open lib use {L, I, At, list_iterator_create, list_iterator_destroy, list_find}

  -- Up to the search: the node that it has found, and the iterator.
  unfoldable pub pong_find : ℕ → Cluster lib → Option ℕ × I × Cluster lib
  pong_find id s =
      let (node_itr, l1) = list_iterator_create s.nodes in
      let (found, l2) = list_find node_itr (step_nodeid_match s.heap id) l1 in
      (found, node_itr, record s { nodes = l2 })

  -- From the search on.
  unfoldable pub pong_write : ℕ → Option ℕ → I → Cluster lib → Outcome (ℤ × Cluster lib)
  pong_write now found node_itr s =
      let l3 = list_iterator_destroy node_itr s.nodes in
      elim found [
        | none ↦ ok (minus_one, record s { nodes = l3 })
        | some p ↦ load s.heap p >>= λ node. ok (
          pos 0,
          record s { nodes = l3; heap = store s.heap p (record node { registration_ts = now }) },
        )
      ]

  -- With nothing in between the two steps are `_resp_pong`.
  resp_pong-steps :
      (now : ℕ) (msg : SkrumMsg) (pong : DeamonPongMsg) (s : Cluster lib)
      → msg.data_ptr ≡ to (deamon_pong pong)
      → let (found, itr, t) = pong_find pong.my_id s in
        resp_pong lib now msg s ≡ pong_write now found itr t
  unfolding resp_pong pong_find pong_write
  resp_pong-steps now msg pong s d = rw d refl

  -- What the other threads do, one handler after another.
  pub data Meanwhile : Cluster lib → Cluster lib → Type 0 where
    nothing : (s : Cluster lib) → Meanwhile s s
    further : (s t u : Cluster lib) → Meanwhile s t → Change lib t u → Meanwhile s u
