-- ===== src/Controller/Expiry.antt =====
-- `_update_node_list` ends, and takes exactly the stale nodes off the list; it frees none.
use deamon.Common.{
  ℕ, zero, suc, ◌<◌, ◌≡◌, refl, ap, ◌∙◌, none, some, List, [], ◌∷◌, ◌++◌, arith, length,
  append_assoc, if◌then◌else◌, Bool-cases, inl, inr,
}
use mathlib.Core.Path.{subst}
use deamon.Common.Outcome.{ok}
use deamon.Nodes.{ListLib}
use deamon.Controller.{Node, Heap, Cluster, update_loop, update_node_list}
use deamon.Controller.Registry.{
  load_lem, Cell, addresses, Stored, IsRegistry, is_stale, alive, All-alive, Distinct-alive,
}

length-addresses : (cs : List Cell) → length (addresses cs) ≡ length cs
length-addresses [] = refl
length-addresses (c ∷ cs) = ap suc (length-addresses cs)

module _ (lib : ListLib) (h : Heap) (now : ℕ) (i : lib.I) where
  open lib use {L, At, Returned, items, list_next, list_remove, next_some, next_none}

  -- One round of the loop on an item: the list after it, with the item kept or taken off.
  step_some :
      (fuel : ℕ) (l : L) (p : ℕ) (n : Node)
      → (list_next i l).0 ≡ some p
      → h p ≡ some n
      → update_loop lib (suc fuel) h now i l
        ≡ update_loop lib fuel h now i
            (if is_stale now n then (list_remove i (list_next i l).1).1 else (list_next i l).1)
  unfolding update_loop
  step_some fuel l p n q r = rw (q, update_loop, load_lem h p r)

  step_none :
      (fuel : ℕ) (l : L)
      → (list_next i l).0 ≡ none
      → update_loop lib (suc fuel) h now i l ≡ ok (list_next i l).1
  unfolding update_loop
  step_none fuel l q = rw (q, update_loop)

  -- With the cells `kept` behind the iterator and `cs` ahead of it.
  loop_ends :
      (fuel : ℕ) (l : L) (kept : List ℕ) (cs : List Cell)
      → length cs < fuel
      → Stored h cs
      → At l i kept (addresses cs)
      → (l' : L) × (update_loop lib fuel h now i l ≡ ok l')
        × (items l' ≡ kept ++ addresses (alive now cs))
  unfolding alive
  loop_ends zero l kept cs enough st at = elim enough [ ]
  loop_ends (suc fuel) l kept [] enough st at =
      let (q, at') = next_none l i kept at in (_, step_none fuel l q, lib.At_items _ i kept [] at')
  loop_ends (suc fuel) l kept (c ∷ cs) enough st at =
      let (q, ret) = next_some l i kept c.0 (addresses cs) at in
      elim (Bool-cases (is_stale now c.1)) [
        | inl stale ↦
            let (r, at') = lib.remove_returned _ i kept c.0 (addresses cs) ret in
            let (l', s, t) = loop_ends fuel _ kept cs (omega arith) st.1 at' in
            (l', step_some fuel l c.0 c.1 q st.0 ∙ rw stale s, rw stale t)
        | inr live ↦
            let at' = lib.keep_returned _ i kept c.0 (addresses cs) ret in
            let (l', s, t) = loop_ends fuel _ (kept ++ (c.0 ∷ [])) cs (omega arith) st.1 at' in
            (
              l',
              step_some fuel l c.0 c.1 q st.0 ∙ rw live s,
              rw live (t ∙ append_assoc kept (c.0 ∷ []) (addresses (alive now cs))),
            )
      ]

-- `_update_node_list` returns, and the list then stands for the nodes that are not stale, in
-- their order. The heap is as before: the nodes taken off stay allocated.
pub update_node_list-alive :
    (lib : ListLib) (now : ℕ) (s : Cluster lib) (cs : List Cell)
    → IsRegistry lib s cs
    → (s' : Cluster lib) × (update_node_list lib now s ≡ ok s')
      × IsRegistry lib s' (alive now cs)
      × (s'.heap ≡ s.heap)
      × (s'.node_cnt ≡ s.node_cnt)
unfolding update_node_list
update_node_list-alive lib now s cs r =
    let (l', q, t) =
      loop_ends lib s.heap now itr.0 (suc (length (lib.items s.nodes))) itr.1 [] cs
        (omega (arith, ap length r.listed, length-addresses cs)) r.stored
        (subst (λ (x : List ℕ). lib.At itr.1 itr.0 [] x) r.listed (lib.iterator_At s.nodes)) in
    (
      record s { nodes = lib.list_iterator_destroy itr.0 l' },
      rw q,
      record {
        listed = lib.destroy_items itr.0 l' ∙ t;
        stored = All-alive (λ (c : Cell). s.heap c.0 ≡ some c.1) now cs r.stored;
        below = All-alive (λ (c : Cell). c.0 < s.fresh) now cs r.below;
        distinct = Distinct-alive now cs r.distinct;
      },
      refl,
      refl,
    )
  where
    itr : lib.I × lib.L
    itr = lib.list_iterator_create s.nodes
