-- ===== src/Controller/Overlap/Kept.antt =====
-- The memory of a node while the handlers of other threads run.
use deamon.Common.{ℕ, suc, length, ◌≡◌, ◌⊎◌, arith, inl, inr, sym, ap, ◌∙◌, Option, none, some}
use mathlib.Core.Path.{subst}
use deamon.Common.Int.{ℤ, pos}
use deamon.Common.Outcome.{Outcome, ok, fault, ok_injective, ◌>>=◌}
use deamon.Protocol.{SkrumMsg, to, deamon_pong, DeamonPongMsg, RequestRegisterMsg}
use deamon.Nodes.{ListLib}
use deamon.Controller.{
  Node, Heap, store, load, Cluster, register_cluster_node, resp_pong, update_loop, update_node_list,
}
use deamon.Controller.Pong.{store_other}
use deamon.Controller.Ids.{registered, ponged, expired}
use deamon.Controller.Overlap.{pong_find, pong_write, resp_pong-steps, Meanwhile, nothing, further}

pub equal_or_not : (a b : ℕ) → (a ≡ b) ⊎ (a ≡ b → ⊥)
equal_or_not a b = ground arith

-- No handler frees a node.
module _ (lib : ListLib) (p : ℕ) where
  -- A node stands at the address.
  abbrev pub Lives : Heap → Type 0
  Lives h = (n : Node) × (h p ≡ some n)

  Lives-store : (h : Heap) (q : ℕ) (m : Node) → Lives h → Lives (store h q m)
  Lives-store h q m (n, at) = elim (equal_or_not q p) [
    | inl e ↦ (m, ground (arith, e))
    | inr ne ↦ (n, store_other h q p m ne ∙ at)
  ]

  Lives-registered :
      (now : ℕ) (req : RequestRegisterMsg) (s : Cluster lib)
      → Lives s.heap
      → Lives (register_cluster_node lib now req s).1.heap
  unfolding register_cluster_node
  Lives-registered now req s a = Lives-store s.heap s.fresh _ a

  Lives-write :
      (now : ℕ) (found : Option ℕ) (itr : lib.I) (rc : ℤ) (s s' : Cluster lib)
      → pong_write lib now found itr s ≡ ok (rc, s')
      → Lives s.heap
      → Lives s'.heap
  unfolding pong_write
  Lives-write now none itr rc s s' q a = subst Lives (ap (λ x. x.1.heap) (ok_injective q)) a
  Lives-write now (some q') itr rc s s' q a = go (load s.heap q') q
    where
      written : Node → Cluster lib
      written node = record s {
        nodes = lib.list_iterator_destroy itr s.nodes;
        heap = store s.heap q' (record node { registration_ts = now });
      }

      answered : Node → Outcome (ℤ × Cluster lib)
      answered node = ok (pos 0, written node)

      go : (o : Outcome Node) → (o >>= answered) ≡ ok (rc, s') → Lives s'.heap
      go (ok node) e = subst Lives (ap (λ x. x.1.heap) (ok_injective e)) (Lives-store s.heap q' _ a)
      go (fault f) e = cc

  Lives-expired :
      (now : ℕ) (s s' : Cluster lib)
      → update_node_list lib now s ≡ ok s'
      → Lives s.heap
      → Lives s'.heap
  unfolding update_node_list
  Lives-expired now s s' q a =
      let (itr, l1) = lib.list_iterator_create s.nodes in
      go itr (update_loop lib (suc (length (lib.items s.nodes))) s.heap now itr l1) q
    where
      go :
          (itr : lib.I) (o : Outcome lib.L)
          → (o >>= λ l2. ok (record s { nodes = lib.list_iterator_destroy itr l2 })) ≡ ok s'
          → Lives s'.heap
      go itr (ok l2) e = subst Lives (ap (λ x. x.heap) (ok_injective e)) a
      go itr (fault f) e = cc

  Lives-ponged :
      (now : ℕ) (msg : SkrumMsg) (pong : DeamonPongMsg) (rc : ℤ) (s s' : Cluster lib)
      → msg.data_ptr ≡ to (deamon_pong pong)
      → resp_pong lib now msg s ≡ ok (rc, s')
      → Lives s.heap
      → Lives s'.heap
  unfolding pong_find
  Lives-ponged now msg pong rc s s' d q a =
      let (found, itr, v) = pong_find lib pong.my_id s in
      Lives-write now found itr rc v s' (sym (resp_pong-steps lib now msg pong s d) ∙ q) a

  pub Lives-Meanwhile : (s t : Cluster lib) → Meanwhile lib s t → Lives s.heap → Lives t.heap
  Lives-Meanwhile s _ (nothing _) a = a
  Lives-Meanwhile s _ (further _ t _ m (registered now req _)) a =
      Lives-registered now req t (Lives-Meanwhile s t m a)
  Lives-Meanwhile s _ (further _ t u m (ponged now msg pong rc _ _ d q)) a =
      Lives-ponged now msg pong rc t u d q (Lives-Meanwhile s t m a)
  Lives-Meanwhile s _ (further _ t u m (expired now _ _ q)) a =
      Lives-expired now t u q (Lives-Meanwhile s t m a)
