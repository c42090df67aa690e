-- ===== src/Controller/Ids.antt =====
-- The ids of the controller's nodes: registrations, pongs and expiry in any order keep them apart
-- while no more than 65535 nodes have registered.
pub mod Different
use deamon.Common.{
  ℕ, ◌+◌, ◌%◌, ◌^◌, ◌≤◌, ◌<◌, ◌≡◌, ◌≢◌, refl, sym, ap, ◌∙◌, List, [], ◌∷◌, ◌++◌, All, arith, ◌==◌,
  Bool-cases, inl, inr,
}
use deamon.Common.Int.{ℤ}
use deamon.Common.Outcome.{ok, ok_injective}
use mathlib.Core.Path.{subst}
use deamon.Protocol.{SkrumMsg, to, deamon_pong, DeamonPongMsg, RequestRegisterMsg}
use deamon.Nodes.{ListLib}
use deamon.Controller.{Node, Heap, Cluster, register_cluster_node, resp_pong, update_node_list}
use deamon.Controller.Registry.{
  Cell, IsRegistry, is_stale, alive, touch, All-append, All-map, All-alive,
}
use deamon.Controller.Register.{new_node, register_cluster_node-IsRegistry}
use deamon.Controller.Pong.{resp_pong-touch}
use deamon.Controller.Expiry.{update_node_list-alive}
use deamon.Controller.Ids.Different.{
  Given, Apart, Given-snoc, Apart-snoc, All-ids-touch, Apart-touch, Apart-alive,
}

-- What the threads do to the list: one registration, one pong, one expiry.
pub data Change (lib : ListLib) : Cluster lib → Cluster lib → Type 0 where
  registered :
      (now : ℕ) (req : RequestRegisterMsg) (s : Cluster lib)
      → Change lib s (register_cluster_node lib now req s).1
  ponged :
      (now : ℕ) (msg : SkrumMsg) (pong : DeamonPongMsg) (rc : ℤ) (s s' : Cluster lib)
      → msg.data_ptr ≡ to (deamon_pong pong)
      → resp_pong lib now msg s ≡ ok (rc, s')
      → Change lib s s'
  expired : (now : ℕ) (s s' : Cluster lib) → update_node_list lib now s ≡ ok s' → Change lib s s'

-- `_skrumctld_init` makes the empty list.
abbrev pub init_cluster : (lib : ListLib) → Heap → ℕ → Cluster lib
init_cluster lib h fresh = record { nodes = lib.list_create; heap = h; fresh = fresh; node_cnt = 0 }

pub data Reached (lib : ListLib) : Cluster lib → Type 0 where
  start : (h : Heap) (fresh : ℕ) → Reached lib (init_cluster lib h fresh)
  later : (s s' : Cluster lib) → Reached lib s → Change lib s s' → Reached lib s'

-- The state stands for a list of nodes whose ids were given by its registrations, all different.
pub record IsNumbered (lib : ListLib) (s : Cluster lib) : Type 0 where
  pub cells : List Cell
  pub registry : IsRegistry lib s cells
  pub given : Given s.node_cnt cells
  pub apart : Apart cells

node_cnt_registered :
    (lib : ListLib) (now : ℕ) (req : RequestRegisterMsg) (s : Cluster lib)
    → (register_cluster_node lib now req s).1.node_cnt ≡ s.node_cnt + 1
unfolding register_cluster_node
node_cnt_registered lib now req s = refl

id_lem : (cnt : ℕ) → cnt + 1 < 2 ^ 16 → (cnt + 1) % 2 ^ 16 ≡ cnt + 1
id_lem cnt h = omega (arith, h)

IsNumbered-registered :
    (lib : ListLib) (now : ℕ) (req : RequestRegisterMsg) (s : Cluster lib)
    → IsNumbered lib s
    → s.node_cnt + 1 < 2 ^ 16
    → IsNumbered lib (register_cluster_node lib now req s).1
IsNumbered-registered lib now req s n small =
    let (_, r, _) = register_cluster_node-IsRegistry lib now req s n.cells n.registry in
    record {
      cells = n.cells ++ ((s.fresh, new_node now req s.node_cnt) ∷ []);
      registry = r;
      given = rw (node_cnt_registered lib now req s) (
          Given-snoc s.node_cnt (new_node now req s.node_cnt) s.fresh n.cells
            (id_lem s.node_cnt small) n.given);
      apart =
          Apart-snoc s.node_cnt (new_node now req s.node_cnt) s.fresh n.cells
            (id_lem s.node_cnt small) n.given n.apart;
    }

-- Pongs and expiries end in a state whose number of registrations is the old one.
module _ (lib : ListLib) (now : ℕ) (s : Cluster lib) (n : IsNumbered lib s) where
  IsNumbered-ponged :
      (msg : SkrumMsg) (pong : DeamonPongMsg) (rc : ℤ) (s' : Cluster lib)
      → msg.data_ptr ≡ to (deamon_pong pong)
      → resp_pong lib now msg s ≡ ok (rc, s')
      → IsNumbered lib s'
  IsNumbered-ponged msg pong rc s' p q =
      let (t, run, r, cnt) = resp_pong-touch lib now msg pong s n.cells p n.registry in
      subst (IsNumbered lib) (ap (λ x. x.1) (ok_injective (sym run ∙ q))) (record {
        cells = touch now pong.my_id n.cells;
        registry = r;
        given =
            rw cnt (All-ids-touch (λ x. (0 < x) × (x ≤ s.node_cnt)) now pong.my_id n.cells n.given);
        apart = Apart-touch now pong.my_id n.cells n.apart;
      })

  IsNumbered-expired : (s' : Cluster lib) → update_node_list lib now s ≡ ok s' → IsNumbered lib s'
  IsNumbered-expired s' q =
      let (t, run, r, _, cnt) = update_node_list-alive lib now s n.cells n.registry in
      subst (IsNumbered lib) (ok_injective (sym run ∙ q)) (record {
        cells = alive now n.cells;
        registry = r;
        given = rw cnt (
            All-alive (λ (c : Cell). (0 < c.1.cluster_node_id) × (c.1.cluster_node_id ≤ s.node_cnt))
              now n.cells n.given);
        apart = Apart-alive now n.cells n.apart;
      })

-- Every state that is reached has its registry, whatever the number of registrations.
pub Reached-IsRegistry :
    (lib : ListLib) (s : Cluster lib) → Reached lib s → (cs : List Cell) × IsRegistry lib s cs
Reached-IsRegistry lib s (start h fresh) =
    ([], record { listed = lib.create_items; stored = tt; below = tt; distinct = tt })
Reached-IsRegistry lib _ (later s _ r (registered now req _)) =
    let (cs, g) = Reached-IsRegistry lib s r in
    let (_, g', _) = register_cluster_node-IsRegistry lib now req s cs g in (_, g')
Reached-IsRegistry lib _ (later s s' r (ponged now msg pong rc _ _ p q)) =
    let (cs, g) = Reached-IsRegistry lib s r in
    let (t, run, g', _) = resp_pong-touch lib now msg pong s cs p g in
    (
      touch now pong.my_id cs,
      subst (λ x. IsRegistry lib x (touch now pong.my_id cs))
          (ap (λ x. x.1) (ok_injective (sym run ∙ q))) g',
    )
Reached-IsRegistry lib _ (later s s' r (expired now _ _ q)) =
    let (cs, g) = Reached-IsRegistry lib s r in
    let (t, run, g', _, _) = update_node_list-alive lib now s cs g in
    (alive now cs, subst (λ x. IsRegistry lib x (alive now cs)) (ok_injective (sym run ∙ q)) g')

-- The number of registrations before a pong or an expiry.
cnt_before_pong :
    (lib : ListLib) (now : ℕ) (msg : SkrumMsg) (pong : DeamonPongMsg) (rc : ℤ) (s s' : Cluster lib)
    → Reached lib s
    → msg.data_ptr ≡ to (deamon_pong pong)
    → resp_pong lib now msg s ≡ ok (rc, s')
    → s.node_cnt ≡ s'.node_cnt
cnt_before_pong lib now msg pong rc s s' r p q =
    let (cs, g) = Reached-IsRegistry lib s r in
    let (t, run, _, cnt) = resp_pong-touch lib now msg pong s cs p g in
    sym cnt ∙ ap (λ x. x.1.node_cnt) (ok_injective (sym run ∙ q))

cnt_before_expiry :
    (lib : ListLib) (now : ℕ) (s s' : Cluster lib)
    → Reached lib s
    → update_node_list lib now s ≡ ok s'
    → s.node_cnt ≡ s'.node_cnt
cnt_before_expiry lib now s s' r q =
    let (cs, g) = Reached-IsRegistry lib s r in
    let (t, run, _, _, cnt) = update_node_list-alive lib now s cs g in
    sym cnt ∙ ap (λ x. x.node_cnt) (ok_injective (sym run ∙ q))

-- Whatever registrations, pongs and expiries have come one after another since the start, no two
-- nodes on the list have one id, as long as fewer than 65536 nodes have registered.
pub Reached-IsNumbered :
    (lib : ListLib) (s : Cluster lib) → Reached lib s → s.node_cnt < 2 ^ 16 → IsNumbered lib s
Reached-IsNumbered lib s (start h fresh) small = record {
  cells = [];
  registry = record { listed = lib.create_items; stored = tt; below = tt; distinct = tt };
  given = tt;
  apart = tt;
}
Reached-IsNumbered lib _ (later s _ r (registered now req _)) small =
    IsNumbered-registered lib now req s (Reached-IsNumbered lib s r (omega (arith, small, counted)))
      (omega (arith, small, counted))
  where
    counted : (register_cluster_node lib now req s).1.node_cnt ≡ s.node_cnt + 1
    counted = node_cnt_registered lib now req s
Reached-IsNumbered lib _ (later s s' r (ponged now msg pong rc _ _ p q)) small =
    IsNumbered-ponged lib now s
      (Reached-IsNumbered lib s r
        (omega (arith, small, cnt_before_pong lib now msg pong rc s s' r p q)))
      msg pong rc s' p q
Reached-IsNumbered lib _ (later s s' r (expired now _ _ q)) small =
    IsNumbered-expired lib now s
      (Reached-IsNumbered lib s r (omega (arith, small, cnt_before_expiry lib now s s' r q))) s' q
