-- ===== src/Controller/Once.antt =====
-- The rounds of `_discovery_engine` against one look at the clock.
use deamon.Common.{
  ℕ, ◌≤◌, ◌≡◌, refl, sym, ap, ◌∙◌, true, List, [], ◌∷◌, ◌++◌, All, arith, Bool-cases, inl, inr,
  if◌then◌else◌,
}
use deamon.Common.Outcome.{ok}
use deamon.Host.{Endian}
use deamon.Buf.{Malloc}
use deamon.Buf.Alloc.{IsGranted}
use deamon.Protocol.{SkrumMsg, Body}
use deamon.Protocol.Wire.{IsMsg}
use deamon.Nodes.{ListLib}
use deamon.Os.{Os}
use deamon.Controller.{Node, Cluster, update_node_list}
use deamon.Controller.Registry.{Cell, addresses, IsRegistry, is_stale, alive}
use deamon.Controller.Expiry.{update_node_list-alive}
use deamon.Controller.Discovery.{discovery_engine, alive_through, discovery_engine-alive}

stale_later : (t now : ℕ) (n : Node) → t ≤ now → is_stale t n ≡ true → is_stale now n ≡ true
stale_later t now n h q = ground arith

-- Who is stale at a time is stale later.
alive-alive : (t now : ℕ) (cs : List Cell) → t ≤ now → alive now (alive t cs) ≡ alive now cs
unfolding alive
alive-alive t now [] h = refl
alive-alive t now (c ∷ cs) h = elim (Bool-cases (is_stale t c.1)) [
  | inl old ↦ rw (old, stale_later t now c.1 h old) (alive-alive t now cs h)
  | inr live ↦ rw live (ap (λ ds. if is_stale now c.1 then ds else c ∷ ds) (alive-alive t now cs h))
]

alive_through_last :
    (times : List ℕ) (now : ℕ) (cs : List Cell)
    → All (λ (t : ℕ). t ≤ now) times
    → alive_through (times ++ (now ∷ [])) cs ≡ alive now cs
alive_through_last [] now cs h = refl
alive_through_last (t ∷ ts) now cs h =
    alive_through_last ts now (alive t cs) h.1 ∙ alive-alive t now cs h.0

-- As long as no node registers and no pong comes in between, the rounds of `_discovery_engine` at
-- the times up to `now` leave the list that one call of `_update_node_list` at `now` leaves, when
-- the clock does not go beyond `now` in between, the message is well formed and memory is granted.
pub discovery_engine-once :
    (lib : ListLib) (os : Os) (e : Endian) (ma : Malloc) (msg : SkrumMsg) (body : Body)
    (times : List ℕ) (now : ℕ) (s : Cluster lib) (w : os.World) (cs : List Cell)
    → IsGranted ma
    → IsMsg msg body
    → IsRegistry lib s cs
    → All (λ (t : ℕ). t ≤ now) times
    → (s' : Cluster lib) × (w' : os.World) × (u : Cluster lib) × (discovery_engine lib os e ma msg
          (times ++ (now ∷ []))
          s
          w
        ≡ ok (s', w'))
      × (update_node_list lib now s ≡ ok u)
      × (lib.items s'.nodes ≡ lib.items u.nodes)
discovery_engine-once lib os e ma msg body times now s w cs g wf r h =
    let (s', w', rounds, r', _) =
      discovery_engine-alive lib os e ma msg body (times ++ (now ∷ [])) s w cs g wf r in
    let (u, once, ru, _, _) = update_node_list-alive lib now s cs r in
    (
      s',
      w',
      u,
      rounds,
      once,
      r'.listed ∙ ap addresses (alive_through_last times now cs h) ∙ sym ru.listed,
    )
