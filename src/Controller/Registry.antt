-- ===== src/Controller/Registry.antt =====
-- What the controller's node list stands for: the registered nodes in order, with the address of
-- each, and what the handlers are to do to them.
use deamon.Common.{
  ℕ, ◌-◌, ◌<◌, ◌≡◌, ◌≢◌, refl, ap, Bool, true, false, Option, none, some, List, [], ◌∷◌, ◌++◌, All,
  arith, ltb, ◌==◌, if◌then◌else◌, Bool-cases, inl, inr,
}
use deamon.Nodes.{ListLib}
use deamon.Common.Outcome.{ok}
use deamon.Controller.{load, Node, Heap, Cluster, node_registration_timeout}

abbrev pub Cell : Type 0
Cell = ℕ × Node

abbrev pub addresses : List Cell → List ℕ
addresses [] = []
addresses (c ∷ cs) = c.0 ∷ addresses cs

-- No two cells have one address.
abbrev pub Distinct : List Cell → Type 0
Distinct [] = Unit {0}
Distinct (c ∷ cs) = All (λ (d : Cell). c.0 ≢ d.0) cs × Distinct cs

abbrev pub Stored : Heap → List Cell → Type 0
Stored h cs = All (λ (c : Cell). h c.0 ≡ some c.1) cs

abbrev pub Below : ℕ → List Cell → Type 0
Below fresh cs = All (λ (c : Cell). c.0 < fresh) cs

-- The cluster's list holds the addresses of the cells, each allocated and with its node.
pub record IsRegistry (lib : ListLib) (s : Cluster lib) (cs : List Cell) : Type 0 where
  pub listed : lib.items s.nodes ≡ addresses cs
  pub stored : Stored s.heap cs
  pub below : Below s.fresh cs
  pub distinct : Distinct cs

abbrev pub is_stale : ℕ → Node → Bool
is_stale now n = ltb node_registration_timeout (now - n.registration_ts)

-- The cells whose node has been heard of in time.
unfoldable pub alive : ℕ → List Cell → List Cell
alive now [] = []
alive now (c ∷ cs) = if is_stale now c.1 then alive now cs else c ∷ alive now cs

-- A pong from `id` refreshes the first node with that id.
unfoldable pub touch : ℕ → ℕ → List Cell → List Cell
touch now id [] = []
touch now id (c ∷ cs) =
    if c.1.cluster_node_id == id
    then (c.0, record c.1 { registration_ts = now }) ∷ cs
    else c ∷ touch now id cs

-- The address of the first node with that id.
unfoldable pub first_of : ℕ → List Cell → Option ℕ
first_of id [] = none
first_of id (c ∷ cs) = if c.1.cluster_node_id == id then some c.0 else first_of id cs

unfoldable pub has_id : ℕ → List Cell → Bool
has_id id [] = false
has_id id (c ∷ cs) = if c.1.cluster_node_id == id then true else has_id id cs

pub load_lem : (h : Heap) (p : ℕ) {n : Node} → h p ≡ some n → load h p ≡ ok n
load_lem h p q = rw (q, load)

pub addresses-append : (cs ds : List Cell) → addresses (cs ++ ds) ≡ addresses cs ++ addresses ds
addresses-append [] ds = refl
addresses-append (c ∷ cs) ds = ap (λ t. c.0 ∷ t) (addresses-append cs ds)

-- What holds of both parts of a list holds of the whole.
pub All-append {ℓ μ} :
    {A : Type ℓ} (Q : A → Type μ) (us vs : List A) → All Q us → All Q vs → All Q (us ++ vs)
All-append Q [] vs first second = second
All-append Q (u ∷ us) vs first second = (first.0, All-append Q us vs first.1 second)

pub All-map {ℓ κ μ} :
    {A : Type ℓ} (P : A → Type κ) (Q : A → Type μ) (xs : List A)
    → ((x : A) → P x → Q x)
    → All P xs
    → All Q xs
All-map P Q [] f h = tt
All-map P Q (x ∷ xs) f h = (f x h.0, All-map P Q xs f h.1)

pub All-alive {κ} : (P : Cell → Type κ) (now : ℕ) (cs : List Cell) → All P cs → All P (alive now cs)
unfolding alive
All-alive P now [] h = tt
All-alive P now (c ∷ cs) h = elim (Bool-cases (is_stale now c.1)) [
  | inl stale ↦ rw stale (All-alive P now cs h.1)
  | inr live ↦ rw live (h.0, All-alive P now cs h.1)
]

pub Distinct-alive : (now : ℕ) (cs : List Cell) → Distinct cs → Distinct (alive now cs)
unfolding alive
Distinct-alive now [] h = tt
Distinct-alive now (c ∷ cs) h = elim (Bool-cases (is_stale now c.1)) [
  | inl stale ↦ rw stale (Distinct-alive now cs h.1)
  | inr live ↦ rw live (All-alive (λ (d : Cell). c.0 ≢ d.0) now cs h.0, Distinct-alive now cs h.1)
]

-- An address past all others can be added at the end.
pub Distinct-snoc :
    (fresh : ℕ) (n : Node) (cs : List Cell)
    → Below fresh cs
    → Distinct cs
    → Distinct (cs ++ ((fresh, n) ∷ []))
Distinct-snoc fresh n [] b h = (tt, tt)
Distinct-snoc fresh n (c ∷ cs) b h = (
  All-append (λ (d : Cell). c.0 ≢ d.0) cs ((fresh, n) ∷ []) h.0 (omega (arith, b.0), tt),
  Distinct-snoc fresh n cs b.1 h.1,
)
