-- ===== src/Controller/Ids/Different.antt =====
-- Ids that the registrations of the controller have given, all different.
use deamon.Common.{
  ℕ, ◌+◌, ◌≤◌, ◌<◌, ◌≡◌, ◌≢◌, List, [], ◌∷◌, ◌++◌, All, arith, ◌==◌, Bool-cases, inl, inr,
}
use deamon.Controller.{Node}
use deamon.Controller.Registry.{Cell, is_stale, alive, touch, All-append, All-map, All-alive}

-- Every id was given by one of the first `cnt` registrations, and no two nodes have one id.
abbrev pub Given : ℕ → List Cell → Type 0
Given cnt cs = All (λ (c : Cell). (0 < c.1.cluster_node_id) × (c.1.cluster_node_id ≤ cnt)) cs

abbrev pub Apart : List Cell → Type 0
Apart [] = Unit {0}
Apart (c ∷ cs) = All (λ (d : Cell). c.1.cluster_node_id ≢ d.1.cluster_node_id) cs × Apart cs

pub Given-snoc :
    (cnt : ℕ) (n : Node) (fresh : ℕ) (cs : List Cell)
    → n.cluster_node_id ≡ cnt + 1
    → Given cnt cs
    → Given (cnt + 1) (cs ++ ((fresh, n) ∷ []))
Given-snoc cnt n fresh cs q g =
    All-append (λ (c : Cell). (0 < c.1.cluster_node_id) × (c.1.cluster_node_id ≤ cnt + 1)) cs
      ((fresh, n) ∷ [])
      (All-map (λ (c : Cell). (0 < c.1.cluster_node_id) × (c.1.cluster_node_id ≤ cnt))
        (λ (c : Cell). (0 < c.1.cluster_node_id) × (c.1.cluster_node_id ≤ cnt + 1)) cs
        (λ c h. (h.0, omega (arith, h.1))) g)
      ((omega (arith, q), omega (arith, q)), tt)

pub Apart-snoc :
    (cnt : ℕ) (n : Node) (fresh : ℕ) (cs : List Cell)
    → n.cluster_node_id ≡ cnt + 1
    → Given cnt cs
    → Apart cs
    → Apart (cs ++ ((fresh, n) ∷ []))
Apart-snoc cnt n fresh [] q g a = (tt, tt)
Apart-snoc cnt n fresh (c ∷ cs) q g a = (
  All-append (λ (d : Cell). c.1.cluster_node_id ≢ d.1.cluster_node_id) cs ((fresh, n) ∷ []) a.0
      ((λ h. omega (arith, h, q, g.0.1)), tt),
  Apart-snoc cnt n fresh cs q g.1 a.1,
)

-- A pong changes no id.
pub All-ids-touch :
    (P : ℕ → Type 0) (now id : ℕ) (cs : List Cell)
    → All (λ (c : Cell). P c.1.cluster_node_id) cs
    → All (λ (c : Cell). P c.1.cluster_node_id) (touch now id cs)
unfolding touch
All-ids-touch P now id [] h = tt
All-ids-touch P now id (c ∷ cs) h = elim (Bool-cases (c.1.cluster_node_id == id)) [
  | inl here ↦ rw here h
  | inr away ↦ rw away (h.0, All-ids-touch P now id cs h.1)
]

pub Apart-touch : (now id : ℕ) (cs : List Cell) → Apart cs → Apart (touch now id cs)
unfolding touch
Apart-touch now id [] h = tt
Apart-touch now id (c ∷ cs) h = elim (Bool-cases (c.1.cluster_node_id == id)) [
  | inl here ↦ rw here h
  | inr away ↦
      rw away
        (All-ids-touch (λ x. c.1.cluster_node_id ≢ x) now id cs h.0, Apart-touch now id cs h.1)
]

pub Apart-alive : (now : ℕ) (cs : List Cell) → Apart cs → Apart (alive now cs)
unfolding alive
Apart-alive now [] h = tt
Apart-alive now (c ∷ cs) h = elim (Bool-cases (is_stale now c.1)) [
  | inl stale ↦ rw stale (Apart-alive now cs h.1)
  | inr live ↦ rw live (
    All-alive (λ (d : Cell). c.1.cluster_node_id ≢ d.1.cluster_node_id) now cs h.0,
    Apart-alive now cs h.1,
  )
]
