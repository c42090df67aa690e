-- ===== src/Controller/Overlap/Refreshed.antt =====
-- What `_resp_pong` does to the list when other handlers run between its search and its write.
use deamon.Common.{
  ℕ, ◌<◌, ◌≡◌, ◌≢◌, arith, inl, inr, refl, sym, ap, ◌∙◌, Bool, Option, none, some, List, [], ◌∷◌,
  All, ◌==◌, if◌then◌else◌,
}
use mathlib.Core.Path.{subst}
use deamon.Common.Int.{ℤ, pos, minus_one}
use deamon.Common.Outcome.{ok}
use deamon.Nodes.{ListLib}
use deamon.Controller.{Node, Heap, store, Cluster, step_nodeid_match}
use deamon.Controller.Registry.{
  Cell, addresses, Stored, Distinct, IsRegistry, has_id, first_of, load_lem,
}
use deamon.Controller.Pong.{Search, missed, hit, Search-cells}
use deamon.Controller.Overlap.{pong_find, pong_write, Meanwhile}
use deamon.Controller.Overlap.Kept.{equal_or_not, Lives, Lives-Meanwhile}

-- The node at an address is heard of now, if it is on the list.
abbrev pub refresh : ℕ → ℕ → List Cell → List Cell
refresh now p [] = []
refresh now p (c ∷ cs) =
    (c.0, if p == c.0 then record c.1 { registration_ts = now } else c.1) ∷ refresh now p cs

abbrev pub refreshed : ℕ → Option ℕ → List Cell → List Cell
refreshed now none cs = cs
refreshed now (some p) cs = refresh now p cs

addresses-refresh : (now p : ℕ) (cs : List Cell) → addresses (refresh now p cs) ≡ addresses cs
addresses-refresh now p [] = refl
addresses-refresh now p (c ∷ cs) = ap (λ xs. c.0 ∷ xs) (addresses-refresh now p cs)

All-refresh :
    (P : ℕ → Type 0) (now p : ℕ) (cs : List Cell)
    → All (λ (c : Cell). P c.0) cs
    → All (λ (c : Cell). P c.0) (refresh now p cs)
All-refresh P now p [] h = tt
All-refresh P now p (c ∷ cs) h = (h.0, All-refresh P now p cs h.1)

Distinct-refresh : (now p : ℕ) (cs : List Cell) → Distinct cs → Distinct (refresh now p cs)
Distinct-refresh now p [] h = tt
Distinct-refresh now p (c ∷ cs) h =
    (All-refresh (λ x. c.0 ≢ x) now p cs h.0, Distinct-refresh now p cs h.1)

Stored-refresh :
    (h : Heap) (now p : ℕ) (n : Node) (cs : List Cell)
    → h p ≡ some n
    → Stored h cs
    → Stored (store h p (record n { registration_ts = now })) (refresh now p cs)
Stored-refresh h now p n [] at st = tt
Stored-refresh h now p n (c ∷ cs) at st = (here, Stored-refresh h now p n cs at st.1)
  where
    put : Node → Node
    put m = record m { registration_ts = now }

    same : p ≡ c.0 → n ≡ c.1
    same e = let both : some n ≡ some c.1 = sym at ∙ ap h e ∙ st.0 in cc

    here : store h p (put n) c.0 ≡ some (if p == c.0 then put c.1 else c.1)
    here = elim (equal_or_not p c.0) [
      | inl e ↦ ground (arith, ap put (same e))
      | inr ne ↦ ground (arith, st.0)
    ]

-- The return value, and what the write needs of the heap.
abbrev answer : Option ℕ → ℤ
answer none = minus_one
answer (some p) = pos 0

abbrev LivesFound : ListLib → Option ℕ → Heap → Type 0
LivesFound lib none h = Unit {0}
LivesFound lib (some p) h = Lives lib p h

pong_write-refreshed :
    (lib : ListLib) (now : ℕ) (found : Option ℕ) (itr : lib.I) (t : Cluster lib) (ds : List Cell)
    → IsRegistry lib t ds
    → LivesFound lib found t.heap
    → (u : Cluster lib) × (pong_write lib now found itr t ≡ ok (answer found, u))
      × IsRegistry lib u (refreshed now found ds)
      × (u.node_cnt ≡ t.node_cnt)
unfolding pong_write
pong_write-refreshed lib now none itr t ds g a = (
  _,
  refl,
  record {
    listed = lib.destroy_items itr t.nodes ∙ g.listed;
    stored = g.stored;
    below = g.below;
    distinct = g.distinct;
  },
  refl,
)
pong_write-refreshed lib now (some p) itr t ds g (n, at) = (
  record t {
    nodes = lib.list_iterator_destroy itr t.nodes;
    heap = store t.heap p (record n { registration_ts = now });
  },
  rw (load_lem t.heap p at) refl,
  record {
    listed = lib.destroy_items itr t.nodes ∙ g.listed ∙ sym (addresses-refresh now p ds);
    stored = Stored-refresh t.heap now p n ds at g.stored;
    below = All-refresh (λ x. x < t.fresh) now p ds g.below;
    distinct = Distinct-refresh now p ds g.distinct;
  },
  refl,
)

-- Between the search of `_resp_pong` and its write the other threads may run any number of handlers
-- to their ends. The search finds the first node with the id, and the write then goes through:
-- no node has been freed. The result is 0 just when there was such a node; that node, if it still
-- is on the list then, has been heard of now, and nothing else on the list changes. In particular
-- a node that has been taken off in between stays off, though the result is 0.
pub pong_overlapped :
    (lib : ListLib) (now id : ℕ) (s t : Cluster lib) (cs ds : List Cell)
    → IsRegistry lib s cs
    → Meanwhile lib (pong_find lib id s).2 t
    → IsRegistry lib t ds
    → ((pong_find lib id s).0 ≡ first_of id cs)
      × (u : Cluster lib) × (pong_write lib now (pong_find lib id s).0 (pong_find lib id s).1 t
          ≡ ok (if has_id id cs then pos 0 else minus_one, u))
      × IsRegistry lib u (refreshed now (first_of id cs) ds)
      × (u.node_cnt ≡ t.node_cnt)
unfolding pong_find
pong_overlapped lib now id s t cs ds r m g = go (Search-cells s.heap now id cs r.stored r.distinct)
  where
    itr : lib.I × lib.L
    itr = lib.list_iterator_create s.nodes

    matches : ℕ → Bool
    matches = step_nodeid_match s.heap id

    start : lib.At itr.1 itr.0 [] (addresses cs)
    start = subst (λ (x : List ℕ). lib.At itr.1 itr.0 [] x) r.listed (lib.iterator_At s.nodes)

    finish :
        (found first : Option ℕ) (has : Bool)
        → found ≡ first
        → (if has then pos 0 else minus_one) ≡ answer first
        → LivesFound lib first t.heap
        → (found ≡ first)
          × (u : Cluster lib) × (pong_write lib now found itr.0 t
              ≡ ok (if has then pos 0 else minus_one, u))
          × IsRegistry lib u (refreshed now first ds)
          × (u.node_cnt ≡ t.node_cnt)
    finish found first has e a f =
        let (u, q, i, c) = pong_write-refreshed lib now first itr.0 t ds g f in
        (e, u, rw (e, a) q, i, c)

    go :
        Search s.heap now id cs
        → ((pong_find lib id s).0 ≡ first_of id cs)
          × (u : Cluster lib) × (pong_write lib now (pong_find lib id s).0 itr.0 t
              ≡ ok (if has_id id cs then pos 0 else minus_one, u))
          × IsRegistry lib u (refreshed now (first_of id cs) ds)
          × (u.node_cnt ≡ t.node_cnt)
    go (missed none_has absent nowhere _) =
        let (q, _) = lib.find_miss itr.1 itr.0 matches [] (addresses cs) start none_has in
        finish _ (first_of id cs) (has_id id cs) (q ∙ sym nowhere) (rw (absent, nowhere) refl)
          (rw nowhere tt)
    go (hit b p n a q none_has y at present first _ _) =
        let (f, _) =
          lib.find_hit itr.1 itr.0 matches [] b p a
            (subst (λ (x : List ℕ). lib.At itr.1 itr.0 [] x) q start) none_has y in
        finish _ (first_of id cs) (has_id id cs) (f ∙ sym first) (rw (present, first) refl)
          (rw first (Lives-Meanwhile lib p _ t m (n, at)))
