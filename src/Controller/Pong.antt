-- ===== src/Controller/Pong.antt =====
-- `_resp_pong` of skrumctld_req.c.
use deamon.Common.{
  ==_refl, ==_ne, ℕ, ◌<◌, ◌≡◌, ◌≢◌, inl, inr, refl, sym, ap, ◌∙◌, Bool, true, false, none, some,
  List, [], ◌∷◌, ◌++◌, All, ◌==◌, if◌then◌else◌, Bool-cases, append_assoc, append-nil,
}
use mathlib.Core.Path.{subst}
use deamon.Common.Int.{pos, minus_one}
use deamon.Common.Outcome.{ok}
use deamon.Protocol.{SkrumMsg, to, deamon_pong, DeamonPongMsg}
use deamon.Nodes.{ListLib}
use deamon.Controller.{Node, Heap, store, Cluster, step_nodeid_match, resp_pong}
use deamon.Controller.Registry.{
  Cell, addresses, Stored, Distinct, IsRegistry, touch, has_id, first_of, load_lem,
}

match_lem :
    (h : Heap) (id p : ℕ) {n : Node}
    → h p ≡ some n
    → step_nodeid_match h id p ≡ (n.cluster_node_id == id)
match_lem h id p q = rw (q, step_nodeid_match)

pub store_lem : (h : Heap) (p : ℕ) (n : Node) → store h p n p ≡ some n
store_lem h p n = rw (==_refl p, store)

pub store_other : (h : Heap) (p q : ℕ) (n : Node) → p ≢ q → store h p n q ≡ h q
store_other h p q n ne = rw (==_ne p q ne, store)

-- A store to an address of no cell.
Stored-store :
    (h : Heap) (p : ℕ) (n : Node) (cs : List Cell)
    → All (λ (d : Cell). p ≢ d.0) cs
    → Stored h cs
    → Stored (store h p n) cs
Stored-store h p n [] f st = tt
Stored-store h p n (c ∷ cs) f st =
    (store_other h p c.0 n f.0 ∙ st.0, Stored-store h p n cs f.1 st.1)

addresses-touch : (now id : ℕ) (cs : List Cell) → addresses (touch now id cs) ≡ addresses cs
unfolding touch
addresses-touch now id [] = refl
addresses-touch now id (c ∷ cs) = elim (Bool-cases (c.1.cluster_node_id == id)) [
  | inl here ↦ rw here refl
  | inr away ↦ rw away (ap (λ xs. c.0 ∷ xs) (addresses-touch now id cs))
]

-- What is said of addresses alone is not changed.
All-touch :
    (P : ℕ → Type 0) (now id : ℕ) (cs : List Cell)
    → All (λ (c : Cell). P c.0) cs
    → All (λ (c : Cell). P c.0) (touch now id cs)
unfolding touch
All-touch P now id [] h = tt
All-touch P now id (c ∷ cs) h = elim (Bool-cases (c.1.cluster_node_id == id)) [
  | inl here ↦ rw here h
  | inr away ↦ rw away (h.0, All-touch P now id cs h.1)
]

Distinct-touch : (now id : ℕ) (cs : List Cell) → Distinct cs → Distinct (touch now id cs)
unfolding touch
Distinct-touch now id [] h = tt
Distinct-touch now id (c ∷ cs) h = elim (Bool-cases (c.1.cluster_node_id == id)) [
  | inl here ↦ rw here h
  | inr away ↦ rw away (All-touch (λ x. c.0 ≢ x) now id cs h.0, Distinct-touch now id cs h.1)
]

-- Where the first node with the id is, if there is one.
pub data Search (h : Heap) (now id : ℕ) (cs : List Cell) : Type 0 where
  missed :
      All (λ p. step_nodeid_match h id p ≡ false) (addresses cs)
      → has_id id cs ≡ false
      → first_of id cs ≡ none
      → touch now id cs ≡ cs
      → Search h now id cs
  hit :
      (before : List ℕ) (p : ℕ) (n : Node) (after : List ℕ)
      → addresses cs ≡ before ++ (p ∷ after)
      → All (λ q. step_nodeid_match h id q ≡ false) before
      → step_nodeid_match h id p ≡ true
      → h p ≡ some n
      → has_id id cs ≡ true
      → first_of id cs ≡ some p
      → ((x : ℕ) → All (λ (d : Cell). x ≢ d.0) cs → x ≢ p)
      → Stored (store h p (record n { registration_ts = now })) (touch now id cs)
      → Search h now id cs

pub Search-cells :
    (h : Heap) (now id : ℕ) (cs : List Cell) → Stored h cs → Distinct cs → Search h now id cs
unfolding touch has_id first_of
Search-cells h now id [] st di = missed tt refl refl refl
Search-cells h now id (c ∷ cs) st di = elim (Bool-cases (c.1.cluster_node_id == id)) [
  | inl here ↦
      hit [] c.0 c.1 (addresses cs) refl tt (match_lem h id c.0 st.0 ∙ here) st.0 (rw here refl)
        (rw here refl) (λ x f. f.0) (rw here (store_lem h c.0 _, Stored-store h c.0 _ cs di.0 st.1))
  | inr away ↦ later (Search-cells h now id cs st.1 di.1) (match_lem h id c.0 st.0 ∙ away) away
]
  where
    later :
        Search h now id cs
        → step_nodeid_match h id c.0 ≡ false
        → (c.1.cluster_node_id == id) ≡ false
        → Search h now id (c ∷ cs)
    later (missed m absent nowhere same) f ne =
        missed (f, m) (rw (ne, absent)) (rw (ne, nowhere)) (rw ne (ap (λ ds. c ∷ ds) same))
    later (hit b p n a q m y at present first apart st') f ne =
        hit (c.0 ∷ b) p n a (ap (λ xs. c.0 ∷ xs) q) (f, m) y at (rw (ne, present)) (rw (ne, first))
          (λ x g. apart x g.1)
          (rw ne (store_other h p c.0 _ (λ r. apart c.0 di.0 (sym r)) ∙ st.0, st'))

-- A pong is answered with 0 just when a node with its id is on the list, and then that node (the
-- first one, if the ids repeat) has been heard of now; otherwise the result is -1 and the nodes
-- are as before. The call returns in both cases.
pub resp_pong-touch :
    (lib : ListLib) (now : ℕ) (msg : SkrumMsg) (pong : DeamonPongMsg) (s : Cluster lib)
    → (cs : List Cell) → msg.data_ptr ≡ to (deamon_pong pong)
    → IsRegistry lib s cs
    → (s' : Cluster lib) × (resp_pong lib now msg s
        ≡ ok (if has_id pong.my_id cs then pos 0 else minus_one, s'))
      × IsRegistry lib s' (touch now pong.my_id cs)
      × (s'.node_cnt ≡ s.node_cnt)
unfolding resp_pong
resp_pong-touch lib now msg pong s cs d r =
    go (Search-cells s.heap now pong.my_id cs r.stored r.distinct)
  where
    open lib use {L, At}

    itr : lib.I × L
    itr = lib.list_iterator_create s.nodes

    matches : ℕ → Bool
    matches = step_nodeid_match s.heap pong.my_id

    after : L
    after = lib.list_iterator_destroy itr.0 (lib.list_find itr.0 matches itr.1).1

    start : At itr.1 itr.0 [] (addresses cs)
    start = subst (λ (x : List ℕ). At itr.1 itr.0 [] x) r.listed (lib.iterator_At s.nodes)

    go :
        Search s.heap now pong.my_id cs
        → (s' : Cluster lib) × (resp_pong lib now msg s
            ≡ ok (if has_id pong.my_id cs then pos 0 else minus_one, s'))
          × IsRegistry lib s' (touch now pong.my_id cs)
          × (s'.node_cnt ≡ s.node_cnt)
    go (missed m absent nowhere same) =
        let (q, at) = lib.find_miss itr.1 itr.0 matches [] (addresses cs) start m in
        (
          record s { nodes = after },
          unfold resp_pong in rw (d, q, absent),
          rw same (record {
            listed =
                lib.destroy_items itr.0 _
                ∙ lib.At_items _ itr.0 (addresses cs) [] at
                ∙ append-nil (addresses cs);
            stored = r.stored;
            below = r.below;
            distinct = r.distinct;
          }),
          refl,
        )
    go (hit b p n a q m y at present first apart st) =
        let (f, ret) =
          lib.find_hit itr.1 itr.0 matches [] b p a
            (subst (λ (x : List ℕ). At itr.1 itr.0 [] x) q start) m y in
        (
          record s { nodes = after; heap = store s.heap p (record n { registration_ts = now }) },
          unfold resp_pong in rw (d, f, load_lem s.heap p at, present),
          record {
            listed =
                lib.destroy_items itr.0 _
                ∙ lib.At_items _ itr.0 (b ++ (p ∷ [])) a (lib.keep_returned _ itr.0 b p a ret)
                ∙ append_assoc b (p ∷ []) a
                ∙ sym q
                ∙ sym (addresses-touch now pong.my_id cs);
            stored = st;
            below = All-touch (λ x. x < s.fresh) now pong.my_id cs r.below;
            distinct = Distinct-touch now pong.my_id cs r.distinct;
          },
          refl,
        )
