-- ===== src/Controller/Race.antt =====
-- src/skrumctld/skrumctld_req.c: `nnode->cluster_node_id = ++node_cnt` of `_register_cluster_node` in
-- two service threads at the same time. Nothing guards the counter: a thread loads it, stores the
-- next number and then has the id, in three steps. Compiled without optimisation, as by the
-- Makefile, the code loads the counter once more for the id; an optimising compiler keeps the number.
pub mod Ends
pub mod Ids
use deamon.Common.{ℕ, ◌+◌, ◌%◌, ◌^◌, Bool, true, false, ◌&&◌, List, [], ◌∷◌}

-- Where a thread is: before the statement, after it has loaded the counter, after it has stored the
-- next number, past it with the id of its node.
pub data Registering : Type 0 where
  entering : Registering
  counted : ℕ → Registering
  stored : ℕ → Registering
  numbered : ℕ → Registering

pub record Race : Type 0 where
  pub node_cnt : ℕ
  pub first : Registering
  pub second : Registering

-- The number for the id: the counter once more, or what the thread has stored.
abbrev pub loaded : Bool → ℕ → ℕ → ℕ
loaded true cnt n = cnt
loaded false cnt n = n

-- One step of a thread: the thread, and the counter. `reload` says whether the code loads the counter
-- again.
unfoldable pub register_step : Bool → Registering → ℕ → Registering × ℕ
register_step reload entering cnt = (counted cnt, cnt)
register_step reload (counted n) cnt = (stored (n + 1), n + 1)
register_step reload (stored n) cnt = (numbered (loaded reload cnt n % 2 ^ 16), cnt)
register_step reload (numbered id) cnt = (numbered id, cnt)

-- A schedule says which thread moves, the first one on true.
unfoldable pub race : Bool → List Bool → Race → Race
unfolding register_step
race reload [] r = r
race reload (true ∷ schedule) r =
    let (t, cnt) = register_step reload r.first r.node_cnt in
    race reload schedule (record r { node_cnt = cnt; first = t })
race reload (false ∷ schedule) r =
    let (t, cnt) = register_step reload r.second r.node_cnt in
    race reload schedule (record r { node_cnt = cnt; second = t })

abbrev pub init_race : ℕ → Race
init_race n = record { node_cnt = n; first = entering; second = entering }

-- Both are through.
abbrev pub done : Registering → Bool
done (numbered id) = true
done x = false

abbrev pub is_through : Race → Bool
is_through r = done r.first && done r.second
