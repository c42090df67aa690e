-- ===== src/Tests/Pools.antt =====
-- A run of the threads, and of the loop that accepts.
use deamon.Common.{◌≡◌, refl, true, false, none, some, [], ◌∷◌}
use deamon.Common.Outcome.{ok, fault, double_free}
use deamon.Threads.{
  increment_thread_cnt, checking, accepting, handling, finished, running, Pool, init_pool,
  signalled, discovery_started, checked, accept_done, Steps, done, more,
}
use deamon.Threads.Count.{counted}
use deamon.Threads.Drain.{Steps-drain}
use deamon.Engine.{msg_engine, msg_engine_outcomes}

-- One connection has been accepted, and the signal has come.
abbrev pool1 : Pool
pool1 = record { active = 1; main = checking; discovery = running; services = 0; shutdown = false }

abbrev pool2 : Pool
pool2 = record pool1 { main = accepting }

abbrev pool3 : Pool
pool3 = record pool1 { main = handling }

abbrev pool4 : Pool
pool4 = record pool3 { shutdown = true }

steps3 : Steps init_pool pool3
unfolding increment_thread_cnt
steps3 =
    more pool2 pool3
      (more pool1 pool2 (more init_pool pool1 done (discovery_started 1 refl refl)) (checked refl))
      (accept_done refl)

steps4 : Steps init_pool pool4
steps4 = more pool3 pool4 steps3 signalled

Steps-drain_example :
    (q : Pool) × Steps pool4 q
    × (q.active ≡ 0)
    × (q.services ≡ 0)
    × (counted q.discovery ≡ 0)
    × (q.main ≡ finished)
Steps-drain_example = Steps-drain pool4 steps4 refl

msg_engine_outcomes_example :
    (msg_engine false (some 5 ∷ none ∷ []) ≡ ok (5 ∷ []))
    × (msg_engine false (some 5 ∷ none ∷ none ∷ some 6 ∷ []) ≡ fault double_free)
msg_engine_outcomes_example = msg_engine_outcomes (5 ∷ []) true none (some 6 ∷ [])
