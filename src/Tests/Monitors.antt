-- ===== src/Tests/Monitors.antt =====
-- Runs of the threads at the grain of the mutex: one that ends in time, and one in which a
-- service thread is still at work.
use deamon.Common.{◌+◌, ◌≤◌, ◌<◌, ◌≡◌, ◌⊎◌, refl, arith, true, false, some, [], ◌∷◌}
use deamon.Common.Outcome.{ok, fault, locked_mutex}
use deamon.Logs.Line.{returned}
use deamon.Xcpuinfo.{init_info, xcpuinfo_fini}
use deamon.Threads.{max_threads, increment_thread_cnt, decrement_thread_cnt, init_pool, Steps}
use deamon.Threads.Count.{counted}
use deamon.Pthread.{Objects}
use deamon.Monitor.{
  working, wait_lock, wait_asleep, at_lock, at_count, at_signal, at_unlock, left, engine, finished,
  Monitor, locks, counts, signals, unlocks, Moves, signalled, inc_locked, inc_counts, inc_unlocked,
  discovery_created, service_created, accept_done, connection, checked, wait_locked, wait_sleeps,
  wait_ends, wait_signals, wait_unlocked, discovery_calls, discovery_leaves, Reached, start, next,
}
use deamon.Monitor.Tally.{holders}
use deamon.Monitor.Guard.{goes_on, holders-Reached, Reached-awake}
use deamon.Monitor.View.{present, view, pool}
use deamon.Monitor.Refine.{Steps-pool}
use deamon.Monitor.End.{threads_left}
use deamon.Monitor.Tally.{total}
use deamon.Start.Fini.{
  Destroying, ctld_there, deamon_there, nothing_left, skrumctld_fini, skrumd_fini, fini-over,
  fini_late,
}

abbrev step : {s t : Monitor} → Reached s → Moves s t → Reached t
step {s} {t} r m = next s t r m

-- Before the main thread takes the mutex to wait; the discovery thread runs, the signal has come.
abbrev state0 : Monitor
state0 = record {
  locked = false;
  active = 1;
  shutdown = true;
  main = wait_lock;
  discovery = some working;
  services = [];
}

unfoldable run0 : Reached state0
unfolding increment_thread_cnt
run0 =
    step
      (step
        (step
          (step (step (step start (inc_locked engine refl refl)) (inc_counts engine 1 refl refl))
            (inc_unlocked engine refl))
          (discovery_created refl))
        signalled)
      (checked refl)

-- The main thread sleeps, and the discovery thread has lowered the count.
abbrev state1 : Monitor
state1 = record state0 { locked = true; active = 0; main = wait_asleep; discovery = some at_signal }

unfoldable run1 : Reached state1
unfolding decrement_thread_cnt
run1 =
    step
      (step
        (step (step (step run0 (wait_locked refl refl)) (wait_sleeps refl (omega arith)))
          (discovery_calls refl refl))
        (discovery_leaves at_lock at_count _ refl (locks refl)))
      (discovery_leaves at_count at_signal _ refl counts)

-- It is woken and goes to its end.
abbrev state2 : Monitor
state2 = record state1 { locked = false; main = finished; discovery = some left }

unfoldable run2 : Reached state2
run2 =
    step
      (step
        (step
          (step
            (step (step run1 (discovery_leaves at_signal at_unlock _ refl signals))
              (discovery_leaves at_unlock left _ refl unlocks))
            (wait_locked refl refl))
          (wait_ends refl refl))
        (wait_signals refl))
      (wait_unlocked refl)

-- The main thread sleeps, and a service thread is at work besides the discovery thread.
abbrev state3 : Monitor
state3 = record state0 { active = 2; main = wait_asleep; services = working ∷ [] }

unfoldable run3 : Reached state3
unfolding increment_thread_cnt
run3 =
    step
      (step
        (step
          (step
            (step
              (step
                (step
                  (step
                    (step
                      (step
                        (step
                          (step
                            (step (step start (inc_locked engine refl refl))
                              (inc_counts engine 1 refl refl))
                            (inc_unlocked engine refl))
                          (discovery_created refl))
                        (checked refl))
                      (accept_done refl))
                    (inc_locked connection refl refl))
                  (inc_counts connection 2 refl refl))
                (inc_unlocked connection refl))
              (service_created refl))
            signalled)
          (checked refl))
        (wait_locked refl refl))
      (wait_sleeps refl (omega arith))

holders-Reached_example : (holders state1 ≡ 1) × (1 ≤ 1)
holders-Reached_example = holders-Reached state1 run1

Reached-awake_example : (goes_on wait_asleep 0 ≡ false) ⊎ (0 < 1)
Reached-awake_example = Reached-awake state1 run1 refl

Steps-pool_example :
    Steps init_pool (pool state1)
    × (0 ≡ total present [] + (view wait_asleep).born + counted (pool state1).discovery)
    × (0 ≤ max_threads)
Steps-pool_example = Steps-pool state1 run1

abbrev objects : Objects
objects = record { threads = 2 ∷ []; attrs = 0; errno = 0; lines = [] }

-- Destroying the condition variable fails, which is only logged.
abbrev destroying : Destroying
destroying = record { config_mutex = 0; active_lock = 0; active_cond = 16 }

fini-over_example :
    (threads_left state2 ≡ 0)
    × (skrumctld_fini destroying false init_info (ctld_there, objects)
        ≡ ok (returned tt, (xcpuinfo_fini init_info).1, nothing_left))
    × (skrumd_fini destroying false init_info (deamon_there, objects)
        ≡ ok (returned tt, (xcpuinfo_fini init_info).1, nothing_left))
unfolding run2 run1 run0
fini-over_example =
    fini-over state2 run2 destroying init_info objects
      (
        (
          (
            ((((((((((((((tt, tt), tt), tt), tt), tt), tt), tt), tt), tt), tt), tt), tt), tt), tt),
            tt,
          ),
          tt,
        ),
        tt,
      )
      refl (record { config_mutex = refl; active_lock = refl })

fini_late_example :
    (t : Monitor) × Reached t
    × (t.main ≡ finished)
    × (t.services ≡ at_count ∷ [])
    × (t.active ≡ 2)
    × (skrumctld_fini destroying t.locked init_info (ctld_there, objects) ≡ fault locked_mutex)
    × (skrumd_fini destroying t.locked init_info (deamon_there, objects) ≡ fault locked_mutex)
fini_late_example = fini_late state3 [] [] destroying init_info objects run3 refl refl refl refl
