-- ===== src/Monitor.antt =====
-- `_increment_thread_cnt`, `_decrement_thread_cnt` and `_wait_for_all_threads` of
-- src/skrumctld/skrumctld.c and src/skrumd/skrumd.c at the grain of their mutex and condition
-- variable. The other steps of the threads are those of `Threads`.
pub mod Tally
pub mod Leaving
pub mod Guard
pub mod View
pub mod Refine
pub mod Remaining
pub mod End
use deamon.Common.{
  ℕ, zero, suc, ◌+◌, ◌≤◌, ◌<◌, ◌≡◌, Bool, true, false, Option, none, some, List, [], ◌∷◌, ◌++◌,
  if◌then◌else◌,
}
use deamon.Threads.{increment_thread_cnt, decrement_thread_cnt}

-- Where a service thread or the discovery thread is: before `_decrement_thread_cnt`, at its four
-- statements, past it. The statements from the second to the last run under the mutex.
pub data Leaver : Type 0 where
  working at_lock at_count at_signal at_unlock left : Leaver

-- Which call of `_increment_thread_cnt`: that of `main`, or that of `_handle_connection`.
pub data Caller : Type 0 where
  engine connection : Caller

-- Where the main thread is. In `_increment_thread_cnt`: about to take the mutex, which it also is
-- after a wake-up, at the test under the mutex, asleep, about to release the mutex; then about to
-- create the thread. In `_wait_for_all_threads` likewise; `wait_late` is past the time limit and
-- about to take the mutex again.
pub data Phase : Type 0 where
  inc_lock inc_test inc_asleep inc_unlock create : Caller → Phase
  checking accepting : Phase
  wait_lock wait_test wait_asleep wait_late wait_signal wait_unlock finished : Phase

-- The shared variables, and where each thread is.
pub record Monitor : Type 0 where
  pub locked : Bool
  pub active : ℕ
  pub shutdown : Bool
  pub main : Phase
  pub discovery : Option Leaver
  pub services : List Leaver

abbrev pub init_monitor : Monitor
init_monitor = record {
  locked = false;
  active = 0;
  shutdown = false;
  main = inc_lock engine;
  discovery = none;
  services = [];
}

-- A signal of the condition variable; only the main thread ever waits on it.
abbrev pub woken : Phase → Phase
woken (inc_asleep c) = inc_lock c
woken wait_asleep = wait_lock
woken m = m

-- The statements of `_decrement_thread_cnt`: what each does to the shared variables.
pub data Leaves (s : Monitor) : Leaver → Leaver → Monitor → Type 0 where
  locks : s.locked ≡ false → Leaves s at_lock at_count (record s { locked = true })
  counts : Leaves s at_count at_signal (record s { active = decrement_thread_cnt s.active })
  signals : Leaves s at_signal at_unlock (record s { main = woken s.main })
  unlocks : Leaves s at_unlock left (record s { locked = false })

-- One step of one thread.
pub data Moves (s : Monitor) : Monitor → Type 0 where
  signalled : Moves s (record s { shutdown = true })
  -- `_increment_thread_cnt`
  inc_locked :
      (c : Caller)
      → s.main ≡ inc_lock c
      → s.locked ≡ false
      → Moves s (record s { locked = true; main = inc_test c })
  inc_sleeps :
      (c : Caller)
      → s.main ≡ inc_test c
      → increment_thread_cnt s.active ≡ none
      → Moves s (record s { locked = false; main = inc_asleep c })
  inc_counts :
      (c : Caller) (n : ℕ)
      → s.main ≡ inc_test c
      → increment_thread_cnt s.active ≡ some n
      → Moves s (record s { active = n; main = inc_unlock c })
  inc_unlocked :
      (c : Caller) → s.main ≡ inc_unlock c → Moves s (record s { locked = false; main = create c })
  -- pthread_cond_wait may return without a signal
  wakes : Moves s (record s { main = woken s.main })
  discovery_created :
      s.main ≡ create engine → Moves s (record s { main = checking; discovery = some working })
  service_created :
      s.main ≡ create connection
      → Moves s (record s { main = checking; services = working ∷ s.services })
  -- `_msg_engine`
  checked :
      s.main ≡ checking → Moves s (record s { main = if s.shutdown then wait_lock else accepting })
  accept_failed : s.main ≡ accepting → Moves s (record s { main = checking })
  accept_done : s.main ≡ accepting → Moves s (record s { main = inc_lock connection })
  -- `_wait_for_all_threads`
  wait_locked :
      s.main ≡ wait_lock → s.locked ≡ false → Moves s (record s { locked = true; main = wait_test })
  wait_sleeps :
      s.main ≡ wait_test → 0 < s.active → Moves s (record s { locked = false; main = wait_asleep })
  wait_ends : s.main ≡ wait_test → s.active ≡ 0 → Moves s (record s { main = wait_signal })
  wait_expires : s.main ≡ wait_asleep → Moves s (record s { main = wait_late })
  wait_timed_out :
      s.main ≡ wait_late
      → s.locked ≡ false
      → Moves s (record s { locked = true; main = wait_signal })
  wait_signals : s.main ≡ wait_signal → Moves s (record s { main = wait_unlock })
  wait_unlocked : s.main ≡ wait_unlock → Moves s (record s { locked = false; main = finished })
  -- a service thread calls `_decrement_thread_cnt`; the discovery thread does so after its loop
  service_calls :
      (before after : List Leaver)
      → s.services ≡ before ++ (working ∷ after)
      → Moves s (record s { services = before ++ (at_lock ∷ after) })
  service_leaves :
      (before after : List Leaver) (l l' : Leaver) (t : Monitor)
      → s.services ≡ before ++ (l ∷ after)
      → Leaves s l l' t
      → Moves s (record t { services = before ++ (l' ∷ after) })
  discovery_calls :
      s.discovery ≡ some working
      → s.shutdown ≡ true
      → Moves s (record s { discovery = some at_lock })
  discovery_leaves :
      (l l' : Leaver) (t : Monitor)
      → s.discovery ≡ some l
      → Leaves s l l' t
      → Moves s (record t { discovery = some l' })

-- Any number of steps from the start of the process.
pub data Reached : Monitor → Type 0 where
  start : Reached init_monitor
  next : (s t : Monitor) → Reached s → Moves s t → Reached t
