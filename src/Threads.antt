-- ===== src/Threads.antt =====
-- The threads of skrumctld and of skrumd: src/skrumctld/skrumctld.c and src/skrumd/skrumd.c hold
-- the same code for them. The functions on the count run under one mutex, so each is one step.
pub mod Count
pub mod Drain
use deamon.Common.{
  ℕ, zero, suc, ◌+◌, ◌-◌, ◌≤◌, ◌<◌, Bool, true, false, Option, none, some, ◌≡◌, ltb, if◌then◌else◌,
}

-- CONT_MAXTHREADS and MAXTHREADS.
abbrev pub max_threads : ℕ
max_threads = 4

-- `_increment_thread_cnt`: none while the thread waits on the condition variable.
unfoldable pub increment_thread_cnt : ℕ → Option ℕ
increment_thread_cnt active = if ltb active max_threads then some (active + 1) else none

unfoldable pub decrement_thread_cnt : ℕ → ℕ
decrement_thread_cnt active = if ltb 0 active then active - 1 else active

-- Where the main thread is: before its first increment, at the head of the loop of
-- `_msg_engine`, in `skrum_accept`, in `_handle_connection`, in `_wait_for_all_threads`, past it.
pub data Main : Type 0 where
  starting checking accepting handling waiting finished : Main

-- The thread of `_discovery_engine`.
pub data Discovery : Type 0 where
  absent running ended : Discovery

-- The count, the two engines, the number of service threads that have not returned, and the flag
-- that the signal handler sets.
pub record Pool : Type 0 where
  pub active : ℕ
  pub main : Main
  pub discovery : Discovery
  pub services : ℕ
  pub shutdown : Bool

abbrev pub init_pool : Pool
init_pool = record {
  active = 0;
  main = starting;
  discovery = absent;
  services = 0;
  shutdown = false;
}

-- One step of one thread.
pub data Step (p : Pool) : Pool → Type 0 where
  -- `_skrumctld_shutdown`, `_skrumd_shutdown` on one of the two signals
  signalled : Step p (record p { shutdown = true })
  -- `main` counts the discovery thread, then creates it
  discovery_started :
      (n : ℕ)
      → p.main ≡ starting
      → increment_thread_cnt p.active ≡ some n
      → Step p (record p { active = n; main = checking; discovery = running })
  -- the head of the loop
  checked :
      p.main ≡ checking → Step p (record p { main = if p.shutdown then waiting else accepting })
  accept_failed : p.main ≡ accepting → Step p (record p { main = checking })
  accept_done : p.main ≡ accepting → Step p (record p { main = handling })
  -- `_handle_connection` counts the thread of `_service_connection`, then creates it
  connection_handled :
      (n : ℕ)
      → p.main ≡ handling
      → increment_thread_cnt p.active ≡ some n
      → Step p (record p { active = n; main = checking; services = suc p.services })
  -- the end of `_service_connection`
  connection_serviced :
      (k : ℕ)
      → p.services ≡ suc k
      → Step p (record p { active = decrement_thread_cnt p.active; services = k })
  -- the end of `_discovery_engine`
  discovery_ended :
      p.discovery ≡ running
      → p.shutdown ≡ true
      → Step p (record p { active = decrement_thread_cnt p.active; discovery = ended })
  all_complete : p.main ≡ waiting → p.active ≡ 0 → Step p (record p { main = finished })
  -- `_wait_for_all_threads` gives up
  timed_out : p.main ≡ waiting → 0 < p.active → Step p (record p { main = finished })

-- Any number of steps.
pub data Steps (p : Pool) : Pool → Type 0 where
  done : Steps p p
  more : (q r : Pool) → Steps p q → Step q r → Steps p r
