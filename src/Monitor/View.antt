-- ===== src/Monitor/View.antt =====
-- What `Threads` sees of a state at the grain of the mutex.
use deamon.Common.{ℕ, ◌+◌, ◌≡◌, refl, Bool, true, false, Option, none, some, if◌then◌else◌}
use deamon.Threads
use deamon.Threads.{
  max_threads, increment_thread_cnt, decrement_thread_cnt, Pool, init_pool, Step, Steps, done, more,
  Discovery, absent, running, ended,
}
use deamon.Monitor.{
  Leaver, working, at_lock, at_count, Caller, engine, connection, Phase, inc_lock, inc_test,
  inc_asleep, inc_unlock, create, checking, accepting, wait_lock, wait_test, wait_asleep, wait_late,
  wait_signal, wait_unlock, finished, Monitor, woken,
}
use deamon.Monitor.Tally.{total}

-- What `Threads` sees of the main thread: where it is, and the threads that it has counted and not
-- yet created.
pub record View : Type 0 where
  pub at : deamon.Threads.Main
  pub started : Bool
  pub born : ℕ

abbrev pub seen : deamon.Threads.Main → View
seen m = record { at = m; started = false; born = 0 }

-- Before the count, and after it.
abbrev pub before_count : Caller → View
before_count engine = seen deamon.Threads.starting
before_count connection = seen deamon.Threads.handling

abbrev pub after_count : Caller → View
after_count engine = record { at = deamon.Threads.checking; started = true; born = 0 }
after_count connection = record { at = deamon.Threads.checking; started = false; born = 1 }

abbrev pub view : Phase → View
view (inc_lock c) = before_count c
view (inc_test c) = before_count c
view (inc_asleep c) = before_count c
view (inc_unlock c) = after_count c
view (create c) = after_count c
view checking = seen deamon.Threads.checking
view accepting = seen deamon.Threads.accepting
view wait_lock = seen deamon.Threads.waiting
view wait_test = seen deamon.Threads.waiting
view wait_asleep = seen deamon.Threads.waiting
view wait_late = seen deamon.Threads.waiting
view wait_signal = seen deamon.Threads.finished
view wait_unlock = seen deamon.Threads.finished
view finished = seen deamon.Threads.finished

-- A thread counts until it has lowered the count.
abbrev pub present : Leaver → ℕ
present working = 1
present at_lock = 1
present at_count = 1
present l = 0

abbrev pub discovery_of : Leaver → Discovery
discovery_of working = running
discovery_of at_lock = running
discovery_of at_count = running
discovery_of l = ended

abbrev pub discovery_seen : Bool → Option Leaver → Discovery
discovery_seen started none = if started then running else absent
discovery_seen started (some l) = discovery_of l

abbrev pub pool_of : View → Monitor → Pool
pool_of v s = record {
  active = s.active;
  main = v.at;
  discovery = discovery_seen v.started s.discovery;
  services = total present s.services + v.born;
  shutdown = s.shutdown;
}

-- The pool of threads that a state is one of.
abbrev pub pool : Monitor → Pool
pool s = pool_of (view s.main) s

pub view-woken : (m : Phase) → view (woken m) ≡ view m
view-woken (inc_asleep c) = refl
view-woken wait_asleep = refl
view-woken _ = refl
