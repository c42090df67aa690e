-- ===== src/Start/Fini.antt =====
-- `_skrumctld_fini` and `_skrumd_fini` of src/skrumctld/skrumctld.c and src/skrumd/skrumd.c, which
-- run after `_wait_for_all_threads`.
use deamon.Common.{
  ℕ, zero, suc, ◌≡◌, arith, refl, Bool, true, false, List, ◌∷◌, ◌++◌, if◌then◌else◌,
}
use deamon.Common.Outcome.{Outcome, ok, fault, locked_mutex, ◌>>=◌}
use deamon.Logs.Line.{Ended, returned, exited}
use deamon.Xcpuinfo.{CpuInfo, xcpuinfo_fini}
use deamon.Pthread.{Objects, ◌>>◌, skrum_mutex_call, or_fatal, skrum_cond_call, or_error}
use deamon.Monitor.{
  Monitor, Leaver, working, at_lock, at_count, finished, wait_asleep, Reached, next, locks,
  wait_expires, wait_timed_out, wait_signals, wait_unlocked, service_calls, service_leaves,
}
use deamon.Monitor.End.{Timely, threads_left, Reached-over}

-- What destroying `config_mutex`, the mutex of the count and its condition variable returns.
pub record Destroying : Type 0 where
  pub config_mutex : ℕ
  pub active_lock : ℕ
  pub active_cond : ℕ

-- What is left of the configuration and of the list of nodes; a daemon has no list.
pub record Remains : Type 0 where
  pub conf : Bool
  pub node_list : Bool

-- `_destroy_conf` of the daemon. Destroying a mutex that some thread has locked is undefined
-- behaviour; nobody locks `config_mutex`.
unfoldable pub destroy_deamon_conf :
    Destroying → Bool → Remains × Objects → Outcome (Ended (Unit {0}) × Remains × Objects)
unfolding skrum_mutex_call skrum_cond_call
destroy_deamon_conf d locked (left, o) =
    if left.conf
    then (let (first, o1) = skrum_mutex_call d.config_mutex o in
        elim first [
          | exited status ↦ ok (exited status, left, o1)
          | returned u ↦
              if locked
              then fault locked_mutex
              else (let (second, o2) =
                    skrum_mutex_call d.active_lock o1 >> λ o'. skrum_cond_call d.active_cond o' in
                  elim second [
                    | exited status ↦ ok (exited status, left, o2)
                    | returned v ↦ ok (returned tt, record left { conf = false }, o2)
                  ])
        ])
    else ok (returned tt, left, o)

-- `_destroy_conf` of the controller, whose list frees its nodes.
unfoldable pub destroy_ctld_conf :
    Destroying → Bool → Remains × Objects → Outcome (Ended (Unit {0}) × Remains × Objects)
unfolding destroy_deamon_conf
destroy_ctld_conf d locked (left, o) =
    destroy_deamon_conf d locked (if left.conf then record left { node_list = false } else left, o)

-- The result is what the process ended in, the static variables of xcpuinfo.c, and what is left.
unfoldable pub skrumctld_fini :
    Destroying → Bool → CpuInfo → Remains × Objects → Outcome (Ended (Unit {0}) × CpuInfo × Remains)
unfolding destroy_ctld_conf xcpuinfo_fini
skrumctld_fini d locked cpus s =
    destroy_ctld_conf d locked s >>= λ r. ok (r.0, (xcpuinfo_fini cpus).1, r.1)

unfoldable pub skrumd_fini :
    Destroying → Bool → CpuInfo → Remains × Objects → Outcome (Ended (Unit {0}) × CpuInfo × Remains)
unfolding destroy_deamon_conf xcpuinfo_fini
skrumd_fini d locked cpus s =
    destroy_deamon_conf d locked s >>= λ r. ok (r.0, (xcpuinfo_fini cpus).1, r.1)

abbrev pub ctld_there : Remains
ctld_there = record { conf = true; node_list = true }

abbrev pub deamon_there : Remains
deamon_there = record { conf = true; node_list = false }

abbrev pub nothing_left : Remains
nothing_left = record { conf = false; node_list = false }

-- The mutexes are destroyed without an error.
pub record IsClean (d : Destroying) : Type 0 where
  pub config_mutex : d.config_mutex ≡ 0
  pub active_lock : d.active_lock ≡ 0

destroyed :
    (a b c : ℕ) (locked : Bool) (o : Objects)
    → a ≡ 0
    → b ≡ 0
    → locked ≡ false
    → (t : Objects) × (destroy_deamon_conf
          (record { config_mutex = a; active_lock = b; active_cond = c })
          locked
          (deamon_there, o)
        ≡ ok (returned tt, nothing_left, t))
unfolding destroy_deamon_conf skrum_mutex_call or_fatal skrum_cond_call or_error
destroyed zero zero zero false o h k l = (_, refl)
destroyed zero zero (suc c) false o h k l = (_, refl)
destroyed (suc a) b c locked o h k l = absurd (omega (arith, h))
destroyed zero (suc b) c locked o h k l = absurd (omega (arith, k))
destroyed zero zero c true o h k l = cc

-- In a run in which the wait has not been given up, once the main thread has returned from
-- `_wait_for_all_threads`, and when the thread library destroys both mutexes, both programs come
-- to their end, with the configuration and the list of nodes freed, at a time when the mutex of
-- the count is unlocked and no thread is left that would touch it.
pub fini-over :
    (s : Monitor) (r : Reached s) (d : Destroying) (cpus : CpuInfo) (o : Objects)
    → Timely r
    → s.main ≡ finished
    → IsClean d
    → (threads_left s ≡ 0)
      × (skrumctld_fini d s.locked cpus (ctld_there, o)
          ≡ ok (returned tt, (xcpuinfo_fini cpus).1, nothing_left))
      × (skrumd_fini d s.locked cpus (deamon_there, o)
          ≡ ok (returned tt, (xcpuinfo_fini cpus).1, nothing_left))
unfolding skrumctld_fini skrumd_fini destroy_ctld_conf
fini-over s r d cpus o i here c =
    let (_, none_left, free) = Reached-over s r i here in
    let (t, run) =
      destroyed d.config_mutex d.active_lock d.active_cond s.locked o c.config_mutex c.active_lock
        free in
    (none_left, rw (skrumctld_fini, run), rw (skrumd_fini, run))

-- The main thread sleeps in `_wait_for_all_threads`, nobody holds the mutex, and a service thread is
-- still at work. From every such state the process can come to one in which the main thread has
-- given up the wait and returned, while that thread is between the locking and the unlocking of
-- the mutex, with the count as it was; and from there both programs, when `config_mutex` is
-- destroyed without an error, destroy the mutex of the count while it is locked.
pub fini_late :
    (s : Monitor) (before after : List Leaver) (d : Destroying) (cpus : CpuInfo) (o : Objects)
    → Reached s
    → s.main ≡ wait_asleep
    → s.locked ≡ false
    → s.services ≡ before ++ (working ∷ after)
    → d.config_mutex ≡ 0
    → (t : Monitor) × Reached t
      × (t.main ≡ finished)
      × (t.services ≡ before ++ (at_count ∷ after))
      × (t.active ≡ s.active)
      × (skrumctld_fini d t.locked cpus (ctld_there, o) ≡ fault locked_mutex)
      × (skrumd_fini d t.locked cpus (deamon_there, o) ≡ fault locked_mutex)
unfolding skrumctld_fini skrumd_fini destroy_ctld_conf destroy_deamon_conf skrum_mutex_call or_fatal
fini_late s before after d cpus o r asleep free at_work z =
    let run = refused d.config_mutex d.active_lock d.active_cond true z refl in
    (
      _,
      next _ _ (next _ _ given_up (service_calls before after at_work))
          (service_leaves before after at_lock at_count _ refl (locks refl)),
      refl,
      refl,
      refl,
      rw (skrumctld_fini, run),
      rw (skrumd_fini, run),
    )
  where
    -- The time limit has passed, and the main thread has taken and released the mutex.
    given_up : Reached (record s { locked = false; main = finished })
    given_up =
        next _ _
          (next _ _ (next _ _ (next _ _ r (wait_expires asleep)) (wait_timed_out refl free))
            (wait_signals refl))
          (wait_unlocked refl)

    refused :
        (a b c : ℕ) (locked : Bool)
        → a ≡ 0
        → locked ≡ true
        → destroy_deamon_conf
            (record { config_mutex = a; active_lock = b; active_cond = c })
            locked
            (deamon_there, o)
          ≡ fault locked_mutex
    refused zero b c true h k = refl
    refused (suc a) b c locked h k = absurd (omega (arith, h))
    refused zero b c false h k = cc
