-- ===== src/Monitor/End.antt =====
-- `_wait_for_all_threads` returns after the last thread is through with the mutex.
use deamon.Common.{
  ℕ, ◌+◌, ◌≤◌, ◌≡◌, ap, Bool, true, false, some, List, ◌∷◌, ◌++◌, arith, if◌then◌else◌,
}
use mathlib.Core.Path.{subst}
use deamon.Threads.Count.{counted}
use deamon.Monitor.{
  Leaver, working, Phase, inc_asleep, accepting, wait_lock, wait_asleep, wait_signal, wait_unlock,
  finished, Monitor, woken, Leaves, locks, counts, signals, unlocks, Moves, signalled, wakes,
  checked, wait_ends, wait_timed_out, wait_signals, wait_unlocked, service_calls, service_leaves,
  discovery_calls, discovery_leaves, Reached, start, next,
}
use deamon.Monitor.Tally.{total, total_option, total-++, inside_main, bit}
use deamon.Monitor.Guard.{IsGuarded-Reached}
use deamon.Monitor.View.{view, discovery_seen}
use deamon.Monitor.Refine.{Steps-pool}
use deamon.Monitor.Remaining.{
  remaining, total-remaining-le, discovery-remaining-le, total-present-le, counted-le,
  total-inside-le, inside_option-le, bit-zero,
}

abbrev pub threads_left : Monitor → ℕ
threads_left s = total_option remaining s.discovery + total remaining s.services

-- The wait has not been given up.
abbrev pub InTime : {s t : Monitor} → Moves s t → Type 0
InTime (wait_timed_out here free) = ⊥
InTime _ = Unit {0}

abbrev pub Timely : {s : Monitor} → Reached s → Type 0
Timely start = Unit
Timely (next s t before move) = Timely before × InTime move

-- The main thread has left the loop of `_wait_for_all_threads`.
abbrev pub Over : Phase → ℕ → Type 0
Over wait_signal n = n ≡ 0
Over wait_unlock n = n ≡ 0
Over finished n = n ≡ 0
Over m n = Unit {0}

Over-busy : (m : Phase) (n k : ℕ) → 1 ≤ n → Over m n → Over m k
Over-busy wait_signal n k h o = absurd (omega (arith, h, o))
Over-busy wait_unlock n k h o = absurd (omega (arith, h, o))
Over-busy finished n k h o = absurd (omega (arith, h, o))
Over-busy _ n k h o = tt

Over-woken : (m : Phase) (n : ℕ) → Over m n → Over (woken m) n
Over-woken (inc_asleep c) n o = tt
Over-woken wait_asleep n o = tt
Over-woken wait_signal n o = o
Over-woken wait_unlock n o = o
Over-woken finished n o = o
Over-woken _ n o = tt

module _ (s : Monitor) (r : Reached s) where
  -- A count of 0 that is read under the mutex.
  none_left : inside_main s.main ≡ 1 → s.active ≡ 0 → threads_left s ≡ 0
  none_left here z =
      let (_, exact, _) = Steps-pool s r in
      omega (
        arith,
        here,
        z,
        exact,
        (IsGuarded-Reached s r).exclusive,
        at_most s.locked,
        total-remaining-le s.services,
        discovery-remaining-le (view s.main).started s.discovery,
      )
    where
      at_most : (b : Bool) → bit b ≤ 1
      at_most true = omega arith
      at_most false = omega arith

  Over-Leaves :
      (l l' : Leaver) (t : Monitor) (n k : ℕ)
      → Leaves s l l' t
      → remaining l ≤ n
      → Over s.main n
      → Over t.main k
  Over-Leaves _ _ _ n k (locks free) h o = Over-busy s.main n k h o
  Over-Leaves _ _ _ n k counts h o = Over-busy s.main n k h o
  Over-Leaves _ _ _ n k signals h o = Over-woken s.main k (Over-busy s.main n k h o)
  Over-Leaves _ _ _ n k unlocks h o = Over-busy s.main n k h o

  of_service :
      (before after : List Leaver) (l : Leaver)
      → s.services ≡ before ++ (l ∷ after)
      → remaining l ≤ threads_left s
  of_service before after l here =
      omega (arith, ap (total remaining) here, total-++ remaining before after l)

  of_discovery : (l : Leaver) → s.discovery ≡ some l → remaining l ≤ threads_left s
  of_discovery l here = omega (arith, ap (total_option remaining) here)

  Over-checked : (b : Bool) → Over (if b then wait_lock else accepting) (threads_left s)
  Over-checked true = tt
  Over-checked false = tt

  Over-from : (m : Phase) → s.main ≡ m → Over s.main (threads_left s) → Over m (threads_left s)
  Over-from m here o = subst (λ x. Over x (threads_left s)) here o

  Over-Moves :
      (t : Monitor) (move : Moves s t)
      → InTime move
      → Over s.main (threads_left s)
      → Over t.main (threads_left t)
  Over-Moves _ signalled i o = o
  Over-Moves _ wakes i o = Over-woken s.main (threads_left s) o
  Over-Moves _ (checked here) i o = Over-checked s.shutdown
  Over-Moves _ (wait_ends here z) i o = none_left (ap inside_main here) z
  Over-Moves _ (wait_timed_out here free) i o = absurd i
  Over-Moves _ (wait_signals here) i o = Over-from wait_signal here o
  Over-Moves _ (wait_unlocked here) i o = Over-from wait_unlock here o
  Over-Moves _ (service_calls before after here) i o =
      Over-busy s.main (threads_left s) _ (of_service before after working here) o
  Over-Moves _ (service_leaves before after l l' t here move) i o =
      Over-Leaves l l' t (threads_left s) _ move (of_service before after l here) o
  Over-Moves _ (discovery_calls here f) i o =
      Over-busy s.main (threads_left s) _ (of_discovery working here) o
  Over-Moves _ (discovery_leaves l l' t here move) i o =
      Over-Leaves l l' t (threads_left s) _ move (of_discovery l here) o
  Over-Moves _ _ i o = tt

Over-reached : (s : Monitor) (r : Reached s) → Timely r → Over s.main (threads_left s)
Over-reached _ start i = tt
Over-reached _ (next s t before move) i = Over-Moves s before t move i.1 (Over-reached s before i.0)

-- In a run in which the wait of `_wait_for_all_threads` has not been given up, once the main thread
-- has returned from it the count is 0, every thread that was created has released the mutex for
-- the last time, and the mutex is unlocked.
pub Reached-over :
    (s : Monitor) (r : Reached s)
    → Timely r
    → s.main ≡ finished
    → (s.active ≡ 0) × (threads_left s ≡ 0) × (s.locked ≡ false)
Reached-over s r i here =
    let z : threads_left s ≡ 0 = Over-from s r finished here (Over-reached s r i) in
    let (_, exact, _) = Steps-pool s r in
    (
      omega (
        arith,
        z,
        exact,
        ap (λ m. (view m).born) here,
        ap (λ m. counted (discovery_seen (view m).started s.discovery)) here,
        total-present-le s.services,
        counted-le s.discovery,
      ),
      z,
      bit-zero s.locked (
          omega (
            arith,
            z,
            (IsGuarded-Reached s r).exclusive,
            ap inside_main here,
            total-inside-le s.services,
            inside_option-le s.discovery,
          )),
    )
