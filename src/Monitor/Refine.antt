-- ===== src/Monitor/Refine.antt =====
-- The threads at the grain of the mutex do what the steps of `Threads` say.
use deamon.Common.{
  ℕ, ◌+◌, ◌≤◌, ◌<◌, ◌≡◌, ◌⊎◌, inl, inr, refl, sym, ap, ◌∙◌, Bool, true, false, none, some, List,
  ◌∷◌, ◌++◌, arith, if◌then◌else◌,
}
use mathlib.Core.Path.{subst}
use deamon.Threads
use deamon.Threads.{
  max_threads, increment_thread_cnt, decrement_thread_cnt, Pool, init_pool, Step, Steps, done, more,
  Discovery, absent, running, ended,
}
use deamon.Threads.Count.{counted, Steps-IsCounted}
use deamon.Monitor.{
  Leaver, working, at_lock, at_count, at_signal, at_unlock, left, engine, connection, Phase,
  inc_lock, inc_test, inc_asleep, inc_unlock, create, checking, accepting, wait_lock, wait_test,
  wait_asleep, wait_late, wait_signal, wait_unlock, finished, Monitor, woken, Leaves, locks, counts,
  signals, unlocks, Moves, signalled, inc_locked, inc_sleeps, inc_counts, inc_unlocked, wakes,
  discovery_created, service_created, checked, accept_failed, accept_done, wait_locked, wait_sleeps,
  wait_ends, wait_expires, wait_timed_out, wait_signals, wait_unlocked, service_calls,
  service_leaves, discovery_calls, discovery_leaves, Reached, start, next,
}
use deamon.Monitor.Tally.{total, total-++, IsGuarded, InOrder, Told}
use deamon.Monitor.Guard.{IsGuarded-Reached}
use deamon.Monitor.View.{view, present, discovery_of, discovery_seen, pool_of, pool, view-woken}

-- A step is none of `Threads`, or one.
abbrev Simulated : Monitor → Monitor → Type 0
Simulated s t = (pool t ≡ pool s) ⊎ Step (pool s) (pool t)

none_left : (n : ℕ) → (n ≡ 0) ⊎ (0 < n)
none_left n = ground arith

module _ (s : Monitor) (g : IsGuarded s) where
  -- The main thread goes from `m` to `m'`, which looks the same.
  unseen :
      (m m' : Phase) (b : Bool)
      → s.main ≡ m
      → view m' ≡ view m
      → Simulated s (record s { locked = b; main = m' })
  unseen m m' b here q = inl (ap (λ v. pool_of v s) (q ∙ sym (ap view here)))

  stepped : (m : Phase) (p : Pool) → s.main ≡ m → Step (pool_of (view m) s) p → Step (pool s) p
  stepped m p here move = subst (λ x. Step (pool_of (view x) s) p) (sym here) move

  -- A service thread goes from `l` to `l'`.
  module _ (before after : List Leaver) (l l' : Leaver)
      (here : s.services ≡ before ++ (l ∷ after)) where
    present_before : total present s.services ≡ total present (before ++ after) + present l
    present_before = ap (total present) here ∙ total-++ present before after l

    present_after :
        total present (before ++ (l' ∷ after)) ≡ total present (before ++ after) + present l'
    present_after = total-++ present before after l'

    unseen_service :
        (m : Phase) (b : Bool)
        → view m ≡ view s.main
        → present l' ≡ present l
        → pool (record s { locked = b; main = m; services = before ++ (l' ∷ after) }) ≡ pool s
    unseen_service m b q same =
        ap
          (λ v. record (pool_of v s) { services = total present (before ++ (l' ∷ after)) + v.born })
          q
        ∙ ap (λ k. record (pool s) { services = k + (view s.main).born })
            (omega (arith, present_before, present_after, same))

  Simulated-service :
      (before after : List Leaver) (l l' : Leaver) (t : Monitor)
      → s.services ≡ before ++ (l ∷ after)
      → Leaves s l l' t
      → Simulated s (record t { services = before ++ (l' ∷ after) })
  Simulated-service before after _ _ _ here (locks free) =
      inl (unseen_service before after at_lock at_count here s.main true refl refl)
  Simulated-service before after _ _ _ here counts = inr (
      deamon.Threads.connection_serviced
        (total present (before ++ (at_signal ∷ after)) + (view s.main).born)
        (omega (
          arith,
          present_before before after at_count at_signal here,
          present_after before after at_count at_signal here,
        )))
  Simulated-service before after _ _ _ here signals = inl (
      unseen_service before after at_signal at_unlock here (woken s.main) s.locked
        (view-woken s.main) refl)
  Simulated-service before after _ _ _ here unlocks =
      inl (unseen_service before after at_unlock left here s.main false refl refl)

  -- The discovery thread goes from `l` to `l'`.
  unseen_discovery :
      (l l' : Leaver) (m : Phase) (b : Bool)
      → s.discovery ≡ some l
      → view m ≡ view s.main
      → discovery_of l' ≡ discovery_of l
      → pool (record s { locked = b; main = m; discovery = some l' }) ≡ pool s
  unseen_discovery l l' m b here q same =
      ap (λ v. record (pool_of v s) { discovery = discovery_of l' }) q
      ∙ ap (λ d. record (pool s) { discovery = d })
          (same ∙ sym (ap (discovery_seen (view s.main).started) here))

  Simulated-discovery :
      (l l' : Leaver) (t : Monitor)
      → s.discovery ≡ some l
      → Leaves s l l' t
      → Simulated s (record t { discovery = some l' })
  Simulated-discovery _ _ _ here (locks free) =
      inl (unseen_discovery at_lock at_count s.main true here refl refl)
  Simulated-discovery _ _ _ here counts = inr (
      deamon.Threads.discovery_ended (ap (discovery_seen (view s.main).started) here)
        (subst (λ x. Told x s.shutdown) here g.told))
  Simulated-discovery _ _ _ here signals =
      inl
        (unseen_discovery at_signal at_unlock (woken s.main) s.locked here (view-woken s.main) refl)
  Simulated-discovery _ _ _ here unlocks =
      inl (unseen_discovery at_unlock left s.main false here refl refl)

  seen_checked :
      (b : Bool)
      → s.shutdown ≡ b
      → s.main ≡ checking
      → Simulated s (record s { main = if b then wait_lock else accepting })
  seen_checked true q here = inr (
      stepped checking _ here (
        subst
          (λ x. Step (pool_of (view checking) s) (record (pool_of (view checking) s) {
            main = if x then deamon.Threads.waiting else deamon.Threads.accepting;
          }))
          q (deamon.Threads.checked refl)))
  seen_checked false q here = inr (
      stepped checking _ here (
        subst
          (λ x. Step (pool_of (view checking) s) (record (pool_of (view checking) s) {
            main = if x then deamon.Threads.waiting else deamon.Threads.accepting;
          }))
          q (deamon.Threads.checked refl)))

  Simulated-Moves : (t : Monitor) → Moves s t → Simulated s t
  Simulated-Moves _ signalled = inr deamon.Threads.signalled
  Simulated-Moves _ (inc_locked c here free) = unseen (inc_lock c) (inc_test c) true here refl
  Simulated-Moves _ (inc_sleeps c here q) = unseen (inc_test c) (inc_asleep c) false here refl
  Simulated-Moves _ (inc_counts engine n here q) =
      let none_yet : s.discovery ≡ none = subst (λ x. InOrder x s.discovery) here g.order in
      inr (
        stepped (inc_test engine) _ here (
          subst
            (λ d.
              Step (pool_of (view (inc_test engine)) s)
                (record (pool_of (view (inc_unlock engine)) s) { active = n; discovery = d }))
            (sym (ap (discovery_seen true) none_yet)) (deamon.Threads.discovery_started n refl q)))
  Simulated-Moves _ (inc_counts connection n here q) = inr (
      stepped (inc_test connection) _ here (
        subst
          (λ k.
            Step (pool_of (view (inc_test connection)) s)
              (record (pool_of (view (inc_unlock connection)) s) { active = n; services = k }))
          (omega arith) (deamon.Threads.connection_handled n refl q)))
  Simulated-Moves _ (inc_unlocked c here) = unseen (inc_unlock c) (create c) false here refl
  Simulated-Moves _ wakes = unseen s.main (woken s.main) s.locked refl (view-woken s.main)
  Simulated-Moves _ (discovery_created here) =
      let none_yet : s.discovery ≡ none = subst (λ x. InOrder x s.discovery) here g.order in
      inl (
        ap (λ d. record (pool_of (view checking) s) { discovery = d })
          (sym (ap (discovery_seen true) none_yet))
        ∙ sym (ap (λ x. pool_of (view x) s) here))
  Simulated-Moves _ (service_created here) = inl (
      ap (λ k. record (pool_of (view checking) s) { services = k }) (omega arith)
      ∙ sym (ap (λ x. pool_of (view x) s) here))
  Simulated-Moves _ (checked here) = seen_checked s.shutdown refl here
  Simulated-Moves _ (accept_failed here) =
      inr (stepped accepting _ here (deamon.Threads.accept_failed refl))
  Simulated-Moves _ (accept_done here) =
      inr (stepped accepting _ here (deamon.Threads.accept_done refl))
  Simulated-Moves _ (wait_locked here free) = unseen wait_lock wait_test true here refl
  Simulated-Moves _ (wait_sleeps here some_left) = unseen wait_test wait_asleep false here refl
  Simulated-Moves _ (wait_ends here q) =
      inr (stepped wait_test _ here (deamon.Threads.all_complete refl q))
  Simulated-Moves _ (wait_expires here) = unseen wait_asleep wait_late s.locked here refl
  Simulated-Moves _ (wait_timed_out here free) = elim (none_left s.active) [
    | inl z ↦ inr (stepped wait_late _ here (deamon.Threads.all_complete refl z))
    | inr z ↦ inr (stepped wait_late _ here (deamon.Threads.timed_out refl z))
  ]
  Simulated-Moves _ (wait_signals here) = unseen wait_signal wait_unlock s.locked here refl
  Simulated-Moves _ (wait_unlocked here) = unseen wait_unlock finished false here refl
  Simulated-Moves _ (service_calls before after here) =
      inl (unseen_service before after working at_lock here s.main s.locked refl refl)
  Simulated-Moves _ (service_leaves before after l l' t here move) =
      Simulated-service before after l l' t here move
  Simulated-Moves _ (discovery_calls here f) =
      inl (unseen_discovery working at_lock s.main s.locked here refl refl)
  Simulated-Moves _ (discovery_leaves l l' t here move) = Simulated-discovery l l' t here move

Steps-Reached : (s : Monitor) → Reached s → Steps init_pool (pool s)
Steps-Reached _ start = done
Steps-Reached _ (next s t before move) =
    elim (Simulated-Moves s (IsGuarded-Reached s before) t move) [
      | inl same ↦ subst (λ p. Steps init_pool p) (sym same) (Steps-Reached s before)
      | inr step ↦ more (pool s) (pool t) (Steps-Reached s before) step
    ]

-- Whatever the interleaving of the single statements under the mutex, the state that is reached is
-- one that the threads reach when each of the functions on the count is one step: its count is the
-- number of threads that have been counted, created or not, and not yet uncounted; there are at
-- most 4 of them.
pub Steps-pool :
    (s : Monitor)
    → Reached s
    → Steps init_pool (pool s)
      × (s.active ≡ total present s.services + (view s.main).born + counted (pool s).discovery)
      × (s.active ≤ max_threads)
Steps-pool s r =
    let run = Steps-Reached s r in
    let (exact, most) = Steps-IsCounted (pool s) run in (run, exact, omega (arith, exact, most))
