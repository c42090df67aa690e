-- ===== src/Monitor/Guard.antt =====
-- The mutex keeps the threads apart, and no wake-up is lost.
use deamon.Common.{
  ℕ, ◌+◌, ◌≤◌, ◌<◌, ◌≡◌, ◌⊎◌, refl, ap, Bool, true, false, none, arith, ltb, ◌==◌, if◌then◌else◌,
}
use mathlib.Core.Path.{subst}
use deamon.Threads.{max_threads}
use deamon.Monitor.{
  working, connection, Phase, inc_lock, inc_test, inc_asleep, inc_unlock, create, checking,
  accepting, wait_lock, wait_test, wait_asleep, wait_late, wait_signal, wait_unlock, finished,
  Monitor, Moves, signalled, inc_locked, inc_sleeps, inc_counts, inc_unlocked, wakes,
  discovery_created, service_created, checked, accept_failed, accept_done, wait_locked, wait_sleeps,
  wait_ends, wait_expires, wait_timed_out, wait_signals, wait_unlocked, service_calls,
  service_leaves, discovery_calls, discovery_leaves, Reached, start, next,
}
use deamon.Monitor.Tally.{
  total_option, inside, inside_main, signals_due, holders, bit, HasReason, InOrder, IsGuarded,
  inside_main-woken, HasReason-woken, InOrder-woken, bit-le, Told-signalled,
}
use deamon.Monitor.Leaving.{
  increment_blocked, IsGuarded-service-Leaves, IsGuarded-service_calls, IsGuarded-discovery-Leaves,
  IsGuarded-discovery_calls,
}

module _ (s : Monitor) (g : IsGuarded s) where
  -- A step of the main thread, from `m` to `m'`.
  module _ (m m' : Phase) (here : s.main ≡ m) where
    IsGuarded-main :
        (b : Bool) (n : ℕ)
        → inside_main m' + bit s.locked ≡ inside_main m + bit b
        → HasReason m' n (signals_due s)
        → (InOrder m s.discovery → InOrder m' s.discovery)
        → IsGuarded (record s { locked = b; active = n; main = m' })
    IsGuarded-main b n h r o = record {
      exclusive = omega (arith, ap inside_main here, g.exclusive, h);
      reason = r;
      order = o (subst (λ x. InOrder x s.discovery) here g.order);
      told = g.told;
    }

    -- The mutex is taken, released, or left alone.
    takes :
        s.locked ≡ false
        → inside_main m' ≡ 1
        → inside_main m ≡ 0
        → inside_main m' + bit s.locked ≡ inside_main m + bit true
    takes h a b = omega (arith, ap bit h, a, b)

    releases :
        inside_main m' ≡ 0
        → inside_main m ≡ 1
        → inside_main m' + bit s.locked ≡ inside_main m + bit false
    releases a b =
        omega (arith, a, b, bit-le s.locked (omega (arith, ap inside_main here, g.exclusive, b)))

  next_phase :
      (b : Bool)
      → (inside_main (if b then wait_lock else accepting) ≡ 0)
        × HasReason (if b then wait_lock else accepting) s.active (signals_due s)
        × InOrder (if b then wait_lock else accepting) s.discovery
  next_phase true = (refl, tt, tt)
  next_phase false = (refl, tt, tt)

  IsGuarded-Moves : (t : Monitor) → Moves s t → IsGuarded t
  IsGuarded-Moves _ signalled = record {
    exclusive = g.exclusive;
    reason = g.reason;
    order = g.order;
    told = Told-signalled s.discovery s.shutdown g.told;
  }
  IsGuarded-Moves _ (inc_locked c here free) =
      IsGuarded-main (inc_lock c) (inc_test c) here true s.active
        (takes (inc_lock c) (inc_test c) here free refl refl) tt (λ o. o)
  IsGuarded-Moves _ (inc_sleeps c here q) =
      IsGuarded-main (inc_test c) (inc_asleep c) here false s.active
        (releases (inc_test c) (inc_asleep c) here refl refl)
        (omega (arith, increment_blocked s.active q)) (λ o. o)
  IsGuarded-Moves _ (inc_counts c n here q) =
      IsGuarded-main (inc_test c) (inc_unlock c) here s.locked n refl tt (λ o. o)
  IsGuarded-Moves _ (inc_unlocked c here) =
      IsGuarded-main (inc_unlock c) (create c) here false s.active
        (releases (inc_unlock c) (create c) here refl refl) tt (λ o. o)
  IsGuarded-Moves _ wakes = record {
    exclusive = omega (arith, inside_main-woken s.main, g.exclusive);
    reason = HasReason-woken s.main s.active (signals_due s);
    order = InOrder-woken s.main s.discovery g.order;
    told = g.told;
  }
  IsGuarded-Moves _ (discovery_created here) =
      let none_yet : s.discovery ≡ none = subst (λ x. InOrder x s.discovery) here g.order in
      record {
        exclusive =
            omega (arith, ap inside_main here, ap (total_option inside) none_yet, g.exclusive);
        reason = tt;
        order = tt;
        told = tt;
      }
  IsGuarded-Moves _ (service_created here) = record {
    exclusive = omega (arith, ap inside_main here, g.exclusive);
    reason = tt;
    order = tt;
    told = g.told;
  }
  IsGuarded-Moves _ (checked here) =
      let (a, b, c) = next_phase s.shutdown in
      IsGuarded-main checking (if s.shutdown then wait_lock else accepting) here s.locked s.active
        (omega (arith, a)) b (λ o. c)
  IsGuarded-Moves _ (accept_failed here) =
      IsGuarded-main accepting checking here s.locked s.active refl tt (λ o. tt)
  IsGuarded-Moves _ (accept_done here) =
      IsGuarded-main accepting (inc_lock connection) here s.locked s.active refl tt (λ o. tt)
  IsGuarded-Moves _ (wait_locked here free) =
      IsGuarded-main wait_lock wait_test here true s.active
        (takes wait_lock wait_test here free refl refl) tt (λ o. tt)
  IsGuarded-Moves _ (wait_sleeps here some_left) =
      IsGuarded-main wait_test wait_asleep here false s.active
        (releases wait_test wait_asleep here refl refl) (omega (arith, some_left)) (λ o. tt)
  IsGuarded-Moves _ (wait_ends here q) =
      IsGuarded-main wait_test wait_signal here s.locked s.active refl tt (λ o. tt)
  IsGuarded-Moves _ (wait_expires here) =
      IsGuarded-main wait_asleep wait_late here s.locked s.active refl tt (λ o. tt)
  IsGuarded-Moves _ (wait_timed_out here free) =
      IsGuarded-main wait_late wait_signal here true s.active
        (takes wait_late wait_signal here free refl refl) tt (λ o. tt)
  IsGuarded-Moves _ (wait_signals here) =
      IsGuarded-main wait_signal wait_unlock here s.locked s.active refl tt (λ o. tt)
  IsGuarded-Moves _ (wait_unlocked here) =
      IsGuarded-main wait_unlock finished here false s.active
        (releases wait_unlock finished here refl refl) tt (λ o. tt)
  IsGuarded-Moves _ (service_calls before after here) =
      IsGuarded-service_calls s g before after working here refl
  IsGuarded-Moves _ (service_leaves before after l l' t here move) =
      IsGuarded-service-Leaves s g before after l here l' t move
  IsGuarded-Moves _ (discovery_calls here f) = IsGuarded-discovery_calls s g working here refl f
  IsGuarded-Moves _ (discovery_leaves l l' t here move) =
      IsGuarded-discovery-Leaves s g l here l' t move

pub IsGuarded-Reached : (s : Monitor) → Reached s → IsGuarded s
IsGuarded-Reached _ start = record { exclusive = refl; reason = tt; order = refl; told = tt }
IsGuarded-Reached _ (next s t before move) = IsGuarded-Moves s (IsGuarded-Reached s before) t move

-- Whether the main thread sleeps on the condition variable.
abbrev pub is_asleep : Phase → Bool
is_asleep (inc_asleep c) = true
is_asleep wait_asleep = true
is_asleep m = false

-- Whether the test of the loop that the main thread sleeps in would let it go on.
abbrev pub goes_on : Phase → ℕ → Bool
goes_on (inc_asleep c) active = ltb active max_threads
goes_on wait_asleep active = active == 0
goes_on m active = true

-- In every interleaving at most one thread is between the locking and the unlocking of the mutex,
-- and one is just when the mutex is locked.
pub holders-Reached : (s : Monitor) → Reached s → (holders s ≡ bit s.locked) × (holders s ≤ 1)
holders-Reached s r =
    let g : IsGuarded s = IsGuarded-Reached s r in
    (g.exclusive, omega (arith, g.exclusive, small s.locked))
  where
    small : (b : Bool) → bit b ≤ 1
    small true = omega arith
    small false = omega arith

awake :
    (m : Phase) (active due : ℕ)
    → HasReason m active due
    → is_asleep m ≡ true
    → (goes_on m active ≡ false) ⊎ (0 < due)
awake (inc_asleep c) active due r a = ground arith
awake wait_asleep active due r a = ground arith
awake _ active due r a = cc

-- No wake-up is lost, in any interleaving: while the main thread sleeps on the condition variable, the count does
-- not allow it to go on, or a thread that has lowered the count is about to signal.
pub Reached-awake :
    (s : Monitor)
    → Reached s
    → is_asleep s.main ≡ true
    → (goes_on s.main s.active ≡ false) ⊎ (0 < signals_due s)
Reached-awake s r a = awake s.main s.active (signals_due s) (IsGuarded-Reached s r).reason a
