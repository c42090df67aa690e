-- ===== src/Monitor/Tally.antt =====
-- Who holds the mutex of the thread count, and who is about to signal; what the statements of
-- `_decrement_thread_cnt` do to both.
use deamon.Common.{
  ℕ, ◌+◌, ◌*◌, ◌≤◌, ◌≡◌, refl, ap, Bool, true, false, Option, none, some, List, [], ◌∷◌, ◌++◌,
  arith,
}
use deamon.Threads.{max_threads, decrement_thread_cnt}
use deamon.Threads.Count.{decrement_lem}
use deamon.Monitor.{
  Leaver, working, at_count, at_signal, at_unlock, Caller, engine, connection, Phase, inc_lock,
  inc_test, inc_asleep, inc_unlock, create, wait_test, wait_asleep, wait_signal, wait_unlock,
  Monitor, woken, Leaves, locks, counts, signals, unlocks,
}

-- A number for each thread, summed up.
abbrev pub total : (Leaver → ℕ) → List Leaver → ℕ
total f [] = 0
total f (l ∷ ls) = f l + total f ls

abbrev pub total_option : (Leaver → ℕ) → Option Leaver → ℕ
total_option f none = 0
total_option f (some l) = f l

pub total-++ :
    (f : Leaver → ℕ) (before after : List Leaver) (l : Leaver)
    → total f (before ++ (l ∷ after)) ≡ total f (before ++ after) + f l
total-++ f [] after l = omega arith
total-++ f (x ∷ xs) after l = omega (arith, total-++ f xs after l)

-- Who holds the mutex.
abbrev pub inside : Leaver → ℕ
inside at_count = 1
inside at_signal = 1
inside at_unlock = 1
inside l = 0

abbrev pub inside_main : Phase → ℕ
inside_main (inc_test c) = 1
inside_main (inc_unlock c) = 1
inside_main wait_test = 1
inside_main wait_signal = 1
inside_main wait_unlock = 1
inside_main m = 0

-- Who is about to signal the condition variable.
abbrev pub signalling : Leaver → ℕ
signalling at_signal = 1
signalling l = 0

abbrev pub signals_due : Monitor → ℕ
signals_due s = total_option signalling s.discovery + total signalling s.services

abbrev pub holders : Monitor → ℕ
holders s = inside_main s.main + total_option inside s.discovery + total inside s.services

abbrev pub bit : Bool → ℕ
bit false = 0
bit true = 1

-- A main thread that sleeps has a reason, or is about to be woken.
abbrev pub HasReason : Phase → ℕ → ℕ → Type 0
HasReason (inc_asleep c) active due = max_threads ≤ active + 4 * due
HasReason wait_asleep active due = 1 ≤ active + due
HasReason m active due = Unit {0}

-- Before the main thread has created the discovery thread, there is none.
abbrev pub Early : Caller → Option Leaver → Type 0
Early engine d = d ≡ none
Early connection d = Unit {0}

abbrev pub InOrder : Phase → Option Leaver → Type 0
InOrder (inc_lock c) d = Early c d
InOrder (inc_test c) d = Early c d
InOrder (inc_asleep c) d = Early c d
InOrder (inc_unlock c) d = Early c d
InOrder (create c) d = Early c d
InOrder m d = Unit {0}

-- The discovery thread leaves its loop only after the signal.
abbrev pub Told : Option Leaver → Bool → Type 0
Told none flag = Unit {0}
Told (some working) flag = Unit {0}
Told (some l) flag = flag ≡ true

pub record IsGuarded (s : Monitor) : Type 0 where
  pub exclusive : holders s ≡ bit s.locked
  pub reason : HasReason s.main s.active (signals_due s)
  pub order : InOrder s.main s.discovery
  pub told : Told s.discovery s.shutdown

HasReason-kept :
    (m : Phase) (a b d e : ℕ)
    → a + d ≤ b + e
    → a + 4 * d ≤ b + 4 * e
    → HasReason m a d
    → HasReason m b e
HasReason-kept (inc_asleep c) a b d e h k r = omega (arith, h, k, r)
HasReason-kept wait_asleep a b d e h k r = omega (arith, h, k, r)
HasReason-kept _ a b d e h k r = tt

-- A wake-up.
pub inside_main-woken : (m : Phase) → inside_main (woken m) ≡ inside_main m
inside_main-woken (inc_asleep c) = refl
inside_main-woken wait_asleep = refl
inside_main-woken _ = refl

pub HasReason-woken : (m : Phase) (a d : ℕ) → HasReason (woken m) a d
HasReason-woken (inc_asleep c) a d = tt
HasReason-woken wait_asleep a d = tt
HasReason-woken _ a d = tt

pub InOrder-woken : (m : Phase) (d : Option Leaver) → InOrder m d → InOrder (woken m) d
InOrder-woken (inc_asleep c) d o = o
InOrder-woken wait_asleep d o = o
InOrder-woken (inc_lock c) d o = o
InOrder-woken (inc_test c) d o = o
InOrder-woken (inc_unlock c) d o = o
InOrder-woken (create c) d o = o
InOrder-woken _ d o = tt

Early-some : (c : Caller) (l l' : Leaver) → Early c (some l) → Early c (some l')
Early-some engine l l' o = cc
Early-some connection l l' o = tt

pub InOrder-some : (m : Phase) (l l' : Leaver) → InOrder m (some l) → InOrder m (some l')
InOrder-some (inc_lock c) l l' o = Early-some c l l' o
InOrder-some (inc_test c) l l' o = Early-some c l l' o
InOrder-some (inc_asleep c) l l' o = Early-some c l l' o
InOrder-some (inc_unlock c) l l' o = Early-some c l l' o
InOrder-some (create c) l l' o = Early-some c l l' o
InOrder-some _ l l' o = tt

-- What a statement of `_decrement_thread_cnt` does, the other threads contributing `others` to
-- the number of signals due.
pub record Left (s : Monitor) (l l' : Leaver) (t : Monitor) : Type 0 where
  pub others_kept : (t.discovery ≡ s.discovery) × (t.services ≡ s.services)
  pub mutex : inside l' + bit s.locked ≡ inside l + bit t.locked
  pub main_kept : inside_main t.main ≡ inside_main s.main
  pub reason_left :
      (others : ℕ)
      → HasReason s.main s.active (others + signalling l)
      → HasReason t.main t.active (others + signalling l')
  pub order_left : (d : Option Leaver) → InOrder s.main d → InOrder t.main d
  pub told_left : Told (some l) s.shutdown → Told (some l') t.shutdown
  pub shutdown_kept : t.shutdown ≡ s.shutdown

pub bit-le : (b : Bool) → 1 ≤ bit b → bit b ≡ 1
bit-le true h = refl
bit-le false h = omega (arith, h)

pub Left-Leaves :
    (s : Monitor) (l l' : Leaver) (t : Monitor)
    → Leaves s l l' t
    → inside l ≤ bit s.locked
    → Left s l l' t
Left-Leaves s _ _ _ (locks free) h = record {
  others_kept = (refl, refl);
  mutex = omega (arith, ap bit free);
  main_kept = refl;
  reason_left = λ others r. r;
  order_left = λ d o. o;
  told_left = λ f. f;
  shutdown_kept = refl;
}
Left-Leaves s _ _ _ counts h = record {
  others_kept = (refl, refl);
  mutex = refl;
  main_kept = refl;
  reason_left = λ others r.
      HasReason-kept s.main s.active (decrement_thread_cnt s.active) (others + 0) (others + 1)
        (omega (arith, decrement_lem s.active)) (omega (arith, decrement_lem s.active)) r;
  order_left = λ d o. o;
  told_left = λ f. f;
  shutdown_kept = refl;
}
Left-Leaves s _ _ _ signals h = record {
  others_kept = (refl, refl);
  mutex = refl;
  main_kept = inside_main-woken s.main;
  reason_left = λ others r. HasReason-woken s.main s.active (others + 0);
  order_left = λ d o. InOrder-woken s.main d o;
  told_left = λ f. f;
  shutdown_kept = refl;
}
Left-Leaves s _ _ _ unlocks h = record {
  others_kept = (refl, refl);
  mutex = omega (arith, bit-le s.locked h);
  main_kept = refl;
  reason_left = λ others r. r;
  order_left = λ d o. o;
  told_left = λ f. f;
  shutdown_kept = refl;
}

pub Told-signalled : (d : Option Leaver) (flag : Bool) → Told d flag → Told d true
Told-signalled none flag h = tt
Told-signalled (some working) flag h = tt
Told-signalled (some _) flag h = refl
