-- ===== src/Monitor/Remaining.antt =====
-- How the threads that are not through, those that are counted and those that hold the mutex compare.
use deamon.Common.{
  ℕ, ◌+◌, ◌≤◌, ◌≡◌, refl, Bool, true, false, Option, none, some, List, [], ◌∷◌, arith,
}
use deamon.Threads.Count.{counted}
use deamon.Monitor.{Leaver, working, at_lock, at_count, at_signal, at_unlock, left}
use deamon.Monitor.Tally.{total, total_option, inside, bit}
use deamon.Monitor.View.{present, discovery_seen, discovery_of}

-- The threads that have been created and are not through with the mutex.
abbrev pub remaining : Leaver → ℕ
remaining left = 0
remaining l = 1

-- Who is not through is counted, or holds the mutex.
remaining-le : (l : Leaver) → remaining l ≤ present l + inside l
remaining-le working = omega arith
remaining-le at_lock = omega arith
remaining-le at_count = omega arith
remaining-le at_signal = omega arith
remaining-le at_unlock = omega arith
remaining-le left = omega arith

pub total-remaining-le :
    (ls : List Leaver) → total remaining ls ≤ total present ls + total inside ls
total-remaining-le [] = omega arith
total-remaining-le (l ∷ ls) = omega (arith, remaining-le l, total-remaining-le ls)

pub discovery-remaining-le :
    (b : Bool) (d : Option Leaver)
    → total_option remaining d ≤ counted (discovery_seen b d) + total_option inside d
discovery-remaining-le b none = omega arith
discovery-remaining-le b (some working) = omega arith
discovery-remaining-le b (some at_lock) = omega arith
discovery-remaining-le b (some at_count) = omega arith
discovery-remaining-le b (some at_signal) = omega arith
discovery-remaining-le b (some at_unlock) = omega arith
discovery-remaining-le b (some left) = omega arith

inside-le : (l : Leaver) → inside l ≤ remaining l
inside-le working = omega arith
inside-le at_lock = omega arith
inside-le at_count = omega arith
inside-le at_signal = omega arith
inside-le at_unlock = omega arith
inside-le left = omega arith

-- Who is counted is not through.
pub total-present-le : (ls : List Leaver) → total present ls ≤ total remaining ls
total-present-le [] = omega arith
total-present-le (l ∷ ls) = omega (arith, present-le l, total-present-le ls)
  where
    present-le : (x : Leaver) → present x ≤ remaining x
    present-le left = omega arith
    present-le at_signal = omega arith
    present-le at_unlock = omega arith
    present-le working = omega arith
    present-le at_lock = omega arith
    present-le at_count = omega arith

pub counted-le : (d : Option Leaver) → counted (discovery_seen false d) ≤ total_option remaining d
counted-le none = omega arith
counted-le (some l) = of_leaver l
  where
    of_leaver : (x : Leaver) → counted (discovery_of x) ≤ remaining x
    of_leaver left = omega arith
    of_leaver at_signal = omega arith
    of_leaver at_unlock = omega arith
    of_leaver working = omega arith
    of_leaver at_lock = omega arith
    of_leaver at_count = omega arith

pub total-inside-le : (ls : List Leaver) → total inside ls ≤ total remaining ls
total-inside-le [] = omega arith
total-inside-le (l ∷ ls) = omega (arith, inside-le l, total-inside-le ls)

pub inside_option-le : (d : Option Leaver) → total_option inside d ≤ total_option remaining d
inside_option-le none = omega arith
inside_option-le (some l) = inside-le l

pub bit-zero : (b : Bool) → bit b ≡ 0 → b ≡ false
bit-zero true h = absurd (omega (arith, h))
bit-zero false h = refl
