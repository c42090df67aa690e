-- ===== src/Threads/Count.antt =====
-- The count of active threads is the number of threads there are, and stays within the limit.
use deamon.Common.{
  ℕ, suc, ◌+◌, ◌-◌, ◌≤◌, ◌<◌, ◌≡◌, ◌⊎◌, inl, inr, refl, sym, ap, ◌∙◌, Bool, true, false, none, some,
  if◌then◌else◌, arith,
}
use mathlib.Core.Path.{subst}
use mathlib.Core.Option.{some-injective, none-ne-some}
use deamon.Threads.{
  max_threads, increment_thread_cnt, decrement_thread_cnt, Main, starting, handling, finished,
  waiting, checking, accepting, Discovery, absent, running, ended, Pool, init_pool, Step, signalled,
  discovery_started, checked, accept_failed, accept_done, connection_handled, connection_serviced,
  discovery_ended, all_complete, timed_out, Steps, done, more,
}

-- One for a discovery thread that runs.
abbrev pub counted : Discovery → ℕ
counted absent = 0
counted running = 1
counted ended = 0

-- Before the main thread has started the discovery thread, there is none.
abbrev pub InOrder : Main → Discovery → Type 0
InOrder starting d = d ≡ absent
InOrder m d = Unit {0}

pub record IsCounted (p : Pool) : Type 0 where
  pub exact : p.active ≡ p.services + counted p.discovery
  pub bound : p.active ≤ max_threads
  pub order : InOrder p.main p.discovery

pub increment_goes :
    (active : ℕ) → active < max_threads → increment_thread_cnt active ≡ some (active + 1)
unfolding increment_thread_cnt
increment_goes active h = ground arith

increment_blocks : (active : ℕ) → max_threads ≤ active → increment_thread_cnt active ≡ none
unfolding increment_thread_cnt
increment_blocks active h = ground arith

room : (a b : ℕ) → (a < b) ⊎ (b ≤ a)
room a b = ground arith

pub increment_lem :
    (active n : ℕ) → increment_thread_cnt active ≡ some n → (n ≡ active + 1) × (n ≤ max_threads)
increment_lem active n q = elim (room active max_threads) [
  | inl below ↦
      let r : n ≡ active + 1 =
        some-injective n (active + 1) (sym q ∙ increment_goes active below) in
      (r, omega (arith, r, below))
  | inr full ↦ absurd (none-ne-some n (sym (increment_blocks active full) ∙ q))
]

pub decrement_lem : (active : ℕ) → decrement_thread_cnt active ≡ active - 1
unfolding decrement_thread_cnt
decrement_lem active = ground arith

-- Each step keeps the count.
module _ (p : Pool) (c : IsCounted p) where
  -- `_handle_connection` and `main` count a thread before they create it.
  IsCounted-handled :
      (n : ℕ)
      → p.main ≡ handling
      → increment_thread_cnt p.active ≡ some n
      → IsCounted (record p { active = n; main = checking; services = suc p.services })
  IsCounted-handled n m q =
      let (r, b) = increment_lem p.active n q in
      record {
        exact = omega (arith, r, c.exact);
        bound = b;
        order = subst (λ x. InOrder x p.discovery) m c.order;
      }

  IsCounted-started :
      (n : ℕ)
      → p.main ≡ starting
      → increment_thread_cnt p.active ≡ some n
      → IsCounted (record p { active = n; main = checking; discovery = running })
  IsCounted-started n m q =
      let (r, b) = increment_lem p.active n q in
      let d : p.discovery ≡ absent = subst (λ x. InOrder x p.discovery) m c.order in
      record { exact = omega (arith, r, c.exact, ap counted d); bound = b; order = tt }

  IsCounted-serviced :
      (k : ℕ)
      → p.services ≡ suc k
      → IsCounted (record p { active = decrement_thread_cnt p.active; services = k })
  IsCounted-serviced k q = record {
    exact = omega (arith, decrement_lem p.active, c.exact, q);
    bound = omega (arith, decrement_lem p.active, c.bound);
    order = c.order;
  }

  IsCounted-ended :
      p.discovery ≡ running
      → IsCounted (record p { active = decrement_thread_cnt p.active; discovery = ended })
  IsCounted-ended d = record {
    exact = omega (arith, decrement_lem p.active, c.exact, ap counted d);
    bound = omega (arith, decrement_lem p.active, c.bound);
    order = ended_in_order p.main d c.order;
  }
    where
      ended_in_order : (m : Main) → p.discovery ≡ running → InOrder m p.discovery → InOrder m ended
      ended_in_order starting d h = absurd (omega (arith, sym (ap counted d) ∙ ap counted h))
      ended_in_order checking d h = tt
      ended_in_order accepting d h = tt
      ended_in_order handling d h = tt
      ended_in_order waiting d h = tt
      ended_in_order finished d h = tt

  -- The steps of the main thread that start no thread.
  IsCounted-moved : (m : Main) → InOrder m p.discovery → IsCounted (record p { main = m })
  IsCounted-moved m h = record { exact = c.exact; bound = c.bound; order = h }

  IsCounted-Step : (q : Pool) → Step p q → IsCounted q
  IsCounted-Step _ signalled = record { exact = c.exact; bound = c.bound; order = c.order }
  IsCounted-Step _ (discovery_started n m q) = IsCounted-started n m q
  IsCounted-Step _ (checked m) =
      IsCounted-moved (if p.shutdown then waiting else accepting) (next p.shutdown)
    where
      next : (b : Bool) → InOrder (if b then waiting else accepting) p.discovery
      next true = tt
      next false = tt
  IsCounted-Step _ (accept_failed m) = IsCounted-moved checking tt
  IsCounted-Step _ (accept_done m) = IsCounted-moved handling tt
  IsCounted-Step _ (connection_handled n m q) = IsCounted-handled n m q
  IsCounted-Step _ (connection_serviced k q) = IsCounted-serviced k q
  IsCounted-Step _ (discovery_ended d f) = IsCounted-ended d
  IsCounted-Step _ (all_complete m z) = IsCounted-moved finished tt
  IsCounted-Step _ (timed_out m z) = IsCounted-moved finished tt

pub IsCounted-Steps : (p q : Pool) → IsCounted p → Steps p q → IsCounted q
IsCounted-Steps p _ c done = c
IsCounted-Steps p q c (more r _ s t) = IsCounted-Step r (IsCounted-Steps p r c s) q t

-- In every state that a daemon reaches, whatever the interleaving, the count is the number of
-- service threads that have not returned, plus one for a discovery thread that runs; at most 4
-- threads run at once, at most 3 of them services while the discovery thread runs.
pub Steps-IsCounted :
    (p : Pool)
    → Steps init_pool p
    → (p.active ≡ p.services + counted p.discovery)
      × (p.services + counted p.discovery ≤ max_threads)
Steps-IsCounted p s =
    let c : IsCounted p =
      IsCounted-Steps init_pool p (record { exact = refl; bound = omega arith; order = refl }) s in
    (c.exact, omega (arith, c.exact, c.bound))

-- A connection that has been accepted is never stuck: either its thread can be created, or four
-- threads run and a service among them can end; then its thread can be created.
pub handling_goes_on :
    (p : Pool)
    → Steps init_pool p
    → p.main ≡ handling
    → Step p (record p { active = p.active + 1; main = checking; services = suc p.services })
      ⊎ (k : ℕ) × (p.services ≡ suc k)
        × (increment_thread_cnt (decrement_thread_cnt p.active) ≡ some p.active)
handling_goes_on p s m = elim (room p.active max_threads) [
  | inl below ↦ inl (connection_handled (p.active + 1) m (increment_goes p.active below))
  | inr full ↦ inr (
    p.services - 1,
    omega (arith, full, exact, at_most p.discovery),
    ap increment_thread_cnt (decrement_lem p.active)
        ∙ increment_goes (p.active - 1) (omega (arith, exact, bound, full))
        ∙ ap some (omega (arith, full)),
  )
]
  where
    exact : p.active ≡ p.services + counted p.discovery
    exact = (Steps-IsCounted p s).0

    bound : p.services + counted p.discovery ≤ max_threads
    bound = (Steps-IsCounted p s).1

    at_most : (d : Discovery) → counted d ≤ 1
    at_most absent = omega arith
    at_most running = omega arith
    at_most ended = omega arith
