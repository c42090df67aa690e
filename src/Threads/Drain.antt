-- ===== src/Threads/Drain.antt =====
-- After the signal the daemon can always come to its end.
use deamon.Common.{ℕ, zero, suc, ◌+◌, ◌≡◌, ◌⊎◌, inl, inr, refl, ap, ◌∙◌, true, some, arith}
use deamon.Threads.{
  increment_thread_cnt, decrement_thread_cnt, Main, starting, handling, finished, waiting, checking,
  accepting, Discovery, absent, running, ended, Pool, init_pool, Step, discovery_started, checked,
  accept_failed, connection_handled, connection_serviced, discovery_ended, all_complete, Steps,
  done, more,
}
use deamon.Threads.Count.{counted, IsCounted, IsCounted-Steps, increment_goes}

-- A longer run.
pub Steps-trans : {p q r : Pool} → Steps p q → Steps q r → Steps p r
Steps-trans s done = s
Steps-trans s (more q r t u) = more q r (Steps-trans s t) u

one : {p q : Pool} → Step p q → Steps p q
one {p} {q} s = more p q done s

-- A pool after the signal in which no thread but the main one is left.
record IsQuiet (p : Pool) : Type 0 where
  idle : p.active ≡ 0
  served : p.services ≡ 0
  told : p.shutdown ≡ true
  tally : IsCounted p

-- The service threads end one after another.
serve_all :
    (k : ℕ) (p : Pool)
    → p.services ≡ k
    → (q : Pool) × Steps p q
      × (q.services ≡ 0)
      × (q.main ≡ p.main)
      × (q.shutdown ≡ p.shutdown)
      × (q.discovery ≡ p.discovery)
serve_all zero p s = (p, done, s, refl, refl, refl)
serve_all (suc k) p s =
    let (q, run, a, b, f, d) =
      serve_all k (record p { active = decrement_thread_cnt p.active; services = k }) refl in
    (q, Steps-trans (one (connection_serviced k s)) run, a, b, f, d)

end_discovery :
    (d : Discovery) (p : Pool)
    → p.discovery ≡ d
    → p.services ≡ 0
    → p.shutdown ≡ true
    → (q : Pool) × Steps p q
      × (q.services ≡ 0)
      × (q.main ≡ p.main)
      × (q.shutdown ≡ true)
      × (counted q.discovery ≡ 0)
end_discovery absent p d s t = (p, done, s, refl, t, ap counted d)
end_discovery running p d s t = (_, one (discovery_ended d t), s, refl, t, refl)
end_discovery ended p d s t = (p, done, s, refl, t, ap counted d)

quieten :
    (p : Pool)
    → IsCounted p
    → p.shutdown ≡ true
    → (q : Pool) × Steps p q × IsQuiet q × (q.main ≡ p.main)
quieten p c t =
    let (q, run, s, m, f, d) = serve_all p.services p refl in
    let (r, run', s', m', f', z) = end_discovery q.discovery q refl s (f ∙ t) in
    let c' : IsCounted r = IsCounted-Steps p r c (Steps-trans run run') in
    (
      r,
      Steps-trans run run',
      record { idle = omega (arith, c'.exact, s', z); served = s'; told = f'; tally = c' },
      m' ∙ m,
    )

-- The main thread moves on to `_wait_for_all_threads`.
abbrev AtEnd : Pool → Type 0
AtEnd p = (p.main ≡ waiting) ⊎ (p.main ≡ finished)

from_checking :
    (p : Pool)
    → p.main ≡ checking
    → p.shutdown ≡ true
    → (q : Pool) × Steps p q × (q.shutdown ≡ true) × AtEnd q
from_checking p m t = (_, one (checked m), t, inl (rw t))

goes : (p : Pool) → IsQuiet p → increment_thread_cnt p.active ≡ some (p.active + 1)
goes p c = increment_goes p.active (omega (arith, c.idle))

to_end :
    (m : Main) (p : Pool)
    → p.main ≡ m
    → IsQuiet p
    → (q : Pool) × Steps p q × (q.shutdown ≡ true) × AtEnd q
to_end starting p m c =
    let (q, run, f, e) =
      from_checking (record p { active = p.active + 1; main = checking; discovery = running }) refl
        c.told in
    (q, Steps-trans (one (discovery_started (p.active + 1) m (goes p c))) run, f, e)
to_end checking p m c = from_checking p m c.told
to_end accepting p m c =
    let (q, run, f, e) = from_checking (record p { main = checking }) refl c.told in
    (q, Steps-trans (one (accept_failed m)) run, f, e)
to_end handling p m c =
    let (q, run, f, e) =
      from_checking (record p { active = p.active + 1; main = checking; services = suc p.services })
        refl c.told in
    (q, Steps-trans (one (connection_handled (p.active + 1) m (goes p c))) run, f, e)
to_end waiting p m c = (p, done, c.told, inl m)
to_end finished p m c = (p, done, c.told, inr m)

-- From every state that a daemon reaches and in which the signal has come, some further steps end
-- every thread: the count is 0, no service and no discovery thread is left, and the main thread
-- has passed `_wait_for_all_threads`.
pub Steps-drain :
    (p : Pool)
    → Steps init_pool p
    → p.shutdown ≡ true
    → (q : Pool) × Steps p q
      × (q.active ≡ 0)
      × (q.services ≡ 0)
      × (counted q.discovery ≡ 0)
      × (q.main ≡ finished)
Steps-drain p s t =
    let c : IsCounted p =
      IsCounted-Steps init_pool p (record { exact = refl; bound = omega arith; order = refl }) s in
    let (q1, r1, quiet1, _) = quieten p c t in
    let (q2, r2, t2, end2) = to_end q1.main q1 refl quiet1 in
    let (q3, r3, quiet3, m3) = quieten q2 (IsCounted-Steps q1 q2 quiet1.tally r2) t2 in
    last q3 (Steps-trans r1 (Steps-trans r2 r3)) quiet3
      (elim end2 [ inl m ↦ inl (m3 ∙ m) | inr m ↦ inr (m3 ∙ m) ])
  where
    last :
        (q : Pool)
        → Steps p q
        → IsQuiet q
        → AtEnd q
        → (r : Pool) × Steps p r
          × (r.active ≡ 0)
          × (r.services ≡ 0)
          × (counted r.discovery ≡ 0)
          × (r.main ≡ finished)
    last q run c (inl m) = (
      _,
      Steps-trans run (one (all_complete m c.idle)),
      c.idle,
      c.served,
      omega (arith, c.tally.exact, c.idle),
      refl,
    )
    last q run c (inr m) = (q, run, c.idle, c.served, omega (arith, c.tally.exact, c.idle), m)
