-- ===== src/Monitor/Leaving.antt =====
-- The invariants through the statements of `_decrement_thread_cnt`.
use deamon.Common.{ℕ, ◌+◌, ◌≤◌, ◌≡◌, sym, ap, ◌∙◌, true, none, some, List, ◌∷◌, ◌++◌, arith}
use mathlib.Core.Path.{subst}
use deamon.Threads.{max_threads, increment_thread_cnt}
use deamon.Monitor.{Leaver, working, at_lock, Monitor, Leaves}
use deamon.Monitor.Tally.{
  total, total_option, total-++, inside, signalling, signals_due, bit, HasReason, InOrder,
  IsGuarded, InOrder-some, Left, Left-Leaves, Told,
}

pub increment_blocked : (active : ℕ) → increment_thread_cnt active ≡ none → max_threads ≤ active
unfolding increment_thread_cnt
increment_blocked active q = ground arith

module _ (s : Monitor) (g : IsGuarded s) where
  -- A service thread, at `l` before and at `l'` after.
  module _ (before after : List Leaver) (l : Leaver)
      (here : s.services ≡ before ++ (l ∷ after)) where
    held_of : total inside s.services ≡ total inside (before ++ after) + inside l
    held_of = ap (total inside) here ∙ total-++ inside before after l

    due_of : total signalling s.services ≡ total signalling (before ++ after) + signalling l
    due_of = ap (total signalling) here ∙ total-++ signalling before after l

    service_inside : inside l ≤ bit s.locked
    service_inside = omega (arith, held_of, g.exclusive)

    abbrev others : ℕ
    others = total_option signalling s.discovery + total signalling (before ++ after)

    due_before : signals_due s ≡ others + signalling l
    due_before = omega (arith, due_of)

    pub IsGuarded-service-Leaves :
        (l' : Leaver) (t : Monitor)
        → Leaves s l l' t
        → IsGuarded (record t { services = before ++ (l' ∷ after) })
    IsGuarded-service-Leaves l' t move =
        let e : Left s l l' t = Left-Leaves s l l' t move service_inside in
        let d : t.discovery ≡ s.discovery = e.others_kept.0 in
        record {
          exclusive = omega (
            arith,
            total-++ inside before after l',
            held_of,
            e.mutex,
            e.main_kept,
            ap (total_option inside) d,
            g.exclusive,
          );
          reason =
              subst (λ n. HasReason t.main t.active n)
                (omega (arith, total-++ signalling before after l', ap (total_option signalling) d))
                (e.reason_left others
                  (subst (λ n. HasReason s.main s.active n) due_before g.reason));
          order = e.order_left t.discovery (subst (λ x. InOrder s.main x) (sym d) g.order);
          told =
              subst (λ x. Told x t.shutdown) (sym d)
                (subst (λ b. Told s.discovery b) (sym e.shutdown_kept) g.told);
        }

    pub IsGuarded-service_calls :
        l ≡ working → IsGuarded (record s { services = before ++ (at_lock ∷ after) })
    IsGuarded-service_calls w = record {
      exclusive =
          omega (arith, total-++ inside before after at_lock, held_of, ap inside w, g.exclusive);
      reason =
          subst (λ n. HasReason s.main s.active n)
            (omega (arith, total-++ signalling before after at_lock, due_of, ap signalling w))
            g.reason;
      order = g.order;
      told = g.told;
    }

  -- The discovery thread.
  module _ (l : Leaver) (here : s.discovery ≡ some l) where
    discovery_inside : inside l ≤ bit s.locked
    discovery_inside = omega (arith, ap (total_option inside) here, g.exclusive)

    pub IsGuarded-discovery-Leaves :
        (l' : Leaver) (t : Monitor) → Leaves s l l' t → IsGuarded (record t { discovery = some l' })
    IsGuarded-discovery-Leaves l' t move =
        let e : Left s l l' t = Left-Leaves s l l' t move discovery_inside in
        let d : t.services ≡ s.services = e.others_kept.1 in
        record {
          exclusive = omega (
            arith,
            ap (total_option inside) here,
            e.mutex,
            e.main_kept,
            ap (total inside) d,
            g.exclusive,
          );
          reason =
              subst (λ n. HasReason t.main t.active n) (omega (arith, ap (total signalling) d))
                (e.reason_left (total signalling s.services) (
                  subst (λ n. HasReason s.main s.active n)
                    (omega (arith, ap (total_option signalling) here)) g.reason));
          order =
              e.order_left (some l')
                (InOrder-some s.main l l' (subst (λ x. InOrder s.main x) here g.order));
          told = e.told_left (subst (λ x. Told x s.shutdown) here g.told);
        }

    pub IsGuarded-discovery_calls :
        l ≡ working → s.shutdown ≡ true → IsGuarded (record s { discovery = some at_lock })
    IsGuarded-discovery_calls w f = record {
      exclusive = omega (arith, ap (total_option inside) here, ap inside w, g.exclusive);
      reason =
          subst (λ n. HasReason s.main s.active n)
            (omega (arith, ap (total_option signalling) here, ap signalling w)) g.reason;
      order = InOrder-some s.main l at_lock (subst (λ x. InOrder s.main x) here g.order);
      told = f;
    }
