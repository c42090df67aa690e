-- ===== src/Engine.antt =====
-- The loop of `_msg_engine` and the block `cli` that it hands to `skrum_accept`, the same in
-- src/skrumctld/skrumctld.c and src/skrumd/skrumd.c.
use deamon.Common.{
  ℕ, ◌≡◌, refl, Bool, true, false, Option, none, some, List, [], ◌∷◌, ◌++◌, if◌then◌else◌,
}
use deamon.Common.Outcome.{Outcome, ok, fault, use_after_free, double_free, ◌>>=◌}

-- What one call of accept gives while the daemon runs: a connection, whose address the kernel
-- writes into `cli`, or a failure. The list ends where the flag of the signal handler is set.
-- The result is the connections that `_handle_connection` gets, in order.
unfoldable pub msg_engine : Bool → List (Option ℕ) → Outcome (List ℕ)
msg_engine freed [] = ok []
msg_engine freed (some sock ∷ rounds) =
    let rest = msg_engine freed rounds in
    if freed then fault use_after_free else (rest >>= λ socks. ok (sock ∷ socks))
msg_engine freed (none ∷ rounds) =
    let rest = msg_engine true rounds in if freed then fault double_free else rest

abbrev pub all_accepted : List ℕ → List (Option ℕ)
all_accepted [] = []
all_accepted (s ∷ ss) = some s ∷ all_accepted ss

msg_engine_accepts :
    (socks : List ℕ) (last : Bool)
    → msg_engine false (all_accepted socks ++ (if last then none ∷ [] else [])) ≡ ok socks
unfolding msg_engine
msg_engine_accepts [] true = refl
msg_engine_accepts [] false = refl
msg_engine_accepts (s ∷ ss) last = rw (msg_engine_accepts ss last)

msg_engine_fails :
    (socks : List ℕ) (next : Option ℕ) (rounds : List (Option ℕ))
    → msg_engine false (all_accepted socks ++ (none ∷ (next ∷ rounds)))
      ≡ fault (elim next [ none ↦ double_free | some s ↦ use_after_free ])
unfolding msg_engine
msg_engine_fails [] none rounds = refl
msg_engine_fails [] (some s) rounds = refl
msg_engine_fails (x ∷ xs) next rounds = rw (msg_engine_fails xs next rounds)

-- As long as accept succeeds, and if it fails then only in the last round, every connection is
-- handed on in order. A failure of accept before the last round is undefined behaviour: the next
-- round writes to a block that was freed, if accept succeeds, and frees it again otherwise.
pub msg_engine_outcomes :
    (socks : List ℕ) (last : Bool) (next : Option ℕ) (rounds : List (Option ℕ))
    → (msg_engine false (all_accepted socks ++ (if last then none ∷ [] else [])) ≡ ok socks)
      × (msg_engine false (all_accepted socks ++ (none ∷ (next ∷ rounds)))
          ≡ fault (elim next [ none ↦ double_free | some s ↦ use_after_free ]))
msg_engine_outcomes socks last next rounds =
    (msg_engine_accepts socks last, msg_engine_fails socks next rounds)
