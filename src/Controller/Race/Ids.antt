-- ===== src/Controller/Race/Ids.antt =====
-- The ids that two threads get, by the order of their steps.
use deamon.Common.{ℕ, ◌+◌, ◌≡◌, refl, ◌∙◌, Bool, true, false, ◌&&◌, List, [], ◌∷◌, if◌then◌else◌}
use deamon.Controller.Race.{
  entering, stored, numbered, Race, loaded, register_step, race, init_race, is_through,
}
use deamon.Controller.Race.Ends.{
  seat, id_of, twins, later, late, both_counted, then_counted, then_enters, late_stored,
}

-- The two names are those of one thread.
abbrev pub same_thread : Bool → Bool → Bool
same_thread true y = y
same_thread false true = false
same_thread false false = true

-- The other thread makes its next two steps before `x` makes one.
abbrev pub overtaken : Bool → List Bool → Bool
overtaken true (false ∷ false ∷ rest) = true
overtaken false (true ∷ true ∷ rest) = true
overtaken x rest = false

-- What a schedule comes to by its first four steps. When the first two are of two threads, both load
-- the same number. Otherwise `x` stores its number before the other one loads the counter.
abbrev pub outcome : Bool → ℕ → List Bool → Race
outcome reload n [] = init_race n
outcome reload n (x ∷ []) = init_race n
outcome reload n (x ∷ y ∷ rest) =
    if same_thread x y
    then seat x (n + 1 + 1)
        (numbered (id_of (if reload && overtaken x rest then n + 1 + 1 else n + 1)))
        (numbered (id_of (n + 1 + 1)))
    else seat x (n + 1) (numbered (id_of (n + 1))) (numbered (id_of (n + 1)))

-- Either build gives the same number where nobody has come in between.
twins_lem :
    (reload x : Bool) (n : ℕ)
    → twins reload x n ≡ seat x (n + 1) (numbered (id_of (n + 1))) (numbered (id_of (n + 1)))
twins_lem true x n = refl
twins_lem false x n = refl

abbrev apart : Bool → ℕ → Bool → Bool → Race
apart reload m x over =
    seat x (m + 1) (numbered (id_of (if reload && over then m + 1 else m)))
      (numbered (id_of (m + 1)))

early_lem :
    (reload x : Bool) (m : ℕ)
    → seat x (m + 1) (numbered (id_of (loaded reload m m))) (later reload x m)
      ≡ apart reload m x false
early_lem true x m = refl
early_lem false x m = refl

late_lem :
    (reload x : Bool) (m : ℕ)
    → seat x (m + 1) (late reload x m) (later reload x m) ≡ apart reload m x true
late_lem true x m = refl
late_lem false x m = refl

-- After the first two steps of `x`.
after_store :
    (reload x : Bool) (m : ℕ) (rest : List Bool)
    → is_through (race reload rest (seat x m (stored m) entering)) ≡ true
    → race reload rest (seat x m (stored m) entering) ≡ apart reload m x (overtaken x rest)
unfolding race register_step
after_store reload true m [] h = cc
after_store reload true m (true ∷ r) h =
    then_enters reload true m (id_of (loaded reload m m)) r h ∙ early_lem reload true m
after_store reload true m (false ∷ []) h = cc
after_store reload true m (false ∷ true ∷ r) h =
    then_counted reload true m (id_of (loaded reload m m)) r h ∙ early_lem reload true m
after_store reload true m (false ∷ false ∷ r) h =
    late_stored reload true m r h ∙ late_lem reload true m
after_store reload false m [] h = cc
after_store reload false m (false ∷ r) h =
    then_enters reload false m (id_of (loaded reload m m)) r h ∙ early_lem reload false m
after_store reload false m (true ∷ []) h = cc
after_store reload false m (true ∷ false ∷ r) h =
    then_counted reload false m (id_of (loaded reload m m)) r h ∙ early_lem reload false m
after_store reload false m (true ∷ true ∷ r) h =
    late_stored reload false m r h ∙ late_lem reload false m

-- Two threads register a node each while the counter is at `n`, in any order of their steps that
-- brings both through. When the first two steps are of two threads, the counter goes up by 1 and
-- both nodes have the id of `n + 1`. When they are of one thread, the counter goes up by 2, the
-- other thread's node has the id of `n + 2`, and that of the first one the id of `n + 1`, unless the
-- code loads the counter again and the other thread's next two steps come before the third of the
-- first one: then both have the id of `n + 2`.
pub race_ids :
    (reload : Bool) (n : ℕ) (schedule : List Bool)
    → is_through (race reload schedule (init_race n)) ≡ true
    → race reload schedule (init_race n) ≡ outcome reload n schedule
unfolding race register_step
race_ids reload n [] h = cc
race_ids reload n (true ∷ []) h = cc
race_ids reload n (false ∷ []) h = cc
race_ids reload n (true ∷ true ∷ r) h = after_store reload true (n + 1) r h
race_ids reload n (false ∷ false ∷ r) h = after_store reload false (n + 1) r h
race_ids reload n (true ∷ false ∷ r) h = both_counted reload true n r h ∙ twins_lem reload true n
race_ids reload n (false ∷ true ∷ r) h = both_counted reload false n r h ∙ twins_lem reload false n
