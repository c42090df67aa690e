-- ===== src/Controller/Race/Ends.antt =====
-- What two threads in `_register_cluster_node` come to from each state that they can be in.
use deamon.Common.{
  ℕ, ◌+◌, ◌%◌, ◌^◌, ◌≡◌, ◌⊎◌, inl, inr, refl, sym, Bool, true, false, ◌&&◌, List, [], ◌∷◌,
}
use mathlib.Core.Path.{subst}
use deamon.Controller.Race.{
  Registering, entering, counted, stored, numbered, Race, loaded, register_step, race, done,
  is_through,
}

-- The thread `x` in the state `a`, the other one in the state `b`.
abbrev pub seat : Bool → ℕ → Registering → Registering → Race
seat true cnt a b = record { node_cnt = cnt; first = a; second = b }
seat false cnt a b = record { node_cnt = cnt; first = b; second = a }

-- The id that a number gives.
abbrev pub id_of : ℕ → ℕ
id_of n = n % 2 ^ 16

-- Every schedule that brings both threads through leads from `r` to `f`.
abbrev pub Ends : Bool → Race → Race → Type 0
Ends reload r f =
    (schedule : List Bool) → is_through (race reload schedule r) ≡ true → race reload schedule r ≡ f

-- A step changes nothing, or what follows ends in `f`.
abbrev Onward : Bool → ℕ → Registering → (ℕ → Registering → Race) → Race → Type 0
Onward reload cnt a put f =
    (register_step reload a cnt ≡ (a, cnt))
    ⊎ Ends reload (put (register_step reload a cnt).1 (register_step reload a cnt).0) f

Ends-through :
    (reload x : Bool) (cnt i j : ℕ)
    → Ends reload (seat x cnt (numbered i) (numbered j)) (seat x cnt (numbered i) (numbered j))
unfolding race register_step
Ends-through reload true cnt i j [] h = refl
Ends-through reload true cnt i j (true ∷ ss) h = Ends-through reload true cnt i j ss h
Ends-through reload true cnt i j (false ∷ ss) h = Ends-through reload true cnt i j ss h
Ends-through reload false cnt i j [] h = refl
Ends-through reload false cnt i j (true ∷ ss) h = Ends-through reload false cnt i j ss h
Ends-through reload false cnt i j (false ∷ ss) h = Ends-through reload false cnt i j ss h

onward :
    (reload : Bool) (cnt : ℕ) (a : Registering) (put : ℕ → Registering → Race) (f : Race)
    (ss : List Bool)
    → Onward reload cnt a put f
    → (is_through (race reload ss (put cnt a)) ≡ true → race reload ss (put cnt a) ≡ f)
    → is_through
        (race reload ss (put (register_step reload a cnt).1 (register_step reload a cnt).0))
      ≡ true
    → race reload ss (put (register_step reload a cnt).1 (register_step reload a cnt).0) ≡ f
onward reload cnt a put f ss (inl q) ih =
    subst
      (λ (t : Registering × ℕ).
        is_through (race reload ss (put t.1 t.0)) ≡ true → race reload ss (put t.1 t.0) ≡ f)
      (sym q) ih
onward reload cnt a put f ss (inr ends) ih = ends ss

Ends-moves :
    (reload x : Bool) (cnt : ℕ) (a b : Registering) (f : Race)
    → (done a && done b) ≡ false
    → (done b && done a) ≡ false
    → Onward reload cnt a (λ k t. seat x k t b) f
    → Onward reload cnt b (λ k t. seat x k a t) f
    → Ends reload (seat x cnt a b) f
unfolding race
Ends-moves reload true cnt a b f u v m w [] h = cc
Ends-moves reload false cnt a b f u v m w [] h = cc
Ends-moves reload true cnt a b f u v m w (true ∷ ss) h =
    onward reload cnt a (λ k t. seat true k t b) f ss m
      (Ends-moves reload true cnt a b f u v m w ss) h
Ends-moves reload true cnt a b f u v m w (false ∷ ss) h =
    onward reload cnt b (λ k t. seat true k a t) f ss w
      (Ends-moves reload true cnt a b f u v m w ss) h
Ends-moves reload false cnt a b f u v m w (false ∷ ss) h =
    onward reload cnt a (λ k t. seat false k t b) f ss m
      (Ends-moves reload false cnt a b f u v m w ss) h
Ends-moves reload false cnt a b f u v m w (true ∷ ss) h =
    onward reload cnt b (λ k t. seat false k a t) f ss w
      (Ends-moves reload false cnt a b f u v m w ss) h

module _ (reload x : Bool) where
  -- Both threads have loaded `n`.
  module _ (n : ℕ) where
    abbrev pub twin : Registering
    twin = numbered (id_of (loaded reload (n + 1) (n + 1)))

    abbrev pub twins : Race
    twins = seat x (n + 1) twin twin

    stored_numbered : Ends reload (seat x (n + 1) (stored (n + 1)) twin) twins
    unfolding register_step
    stored_numbered =
        Ends-moves reload x _ _ _ _ refl refl (inr (Ends-through reload x _ _ _)) (inl refl)

    numbered_stored : Ends reload (seat x (n + 1) twin (stored (n + 1))) twins
    unfolding register_step
    numbered_stored =
        Ends-moves reload x _ _ _ _ refl refl (inl refl) (inr (Ends-through reload x _ _ _))

    stored_stored : Ends reload (seat x (n + 1) (stored (n + 1)) (stored (n + 1))) twins
    unfolding register_step
    stored_stored =
        Ends-moves reload x _ _ _ _ refl refl (inr numbered_stored) (inr stored_numbered)

    counted_numbered : Ends reload (seat x (n + 1) (counted n) twin) twins
    unfolding register_step
    counted_numbered = Ends-moves reload x _ _ _ _ refl refl (inr stored_numbered) (inl refl)

    numbered_counted : Ends reload (seat x (n + 1) twin (counted n)) twins
    unfolding register_step
    numbered_counted = Ends-moves reload x _ _ _ _ refl refl (inl refl) (inr numbered_stored)

    counted_stored : Ends reload (seat x (n + 1) (counted n) (stored (n + 1))) twins
    unfolding register_step
    counted_stored =
        Ends-moves reload x _ _ _ _ refl refl (inr stored_stored) (inr counted_numbered)

    stored_counted : Ends reload (seat x (n + 1) (stored (n + 1)) (counted n)) twins
    unfolding register_step
    stored_counted =
        Ends-moves reload x _ _ _ _ refl refl (inr numbered_counted) (inr stored_stored)

    pub both_counted : Ends reload (seat x n (counted n) (counted n)) twins
    unfolding register_step
    both_counted = Ends-moves reload x _ _ _ _ refl refl (inr stored_counted) (inr counted_stored)

  -- The thread `x` has stored `m` before the other one loads the counter.
  module _ (m : ℕ) where
    abbrev pub later : Registering
    later = numbered (id_of (loaded reload (m + 1) (m + 1)))

    -- `x` has its id by `k` already.
    module _ (k : ℕ) where
      then_stored :
          Ends reload
            (seat x (m + 1) (numbered k) (stored (m + 1)))
            (seat x (m + 1) (numbered k) later)
      unfolding register_step
      then_stored =
          Ends-moves reload x _ _ _ _ refl refl (inl refl) (inr (Ends-through reload x _ _ _))

      pub then_counted :
          Ends reload (seat x m (numbered k) (counted m)) (seat x (m + 1) (numbered k) later)
      unfolding register_step
      then_counted = Ends-moves reload x _ _ _ _ refl refl (inl refl) (inr then_stored)

      pub then_enters :
          Ends reload (seat x m (numbered k) entering) (seat x (m + 1) (numbered k) later)
      unfolding register_step
      then_enters = Ends-moves reload x _ _ _ _ refl refl (inl refl) (inr then_counted)

    abbrev pub late : Registering
    late = numbered (id_of (loaded reload (m + 1) m))

    late_numbered : Ends reload (seat x (m + 1) (stored m) later) (seat x (m + 1) late later)
    unfolding register_step
    late_numbered =
        Ends-moves reload x _ _ _ _ refl refl (inr (Ends-through reload x _ _ _)) (inl refl)

    pub late_stored :
        Ends reload (seat x (m + 1) (stored m) (stored (m + 1))) (seat x (m + 1) late later)
    unfolding register_step
    late_stored =
        Ends-moves reload x _ _ _ _ refl refl (inr (then_stored (id_of (loaded reload (m + 1) m))))
          (inr late_numbered)
