-- ===== src/Tests/Detaching.antt =====
-- A table of descriptors as a list, and a process that `daemonize` detaches.
use deamon.Common.{
  ℕ, zero, suc, ◌<◌, ◌≡◌, refl, true, Option, none, some, List, [], ◌∷◌, ◌++◌, ap, ◌∙◌, arith,
}
use mathlib.Core.Path.{subst}
use deamon.Common.Int.{pos}
use deamon.Common.Outcome.{ok}
use deamon.Logs.Line.{returned}
use deamon.Daemonize.{
  File, lock_file, other, Descriptors, Calls, decimal, newline, daemon_handlers, Session, daemonize,
  close_all, open_standard,
}
use deamon.Daemonize.Taken.{Holds}
use deamon.Daemonize.Detached.{over, standard, IsGranted, daemonize-Holds}

abbrev Table : Type 0
Table = List (Option File)

abbrev entry : Table → ℕ → Option File
entry [] j = none
entry (x ∷ w) zero = x
entry (x ∷ w) (suc j) = entry w j

-- The lowest place that is free.
abbrev lowest : Table → ℕ
lowest [] = 0
lowest (none ∷ w) = 0
lowest (some f ∷ w) = suc (lowest w)

abbrev put : File → Table → Table
put f [] = some f ∷ []
put f (none ∷ w) = some f ∷ w
put f (some g ∷ w) = some g ∷ put f w

abbrev emptied : ℕ → Table → Table
emptied fd [] = []
emptied zero (x ∷ w) = none ∷ w
emptied (suc fd) (x ∷ w) = x ∷ emptied fd w

emptied_same : (fd : ℕ) (w : Table) → entry (emptied fd w) fd ≡ none
emptied_same zero [] = refl
emptied_same (suc fd) [] = refl
emptied_same zero (x ∷ w) = refl
emptied_same (suc fd) (x ∷ w) = emptied_same fd w

emptied_other : (fd j : ℕ) (w : Table) → (j ≡ fd → ⊥) → entry (emptied fd w) j ≡ entry w j
emptied_other fd j [] h = refl
emptied_other zero zero (x ∷ w) h = absurd (h refl)
emptied_other zero (suc j) (x ∷ w) h = refl
emptied_other (suc fd) zero (x ∷ w) h = refl
emptied_other (suc fd) (suc j) (x ∷ w) h = emptied_other fd j w (λ q. h (ap suc q))

lowest_free : (w : Table) → entry w (lowest w) ≡ none
lowest_free [] = refl
lowest_free (none ∷ w) = refl
lowest_free (some g ∷ w) = lowest_free w

lowest_low : (w : Table) (j : ℕ) → j < lowest w → entry w j ≡ none → ⊥
lowest_low [] j h q = omega (arith, h)
lowest_low (none ∷ w) j h q = omega (arith, h)
lowest_low (some g ∷ w) zero h q = cc
lowest_low (some g ∷ w) (suc j) h q = lowest_low w j (omega (arith, h)) q

put_new : (f : File) (w : Table) → entry (put f w) (lowest w) ≡ some f
put_new f [] = refl
put_new f (none ∷ w) = refl
put_new f (some g ∷ w) = put_new f w

put_other : (f : File) (w : Table) (j : ℕ) → (j ≡ lowest w → ⊥) → entry (put f w) j ≡ entry w j
put_other f [] zero h = absurd (h refl)
put_other f [] (suc j) h = refl
put_other f (none ∷ w) zero h = absurd (h refl)
put_other f (none ∷ w) (suc j) h = refl
put_other f (some g ∷ w) zero h = refl
put_other f (some g ∷ w) (suc j) h = put_other f w j (λ q. h (ap suc q))

-- What open(2) and dup(2) promise.
abbrev IsPlaced : File → Table → ℕ → Type 0
IsPlaced f w fd =
    (entry w fd ≡ none)
    × ((j : ℕ) → j < fd → entry w j ≡ none → ⊥)
    × (entry (put f w) fd ≡ some f)
    × ((j : ℕ) → (j ≡ fd → ⊥) → entry (put f w) j ≡ entry w j)

put-IsPlaced : (f : File) (w : Table) (fd : ℕ) → some (lowest w) ≡ some fd → IsPlaced f w fd
put-IsPlaced f w fd e =
    subst (IsPlaced f w) (cc) (lowest_free w, lowest_low w, put_new f w, put_other f w)

abbrev dup_of : Option File → Table → Option ℕ × Table
dup_of none w = (none, w)
dup_of (some f) w = (some (lowest w), put f w)

dup_of-IsPlaced :
    (f : File) (w : Table) (fd : ℕ) (r : Option File)
    → r ≡ some f
    → (dup_of r w).0 ≡ some fd
    → (entry w fd ≡ none)
      × ((j : ℕ) → j < fd → entry w j ≡ none → ⊥)
      × (entry (dup_of r w).1 fd ≡ some f)
      × ((j : ℕ) → (j ≡ fd → ⊥) → entry (dup_of r w).1 j ≡ entry w j)
dup_of-IsPlaced f w fd none h e = cc
dup_of-IsPlaced f w fd (some g) h e =
    let (free, low, new, same) = put-IsPlaced g w fd e in (free, low, new ∙ h, same)

abbrev table : Descriptors
table = record {
  World = Table;
  table_size = 4;
  file_of = entry;
  open_file = λ f w. (some (lowest w), put f w);
  dup = λ old w. dup_of (entry w old) w;
  close = emptied;
  close_same = emptied_same;
  close_other = emptied_other;
  open_some = λ {f} {w} {fd} e. put-IsPlaced f w fd e;
  dup_some = λ {f} {w} {old} {fd} h e. dup_of-IsPlaced f w fd (entry w old) h e;
}

-- A shell's descriptors and two files.
abbrev shell_session : Session table
shell_session = record {
  world = some (other 1) ∷ some (other 1) ∷ some (other 1) ∷ none ∷ some (other 2) ∷ [];
  handlers = [];
  lines = [];
  lock_text = 49 ∷ 50 ∷ 51 ∷ 52 ∷ 53 ∷ 10 ∷ [];
}

abbrev calls : Calls
calls = record { parent_pid = 4000; forked = pos 0; locked = true; pid = 4711 }

granted : IsGranted table calls shell_session.world
unfolding close_all open_standard
granted = record {
  is_new = omega arith;
  is_child = refl;
  is_locked = refl;
  null = 0;
  first = 1;
  second = 2;
  lock = 3;
  got_null = refl;
  got_first = refl;
  got_second = refl;
  got_lock = refl;
}

small : (fd : ℕ) → 4 < fd → entry shell_session.world fd ≡ none
small zero h = absurd (omega (arith, h))
small (suc zero) h = absurd (omega (arith, h))
small (suc (suc zero)) h = absurd (omega (arith, h))
small (suc (suc (suc zero))) h = absurd (omega (arith, h))
small (suc (suc (suc (suc zero)))) h = absurd (omega (arith, h))
small (suc (suc (suc (suc (suc fd))))) h = refl

daemonize-Holds_example :
    (t : Session table) × (daemonize table calls shell_session ≡ ok (returned tt, t))
    × Holds table t.world (standard table ++ (lock_file ∷ []))
    × (t.lock_text ≡ over (decimal 10 4711 ++ (newline ∷ [])) shell_session.lock_text)
    × (t.handlers ≡ daemon_handlers ++ [])
daemonize-Holds_example = daemonize-Holds table calls shell_session (omega arith) small granted
