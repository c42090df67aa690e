-- ===== src/Nodes/Sample.antt =====
-- A list with one iterator that behaves as `ListLib` asks: it shows that the documented behaviour
-- can be met, and it runs.
use deamon.Common.{
  ℕ, ◌≡◌, refl, sym, ap, ◌∙◌, Bool, true, false, Option, none, some, List, [], ◌∷◌, ◌++◌, All,
  append_assoc, append-nil,
}
use mathlib.Core.Path.{ap₂}
use deamon.Nodes.{ListLib}

-- `after p x l`: the iterator has just returned x.
pub data Cells : Type 0 where
  at : List ℕ → List ℕ → Cells
  after : List ℕ → ℕ → List ℕ → Cells

abbrev pub items : Cells → List ℕ
items (at p a) = p ++ a
items (after p x a) = p ++ (x ∷ a)

abbrev pub At : Cells → Unit {0} → List ℕ → List ℕ → Type 0
At (at p l) i b a = (p ≡ b) × (l ≡ a)
At (after p x l) i b a = (p ++ (x ∷ []) ≡ b) × (l ≡ a)

abbrev pub Returned : Cells → Unit {0} → List ℕ → ℕ → List ℕ → Type 0
Returned (at p l) i b x a = ⊥
Returned (after p y l) i b x a = (p ≡ b) × (y ≡ x) × (l ≡ a)

abbrev next_from : List ℕ → List ℕ → Option ℕ × Cells
next_from p [] = (none, at p [])
next_from p (x ∷ a) = (some x, after p x a)

abbrev pub next : Unit {0} → Cells → Option ℕ × Cells
next i (at p a) = next_from p a
next i (after p x a) = next_from (p ++ (x ∷ [])) a

abbrev pub remove : Unit {0} → Cells → Option ℕ × Cells
remove i (at p a) = (none, at p a)
remove i (after p x a) = (some x, at p a)

abbrev find_from : (ℕ → Bool) → List ℕ → List ℕ → Option ℕ × Cells
find_from f p [] = (none, at p [])
find_from f p (x ∷ a) = elim (f x) [
  | true ↦ (some x, after p x a)
  | false ↦ find_from f (p ++ (x ∷ [])) a
]

abbrev pub find : Unit {0} → (ℕ → Bool) → Cells → Option ℕ × Cells
find i f (at p a) = find_from f p a
find i f (after p x a) = find_from f (p ++ (x ∷ [])) a

next_from-some :
    (p q : List ℕ) (x : ℕ) (a b : List ℕ)
    → p ≡ b
    → q ≡ x ∷ a
    → ((next_from p q).0 ≡ some x) × Returned (next_from p q).1 tt b x a
next_from-some p q x a b e h = rw h (refl, (e, refl, refl))

next_from-none :
    (p q b : List ℕ) → p ≡ b → q ≡ [] → ((next_from p q).0 ≡ none) × At (next_from p q).1 tt b []
next_from-none p q b e h = rw h (refl, (e, refl))

find_from_hit :
    (f : ℕ → Bool) (p xs : List ℕ) (x : ℕ) (a : List ℕ)
    → All (λ y. f y ≡ false) xs
    → f x ≡ true
    → ((find_from f p (xs ++ (x ∷ a))).0 ≡ some x)
      × Returned (find_from f p (xs ++ (x ∷ a))).1 tt (p ++ xs) x a
find_from_hit f p [] x a no_match hit = rw hit (refl, (sym (append-nil p), refl, refl))
find_from_hit f p (y ∷ xs) x a no_match hit =
    rw (no_match.0, ← append_assoc p (y ∷ []) xs)
      (find_from_hit f (p ++ (y ∷ [])) xs x a no_match.1 hit)

skipped :
    (f : ℕ → Bool) (p : List ℕ) (y : ℕ) (a : List ℕ)
    → f y ≡ false
    → find_from f p (y ∷ a) ≡ find_from f (p ++ (y ∷ [])) a
skipped f p y a h = rw (h, find_from)

find_from_miss :
    (f : ℕ → Bool) (p a : List ℕ)
    → All (λ y. f y ≡ false) a
    → ((find_from f p a).0 ≡ none) × At (find_from f p a).1 tt (p ++ a) []
find_from_miss f p [] no_match = (refl, (sym (append-nil p), refl))
find_from_miss f p (y ∷ a) no_match =
    rw (skipped f p y a no_match.0, ← append_assoc p (y ∷ []) a)
      (find_from_miss f (p ++ (y ∷ [])) a no_match.1)

-- The laws, a state at a time.
pub At-items : (l : Cells) (b a : List ℕ) → At l tt b a → items l ≡ b ++ a
At-items (at p q) b a h = ap₂ ◌++◌ h.0 h.1
At-items (after p x q) b a h = sym (append_assoc p (x ∷ []) q) ∙ ap₂ ◌++◌ h.0 h.1

pub next-some :
    (l : Cells) (b : List ℕ) (x : ℕ) (a : List ℕ)
    → At l tt b (x ∷ a)
    → ((next tt l).0 ≡ some x) × Returned (next tt l).1 tt b x a
next-some (at p q) b x a h = next_from-some p q x a b h.0 h.1
next-some (after p y q) b x a h = next_from-some (p ++ (y ∷ [])) q x a b h.0 h.1

pub next-none :
    (l : Cells) (b : List ℕ) → At l tt b [] → ((next tt l).0 ≡ none) × At (next tt l).1 tt b []
next-none (at p q) b h = next_from-none p q b h.0 h.1
next-none (after p y q) b h = next_from-none (p ++ (y ∷ [])) q b h.0 h.1

pub keep-Returned :
    (l : Cells) (b : List ℕ) (x : ℕ) (a : List ℕ) → Returned l tt b x a → At l tt (b ++ (x ∷ [])) a
keep-Returned (at p q) b x a h = absurd h
keep-Returned (after p y q) b x a h = (ap₂ (λ s z. s ++ (z ∷ [])) h.0 h.1, h.2)

pub remove-Returned :
    (l : Cells) (b : List ℕ) (x : ℕ) (a : List ℕ)
    → Returned l tt b x a
    → ((remove tt l).0 ≡ some x) × At (remove tt l).1 tt b a
remove-Returned (at p q) b x a h = absurd h
remove-Returned (after p y q) b x a h = (ap some h.1, (h.0, h.2))

pub find_hit :
    (l : Cells) (f : ℕ → Bool) (b xs : List ℕ) (x : ℕ) (a : List ℕ)
    → At l tt b (xs ++ (x ∷ a))
    → All (λ y. f y ≡ false) xs
    → f x ≡ true
    → ((find tt f l).0 ≡ some x) × Returned (find tt f l).1 tt (b ++ xs) x a
find_hit (at p q) f b xs x a h no_match hit =
    rw (h.1, ← h.0) (find_from_hit f p xs x a no_match hit)
find_hit (after p y q) f b xs x a h no_match hit =
    rw (h.1, ← h.0) (find_from_hit f (p ++ (y ∷ [])) xs x a no_match hit)

pub find_miss :
    (l : Cells) (f : ℕ → Bool) (b a : List ℕ)
    → At l tt b a
    → All (λ y. f y ≡ false) a
    → ((find tt f l).0 ≡ none) × At (find tt f l).1 tt (b ++ a) []
find_miss (at p q) f b a h no_match = rw (h.1, ← h.0) (find_from_miss f p a no_match)
find_miss (after p y q) f b a h no_match =
    rw (h.1, ← h.0) (find_from_miss f (p ++ (y ∷ [])) a no_match)

abbrev pub sample : ListLib
sample = record {
  L = Cells;
  I = Unit {0};
  items = items;
  At = At;
  Returned = Returned;
  list_create = at [] [];
  list_append = λ l x. at [] (items l ++ (x ∷ []));
  list_iterator_create = λ l. (tt, at [] (items l));
  list_iterator_destroy = λ i l. l;
  list_next = next;
  list_remove = remove;
  list_find = find;
  create_items = refl;
  append_items = λ l x. refl;
  iterator_At = λ l. (refl, refl);
  destroy_items = λ i l. refl;
  At_items = λ l i b a h. At-items l b a h;
  next_some = λ l i b x a h. next-some l b x a h;
  next_none = λ l i b h. next-none l b h;
  keep_returned = λ l i b x a h. keep-Returned l b x a h;
  remove_returned = λ l i b x a h. remove-Returned l b x a h;
  find_hit = λ l i f b xs x a h n t. find_hit l f b xs x a h n t;
  find_miss = λ l i f b a h n. find_miss l f b a h n;
}
