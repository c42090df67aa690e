-- ===== src/Nodes.antt =====
-- The calls that the controller makes of the LSD-Tools list (src/common/list.h), as a parameter
-- with the behaviour that the header documents. Items are addresses of nodes.
pub mod Sample
use deamon.Common.{ℕ, ◌≡◌, Bool, true, false, Option, none, some, List, [], ◌∷◌, ◌++◌, All}

pub record ListLib : Type 1 where
  pub L : Type 0  -- a list with its iterators
  pub I : Type 0  -- the handle of an iterator
  pub items : L → List ℕ
  -- The iterator has passed the first items and has the others ahead.
  pub At : L → I → List ℕ → List ℕ → Type 0
  -- So it does, and the item between them is the last one that `list_next` returned.
  pub Returned : L → I → List ℕ → ℕ → List ℕ → Type 0
  pub list_create : L
  pub list_append : L → ℕ → L
  pub list_iterator_create : L → I × L
  pub list_iterator_destroy : I → L → L
  pub list_next : I → L → Option ℕ × L
  pub list_remove : I → L → Option ℕ × L
  pub list_find : I → (ℕ → Bool) → L → Option ℕ × L
  pub create_items : items list_create ≡ []
  pub append_items : (l : L) (x : ℕ) → items (list_append l x) ≡ items l ++ (x ∷ [])
  pub iterator_At : (l : L) → At (list_iterator_create l).1 (list_iterator_create l).0 [] (items l)
  pub destroy_items : (i : I) (l : L) → items (list_iterator_destroy i l) ≡ items l
  pub At_items : (l : L) (i : I) (b a : List ℕ) → At l i b a → items l ≡ b ++ a
  pub next_some :
      (l : L) (i : I) (b : List ℕ) (x : ℕ) (a : List ℕ)
      → At l i b (x ∷ a)
      → ((list_next i l).0 ≡ some x) × Returned (list_next i l).1 i b x a
  pub next_none :
      (l : L) (i : I) (b : List ℕ)
      → At l i b []
      → ((list_next i l).0 ≡ none) × At (list_next i l).1 i b []
  pub keep_returned :
      (l : L) (i : I) (b : List ℕ) (x : ℕ) (a : List ℕ)
      → Returned l i b x a
      → At l i (b ++ (x ∷ [])) a
  pub remove_returned :
      (l : L) (i : I) (b : List ℕ) (x : ℕ) (a : List ℕ)
      → Returned l i b x a
      → ((list_remove i l).0 ≡ some x) × At (list_remove i l).1 i b a
  pub find_hit :
      (l : L) (i : I) (f : ℕ → Bool) (b xs : List ℕ) (x : ℕ) (a : List ℕ)
      → At l i b (xs ++ (x ∷ a))
      → All (λ y. f y ≡ false) xs
      → f x ≡ true
      → ((list_find i f l).0 ≡ some x) × Returned (list_find i f l).1 i (b ++ xs) x a
  pub find_miss :
      (l : L) (i : I) (f : ℕ → Bool) (b a : List ℕ)
      → At l i b a
      → All (λ y. f y ≡ false) a
      → ((list_find i f l).0 ≡ none) × At (list_find i f l).1 i (b ++ a) []
