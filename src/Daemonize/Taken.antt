-- ===== src/Daemonize/Taken.antt =====
-- Which descriptors are open: after the loop that closes them, and after one more file is opened.
use deamon.Common.{
  ℕ, zero, suc, ◌<◌, ◌≡◌, ◌⊎◌, inl, inr, refl, sym, ap, ◌∙◌, Option, none, some, List, [], ◌∷◌,
  ◌++◌, length, arith,
}
use mathlib.Core.Path.{subst}
use deamon.Daemonize.{File, Descriptors, close_all}

-- The file at a descriptor, when they are taken in order from 0 on.
abbrev pub file_at : List File → ℕ → Option File
file_at [] j = none
file_at (f ∷ fs) zero = some f
file_at (f ∷ fs) (suc j) = file_at fs j

file_at_below : (fs : List File) (j : ℕ) → j < length fs → file_at fs j ≡ none → ⊥
file_at_below [] j h q = omega (arith, h)
file_at_below (f ∷ fs) zero h q = cc
file_at_below (f ∷ fs) (suc j) h q = file_at_below fs j (omega (arith, h)) q

file_at_end : (fs : List File) → file_at fs (length fs) ≡ none
file_at_end [] = refl
file_at_end (f ∷ fs) = file_at_end fs

file_at_new : (fs : List File) (f : File) → file_at (fs ++ (f ∷ [])) (length fs) ≡ some f
file_at_new [] f = refl
file_at_new (g ∷ fs) f = file_at_new fs f

file_at_other :
    (fs : List File) (f : File) (j : ℕ)
    → (j ≡ length fs → ⊥)
    → file_at (fs ++ (f ∷ [])) j ≡ file_at fs j
file_at_other [] f zero h = absurd (h refl)
file_at_other [] f (suc j) h = refl
file_at_other (g ∷ fs) f zero h = refl
file_at_other (g ∷ fs) f (suc j) h = file_at_other fs f j (λ q. h (omega (arith, q)))

equal_or_not : (a b : ℕ) → (a ≡ b) ⊎ (a ≡ b → ⊥)
equal_or_not a b = ground arith

module _ (ds : Descriptors) where
  open ds use {World, table_size, file_of, open_file, dup, close}

  -- The open descriptors are those of the list, in order.
  abbrev pub Holds : World → List File → Type 0
  Holds w fs = (j : ℕ) → file_of w j ≡ file_at fs j

  pub closed :
      (n j : ℕ) (w : World) → (n < j → file_of w j ≡ none) → file_of (close_all ds n w) j ≡ none
  unfolding close_all
  closed zero j w h = elim (equal_or_not j 0) [
    | inl q ↦ subst (λ x. file_of (close 0 w) x ≡ none) (sym q) (ds.close_same 0 w)
    | inr q ↦ ds.close_other 0 j w q ∙ h (omega (arith, q))
  ]
  closed (suc n) j w h = closed n j (close (suc n) w) (λ above. elim (equal_or_not j (suc n)) [
    | inl q ↦ subst (λ x. file_of (close (suc n) w) x ≡ none) (sym q) (ds.close_same (suc n) w)
    | inr q ↦ ds.close_other (suc n) j w q ∙ h (omega (arith, above, q))
  ])

  -- A new descriptor is the next one.
  pub next_one :
      (f : File) (w w' : World) (fd : ℕ) (fs : List File)
      → Holds w fs
      → file_of w fd ≡ none
      → ((j : ℕ) → j < fd → file_of w j ≡ none → ⊥)
      → file_of w' fd ≡ some f
      → ((j : ℕ) → (j ≡ fd → ⊥) → file_of w' j ≡ file_of w j)
      → (fd ≡ length fs) × Holds w' (fs ++ (f ∷ []))
  next_one f w w' fd fs h free low new same = (
    place,
    λ j. elim (equal_or_not j fd) [
      | inl q ↦
          subst (λ x. file_of w' x ≡ file_at (fs ++ (f ∷ [])) x) (sym q)
            (new ∙ sym (ap (file_at (fs ++ (f ∷ []))) place ∙ file_at_new fs f))
      | inr q ↦ same j q ∙ h j ∙ sym (file_at_other fs f j (λ e. q (e ∙ sym place)))
    ],
  )
    where
      not_above : fd < length fs → ⊥
      not_above lt = file_at_below fs fd lt (sym (h fd) ∙ free)

      not_below : length fs < fd → ⊥
      not_below lt = low (length fs) lt (h (length fs) ∙ file_at_end fs)

      place : fd ≡ length fs
      place = omega (arith, not_above, not_below)
