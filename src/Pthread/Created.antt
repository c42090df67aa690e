-- ===== src/Pthread/Created.antt =====
-- When the macros that create a thread come back, and what they leave.
use deamon.Common.{
  ℕ, zero, suc, ◌+◌, ◌<◌, ◌≡◌, refl, sym, ap, ◌∙◌, append_assoc, append-nil, List, [], ◌∷◌, ◌++◌,
  arith,
}
use deamon.Logs.{log_level_fatal, log_level_error}
use deamon.Logs.Line.{Ended, returned, exited}
use deamon.Pthread.{
  Codes, Objects, or_fatal, or_error, skrum_attr_init, skrum_attr_destroy, create_thread,
  skrum_thread_create, skrum_thread_create_detached, ◌>>◌, attr_destroyed,
}

abbrev pub sum_of : Codes → ℕ
sum_of c = c.attr_init + c.attr_setdetachstate + c.create

-- An attribute object that could not be destroyed.
abbrev pub kept : ℕ → ℕ
kept zero = 0
kept (suc n) = 1

-- The line of `error` that a call logs which returned the number.
abbrev pub errors : ℕ → List ℕ
errors zero = []
errors (suc n) = log_level_error ∷ []

-- What is logged before the creation: the size of the stack is only set when the object is there.
abbrev pub init_errors : ℕ → ℕ → List ℕ
init_errors zero stacksize = errors stacksize
init_errors (suc n) stacksize = []

-- A call of a macro that gave `(ended, t)` from `s`.
pub data Created (c : Codes) (func : ℕ) (s : Objects) : Ended (Unit {0}) × Objects → Type 0 where
  -- a thread more; the attribute object is gone if that call succeeds, and the two calls that may
  -- fail have each logged a line of `error` if they did, and nothing else is logged
  started :
      (t : Objects)
      → sum_of c ≡ 0
      → t.threads ≡ func ∷ s.threads
      → t.attrs ≡ s.attrs + kept c.attr_destroy
      → t.lines ≡ s.lines ++ (errors c.attr_setstacksize ++ errors c.attr_destroy)
      → Created c func s (returned tt, t)
  -- the end of the process, its last line that of `fatal`
  refused :
      (t : Objects)
      → 0 < sum_of c
      → t.threads ≡ s.threads
      → t.lines ≡ s.lines ++ (init_errors c.attr_init c.attr_setstacksize ++ (log_level_fatal ∷ []))
      → Created c func s (exited 1, t)

module _ (func : ℕ) (s : Objects) where
  -- From the destruction of the attribute object on, with one more initialised.
  destroyed :
      (c : Codes) (t : Objects)
      → sum_of c ≡ 0
      → t.threads ≡ func ∷ s.threads
      → t.attrs ≡ s.attrs + 1
      → t.lines ≡ s.lines ++ errors c.attr_setstacksize
      → Created c func s (skrum_attr_destroy c t)
  unfolding skrum_attr_destroy or_error
  destroyed c t z h k l = go c.attr_destroy refl
    where
      stack_lines : List ℕ
      stack_lines = errors c.attr_setstacksize

      both :
          (xs : List ℕ)
          → errors c.attr_destroy ≡ xs
          → stack_lines ++ errors c.attr_destroy ≡ stack_lines ++ xs
      both xs q = ap (λ ys. stack_lines ++ ys) q

      go : (n : ℕ) → c.attr_destroy ≡ n → Created c func s (or_error n (attr_destroyed n t))
      go zero q =
          started _ z h (omega (arith, k, ap kept q))
            (l ∙ ap (λ xs. s.lines ++ xs) (sym (both [] (ap errors q) ∙ append-nil stack_lines)))
      go (suc n) q = started _ z h (omega (arith, k, ap kept q)) (
          ap (λ xs. xs ++ (log_level_error ∷ [])) l
          ∙ append_assoc s.lines stack_lines (log_level_error ∷ [])
          ∙ ap (λ xs. s.lines ++ xs) (sym (both (log_level_error ∷ []) (ap errors q))))

  -- The line of `fatal` after the object has been initialised.
  fatal_line :
      (c : Codes) (t : Objects)
      → c.attr_init ≡ 0
      → t.lines ≡ s.lines ++ errors c.attr_setstacksize
      → t.lines ++ (log_level_fatal ∷ [])
        ≡ s.lines ++ (init_errors c.attr_init c.attr_setstacksize ++ (log_level_fatal ∷ []))
  fatal_line c t z l =
      ap (λ xs. xs ++ (log_level_fatal ∷ [])) l
      ∙ append_assoc s.lines (errors c.attr_setstacksize) (log_level_fatal ∷ [])
      ∙ ap (λ n. s.lines ++ (init_errors n c.attr_setstacksize ++ (log_level_fatal ∷ []))) (sym z)

  -- From the creation on.
  created :
      (c : Codes) (t : Objects)
      → c.attr_init + c.attr_setdetachstate ≡ 0
      → t.threads ≡ s.threads
      → t.attrs ≡ s.attrs + 1
      → t.lines ≡ s.lines ++ errors c.attr_setstacksize
      → Created c func s (create_thread c func t >> λ s2. skrum_attr_destroy c s2)
  unfolding create_thread or_fatal
  created c t z h k l = go c.create refl
    where
      go :
          (n : ℕ)
          → c.create ≡ n
          → Created c func s (
              or_fatal n t
              >> (λ s1. (returned tt, record s1 { threads = func ∷ s1.threads }))
              >> λ s2. skrum_attr_destroy c s2)
      go zero q = destroyed c _ (omega (arith, z, q)) (ap (λ x. func ∷ x) h) k l
      go (suc n) q = refused _ (omega (arith, q)) h (fatal_line c t (omega (arith, z)) l)

  -- From the detached state on.
  detached :
      (c : Codes) (t : Objects)
      → c.attr_init ≡ 0
      → t.threads ≡ s.threads
      → t.attrs ≡ s.attrs + 1
      → t.lines ≡ s.lines ++ errors c.attr_setstacksize
      → Created c func s (
          or_fatal c.attr_setdetachstate t >> λ s2.
          create_thread c func s2 >> λ s3. skrum_attr_destroy c s3)
  unfolding or_fatal
  detached c t z h k l = go c.attr_setdetachstate refl
    where
      go :
          (n : ℕ)
          → c.attr_setdetachstate ≡ n
          → Created c func s
              (or_fatal n t >> λ s2. create_thread c func s2 >> λ s3. skrum_attr_destroy c s3)
      go zero q = created c t (omega (arith, z, q)) h k l
      go (suc n) q = refused _ (omega (arith, q)) h (fatal_line c t z l)

  -- `skrum_thread_create_detached` comes back just when the attribute object could be initialised
  -- and set and the thread be created, and then there is that thread more; a failure to set the
  -- size of the stack or to destroy the object is only logged, by one line of `error` each, and
  -- nothing else is. Otherwise the process ends with the status 1 and no thread has been created;
  -- the lines are that of `error` for the size of the stack, if that failed, and that of `fatal`.
  pub thread_create_detached-Created :
      (c : Codes) → Created c func s (skrum_thread_create_detached c func s)
  unfolding skrum_thread_create_detached skrum_attr_init or_fatal or_error
  thread_create_detached-Created c = go c.attr_init c.attr_setstacksize refl refl
    where
      go :
          (n k : ℕ)
          → c.attr_init ≡ n
          → c.attr_setstacksize ≡ k
          → Created c func s (
              or_fatal n s >> (λ s1. or_error k (record s1 { attrs = s1.attrs + 1 })) >> λ s1.
              or_fatal c.attr_setdetachstate s1 >> λ s2.
              create_thread c func s2 >> λ s3. skrum_attr_destroy c s3)
      go zero zero q r = detached c _ q refl refl (sym (rw r (append-nil s.lines)))
      go zero (suc k) q r = detached c _ q refl refl (rw r refl)
      go (suc n) k q r = refused _ (omega (arith, q)) refl (rw q refl)

-- What makes the object detached is left out.
abbrev pub joinable : Codes → Codes
joinable c = record c { attr_setdetachstate = 0 }

-- `skrum_thread_create` does what `skrum_thread_create_detached` does when setting the detached state
-- succeeds.
pub thread_create-detached :
    (c : Codes) (func : ℕ) (s : Objects)
    → skrum_thread_create c func s ≡ skrum_thread_create_detached (joinable c) func s
unfolding skrum_thread_create skrum_thread_create_detached skrum_attr_init create_thread
    skrum_attr_destroy or_fatal
thread_create-detached c func s = go (skrum_attr_init c s)
  where
    go :
        (x : Ended (Unit {0}) × Objects)
        → (x >> λ s1. create_thread c func s1 >> λ s2. skrum_attr_destroy c s2) ≡ (
            x >> λ s1. or_fatal 0 s1 >> λ s2.
            create_thread (joinable c) func s2 >> λ s3. skrum_attr_destroy (joinable c) s3)
    go (returned u, t) = refl
    go (exited status, t) = refl

of_Created :
    (c : Codes) (func : ℕ) (s : Objects) (x : Ended (Unit {0}) × Objects)
    → Created c func s x
    → sum_of c ≡ 0
    → (t : Objects) × (x ≡ (returned tt, t)) × (t.threads ≡ func ∷ s.threads)
of_Created c func s _ (started t z h k l) w = (t, refl, h)
of_Created c func s _ (refused t z h k) w = absurd (omega (arith, z, w))

pub thread_create_goes :
    (c : Codes) (func : ℕ) (s : Objects)
    → c.attr_init + c.create ≡ 0
    → (t : Objects) × (skrum_thread_create c func s ≡ (returned tt, t))
      × (t.threads ≡ func ∷ s.threads)
thread_create_goes c func s z =
    let (t, q, h) =
      of_Created (joinable c) func s _ (thread_create_detached-Created func s (joinable c))
        (omega (arith, z)) in
    (t, thread_create-detached c func s ∙ q, h)
