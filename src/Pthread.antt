-- ===== src/Pthread.antt =====
-- src/common/macros.h: the macros around the calls of the thread library, and src/common/xsignal.c.
-- What the calls return is a parameter.
pub mod Created
use deamon.Common.{
  ℕ, zero, suc, ◌+◌, ◌-◌, Bool, true, false, Option, none, some, List, [], ◌∷◌, ◌++◌, ltb, ◌==◌,
  ◌||◌, if◌then◌else◌,
}
use deamon.Logs.{log_level_fatal, log_level_error}
use deamon.Logs.Line.{Ended, returned, exited}

-- What the calls return in one use of a macro: 0, or an error number.
pub record Codes : Type 0 where
  pub attr_init : ℕ
  pub attr_setstacksize : ℕ
  pub attr_setdetachstate : ℕ
  pub create : ℕ
  pub attr_destroy : ℕ

-- The functions that the threads were created with, the attribute objects that are initialised,
-- errno, and the levels of the lines that were logged.
pub record Objects : Type 0 where
  pub threads : List ℕ
  pub attrs : ℕ
  pub errno : ℕ
  pub lines : List ℕ

abbrev pub Run : Type 0
Run = Ended (Unit {0}) × Objects

-- One statement after another; a process that has ended does nothing more.
infixl 5 ◌>>◌
abbrev pub ◌>>◌ : Run → (Objects → Run) → Run
(returned u, s) >> rest = rest s
(exited status, s) >> rest = (exited status, s)

-- `errno = err; fatal(...)` and `errno = err; error(...)` on a number other than 0.
unfoldable pub or_fatal : ℕ → Objects → Run
or_fatal zero s = (returned tt, s)
or_fatal (suc n) s =
    (exited 1, record s { errno = suc n; lines = s.lines ++ (log_level_fatal ∷ []) })

unfoldable pub or_error : ℕ → Objects → Run
or_error zero s = (returned tt, s)
or_error (suc n) s =
    (returned tt, record s { errno = suc n; lines = s.lines ++ (log_level_error ∷ []) })

-- `skrum_mutex_init`, `skrum_mutex_destroy`, `skrum_mutex_lock`, `skrum_mutex_unlock` and
-- `skrum_cond_init`; the `abort` after `fatal` is not reached.
unfoldable pub skrum_mutex_call : ℕ → Objects → Run
unfolding or_fatal
skrum_mutex_call err s = or_fatal err s

-- `skrum_cond_signal`, `skrum_cond_wait` and `skrum_cond_destroy`.
unfoldable pub skrum_cond_call : ℕ → Objects → Run
unfolding or_error
skrum_cond_call err s = or_error err s

unfoldable pub skrum_attr_init : Codes → Objects → Run
unfolding or_fatal or_error
skrum_attr_init c s = or_fatal c.attr_init s >> λ s1.
    or_error c.attr_setstacksize (record s1 { attrs = s1.attrs + 1 })

-- pthread_attr_destroy, which returned the number.
abbrev pub attr_destroyed : ℕ → Objects → Objects
attr_destroyed zero s = record s { attrs = s.attrs - 1 }
attr_destroyed (suc n) s = s

unfoldable pub skrum_attr_destroy : Codes → Objects → Run
unfolding or_error
skrum_attr_destroy c s = or_error c.attr_destroy (attr_destroyed c.attr_destroy s)

-- pthread_create; the thread runs `func`.
unfoldable pub create_thread : Codes → ℕ → Objects → Run
unfolding or_fatal
create_thread c func s =
    or_fatal c.create s >> λ s1. (returned tt, record s1 { threads = func ∷ s1.threads })

unfoldable pub skrum_thread_create : Codes → ℕ → Objects → Run
unfolding skrum_attr_init create_thread skrum_attr_destroy
skrum_thread_create c func s =
    skrum_attr_init c s >> λ s1. create_thread c func s1 >> λ s2. skrum_attr_destroy c s2

unfoldable pub skrum_thread_create_detached : Codes → ℕ → Objects → Run
unfolding skrum_attr_init or_fatal create_thread skrum_attr_destroy
skrum_thread_create_detached c func s = skrum_attr_init c s >> λ s1.
    or_fatal c.attr_setdetachstate s1 >> λ s2.
    create_thread c func s2 >> λ s3. skrum_attr_destroy c s3

-- The handlers that were set, the last one first: a signal and the address of a function. Signals
-- without an entry have the default action.
abbrev pub Handlers : Type 0
Handlers = List (ℕ × ℕ)

abbrev pub handler_of : ℕ → Handlers → Option ℕ
handler_of signo [] = none
handler_of signo (h ∷ hs) = if h.0 == signo then some h.1 else handler_of signo hs

-- `failed` says whether sigaction fails; `junk` is what `sa_old` holds before the call. The result
-- is `sa_old.sa_handler`, none being the default action.
unfoldable pub xsignal :
    Bool → Option ℕ → ℕ → ℕ → Handlers × Objects → Option ℕ × (Handlers × Objects)
xsignal failed junk signo f (hs, s) =
    if failed
    then (junk, (hs, record s { lines = s.lines ++ (log_level_error ∷ []) }))
    else (handler_of signo hs, ((signo, f) ∷ hs, s))
