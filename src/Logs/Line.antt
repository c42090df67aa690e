-- ===== src/Logs/Line.antt =====
-- src/common/logs.c: the lines that are logged. Texts are lists of character codes. vfprintf and
-- asctime are parameters, and so are the results of pthread_mutex_lock on the lock of the log.
use Prim.Native.Char.{code}
use Prim.Native.String.{String}
use deamon.Common.{
  ℕ, zero, suc, Bool, Option, none, some, List, [], ◌∷◌, ◌++◌, ◌==◌, ltb, if◌then◌else◌,
}
use deamon.Common.Int.{ℤ, minus_one}
use deamon.Common.Outcome.{
  Outcome, ok, fault, null_dereference, out_of_bounds, indeterminate, exhausted, ◌>>=◌,
}
use deamon.Logs.{
  Log, log_level_fatal, log_level_error, log_level_info, log_level_warning, log_level_verbose,
  log_level_debug,
}

abbrev pub codes : String → List ℕ
codes String.[] = []
codes (String.◌∷◌ c s) = code c ∷ codes s

pub data Stream : Type 0 where
  to_stderr : Stream
  to_file : ℕ → Stream

-- Whether a function came back, or ended the process with a status.
pub data Ended {ℓ} (A : Type ℓ) : Type ℓ where
  returned : A → Ended A
  exited : ℕ → Ended A

-- The switch of `_log_msg`.
unfoldable pub prefix : ℕ → List ℕ
prefix level =
    if level == log_level_fatal
    then codes "fatal:"
    else if level == log_level_error
    then codes "error:"
    else if level == log_level_info
    then codes "info:"
    else if level == log_level_warning
    then codes "warning:"
    else if level == log_level_verbose
    then []
    else if level == log_level_debug
    then codes "debug:"
    else codes "internal error:"

-- The loop to the end of the text, and the NUL in place of its last character.
unfoldable pub pretty_time : List ℕ → Outcome (List ℕ)
pretty_time [] = fault out_of_bounds
pretty_time (c ∷ []) = ok []
pretty_time (c ∷ cs) = pretty_time cs >>= λ r. ok (c ∷ r)

-- "[%s] - %s %s\n"
unfoldable pub pretty_fmt : List ℕ → List ℕ → List ℕ → List ℕ
pretty_fmt time pfx fmt = codes "[" ++ time ++ codes "] - " ++ pfx ++ codes " " ++ fmt ++ codes "\n"

-- The format of the macro `skrum_mutex_lock`.
abbrev pub lock_failed : List ℕ
lock_failed = codes "%s:%d %s: pthread_mutex_lock(): %m"

module _ {Args : Type 0} (vfprintf : List ℕ → Args → List ℕ) where
  -- A stream that is not open gets nothing.
  unfoldable pub log_printf : Option Stream → List ℕ → Args → List (Stream × List ℕ)
  log_printf none fmt args = []
  log_printf (some stream) fmt args = (stream, vfprintf fmt args) ∷ []

  -- The two calls of `_log_printf` get the same va_list, whose value is indeterminate after the
  -- first vfprintf.
  unfoldable pub print_both :
      Option Stream → Option Stream → List ℕ → Args → Outcome (List (Stream × List ℕ))
  unfolding log_printf
  print_both (some a) (some b) line args = fault indeterminate
  print_both first second line args = ok (log_printf first line args ++ log_printf second line args)

  -- `_log_msg` under the lock; `stamp` is the text of asctime, and `granted` says whether malloc
  -- succeeds, which is only reported when it does not. The pointer `log` is not checked.
  unfoldable pub log_locked :
      List ℕ → Bool → Option Log → ℕ → List ℕ → Args → Outcome (List (Stream × List ℕ))
  unfolding print_both pretty_fmt
  log_locked stamp granted none level fmt args = fault null_dereference
  log_locked stamp granted (some log) level fmt args = pretty_time stamp >>= λ time.
      let pfx = if ltb level log.opts.stderr_level then prefix level else [] in
      if granted
      then print_both (if ltb level log.opts.stderr_level then some to_stderr else none)
          (if ltb level log.opts.logfile_level
            then elim log.logfp [ none ↦ none | some fd ↦ some (to_file fd) ]
            else none)
          (pretty_fmt time pfx fmt) args
      else fault null_dereference

  module _ (stamp : List ℕ) (granted : Bool) (log : Option Log) (place : Args) where
    -- `_log_msg`; the list holds what the calls of pthread_mutex_lock return, and `place` is the
    -- arguments of the line that the macro logs when one fails. That line is logged by `fatal`, so
    -- by a call of `_log_msg` again, which takes the lock; then the process ends. The unlocking is
    -- taken to succeed.
    unfoldable pub log_msg :
        List ℕ → ℕ → List ℕ → Args → Outcome (Ended (Unit {0}) × List (Stream × List ℕ))
    unfolding log_locked
    log_msg [] level fmt args = fault exhausted
    log_msg (zero ∷ rcs) level fmt args =
        log_locked stamp granted log level fmt args >>= λ lines. ok (returned tt, lines)
    log_msg (suc n ∷ rcs) level fmt args =
        log_msg rcs log_level_fatal lock_failed place >>= λ r. ok (exited 1, r.1)

    unfoldable pub fatal :
        List ℕ → List ℕ → Args → Outcome (Ended (Unit {0}) × List (Stream × List ℕ))
    unfolding log_msg
    fatal rcs fmt args = log_msg rcs log_level_fatal fmt args >>= λ r. ok (exited 1, r.1)

    -- SKRUM_ERROR is -1.
    unfoldable pub error : List ℕ → List ℕ → Args → Outcome (Ended ℤ × List (Stream × List ℕ))
    unfolding log_msg
    error rcs fmt args = log_msg rcs log_level_error fmt args >>= λ r.
        ok (elim r.0 [ returned u ↦ returned minus_one | exited status ↦ exited status ], r.1)

    unfoldable pub info :
        List ℕ → List ℕ → Args → Outcome (Ended (Unit {0}) × List (Stream × List ℕ))
    unfolding log_msg
    info rcs fmt args = log_msg rcs log_level_info fmt args

    unfoldable pub debug :
        List ℕ → List ℕ → Args → Outcome (Ended (Unit {0}) × List (Stream × List ℕ))
    unfolding log_msg
    debug rcs fmt args = log_msg rcs log_level_debug fmt args
