-- ===== src/Logs/Shown.antt =====
-- What the messages of the two programs show, and what becomes of them when the lock fails.
use deamon.Common.{
  ℕ, zero, suc, ◌<◌, ◌≡◌, ◌⊎◌, inl, refl, lt→ltb, le→ltb, Bool, true, false, Option, none, some,
  List, [], ◌∷◌, ◌++◌, All, ltb, arith, if◌then◌else◌,
}
use deamon.Common.Outcome.{ok, fault, indeterminate, exhausted}
use deamon.Logs.{Log, LogOption, log_level_quiet, log_level_fatal, log_level_debug, log_init}
use deamon.Logs.Line.{
  Stream, to_stderr, returned, exited, prefix, pretty_time, pretty_fmt, lock_failed, log_printf,
  print_both, log_locked, log_msg,
}

pretty_time-++ : (cs : List ℕ) (c : ℕ) → pretty_time (cs ++ (c ∷ [])) ≡ ok cs
unfolding pretty_time
pretty_time-++ [] c = refl
pretty_time-++ (x ∷ []) c = refl
pretty_time-++ (x ∷ (y ∷ ys)) c = rw (pretty_time-++ (y ∷ ys) c)

-- The options that both `main` functions set before anything else.
abbrev pub main_opts : LogOption
main_opts = record {
  stderr_level = log_level_debug;
  syslog_level = log_level_quiet;
  logfile_level = log_level_quiet;
}

-- A line of the log on stderr.
abbrev pub shown : List ℕ → ℕ → List ℕ → List ℕ
shown time level fmt = pretty_fmt time (prefix level) fmt

module _ {Args : Type 0} (vfprintf : List ℕ → Args → List ℕ) (place : Args) where
  log_msg-main_opts :
      (junk : Bool) (prog : Option ℕ) (opened : ℕ ⊎ ℕ) (time : List ℕ) (nl level : ℕ) (fmt : List ℕ)
      (args : Args) (rcs : List ℕ)
      → log_msg vfprintf
          (time ++ (nl ∷ []))
          true
          (some (log_init junk prog main_opts true opened none).1)
          place
          (0 ∷ rcs)
          level
          fmt
          args
        ≡ ok (
          returned tt,
          if ltb level log_level_debug
              then (to_stderr, vfprintf (shown time level fmt) args) ∷ []
              else [],
        )
  unfolding log_init log_msg log_locked print_both log_printf
  log_msg-main_opts junk prog opened time nl level fmt args rcs = rw (
    log_init,
    pretty_time-++ time nl,
    le→ltb level 0 (omega arith),
    either (ltb level log_level_debug),
  )
    where
      either :
          (b : Bool)
          → print_both vfprintf
              (if b then some to_stderr else none)
              none
              (pretty_fmt time (if b then prefix level else []) fmt)
              args
            ≡ ok (if b then (to_stderr, vfprintf (shown time level fmt) args) ∷ [] else [])
      either true = refl
      either false = refl

  log_msg_both :
      (junk : Bool) (prog : Option ℕ) (opts : LogOption) (fd : ℕ) (before : Option Log)
      (time : List ℕ) (nl level : ℕ) (fmt : List ℕ) (args : Args) (rcs : List ℕ)
      → level < opts.stderr_level
      → level < opts.logfile_level
      → log_msg vfprintf
          (time ++ (nl ∷ []))
          true
          (some (log_init junk prog opts true (inl fd) before).1)
          place
          (0 ∷ rcs)
          level
          fmt
          args
        ≡ fault indeterminate
  unfolding log_init log_msg log_locked print_both
  log_msg_both junk prog opts fd before time nl level fmt args rcs h k = rw (
    log_init,
    lt→ltb 0 opts.logfile_level (omega (arith, k)),
    pretty_time-++ time nl,
    lt→ltb level opts.stderr_level h,
    lt→ltb level opts.logfile_level k,
  )

  -- When malloc succeeds, the text of asctime is `time` and a newline, and the lock of the log can be
  -- taken. With the options that both programs set, a message of a level below LOG_LEVEL_DEBUG
  -- goes to stderr once, in one line with the time, the prefix of its level and its text, and a
  -- message of a higher level, so every call of `debug`, goes nowhere. But after an
  -- initialisation that has opened the log file, a message whose level is below both that of
  -- stderr and that of the file is undefined behaviour: its argument list is read a second time
  -- after the first vfprintf has used it up.
  pub log_msg-log_init :
      (junk : Bool) (prog : Option ℕ) (opened : ℕ ⊎ ℕ) (opts : LogOption) (fd : ℕ)
      (before : Option Log) (time : List ℕ) (nl level : ℕ) (fmt : List ℕ) (args : Args)
      (rcs : List ℕ)
      → level < opts.stderr_level
      → level < opts.logfile_level
      → (log_msg vfprintf
            (time ++ (nl ∷ []))
            true
            (some (log_init junk prog main_opts true opened none).1)
            place
            (0 ∷ rcs)
            level
            fmt
            args
          ≡ ok (
            returned tt,
            if ltb level log_level_debug
                then (to_stderr, vfprintf (shown time level fmt) args) ∷ []
                else [],
          ))
        × (log_msg vfprintf
              (time ++ (nl ∷ []))
              true
              (some (log_init junk prog opts true (inl fd) before).1)
              place
              (0 ∷ rcs)
              level
              fmt
              args
            ≡ fault indeterminate)
  log_msg-log_init junk prog opened opts fd before time nl level fmt args rcs h k = (
    log_msg-main_opts junk prog opened time nl level fmt args rcs,
    log_msg_both junk prog opts fd before time nl level fmt args rcs h k,
  )

  module _ (stamp : List ℕ) (granted : Bool) (log : Option Log) where
    -- Locks that fail.
    abbrev pub AllFail : List ℕ → Type 0
    AllFail rcs = All (λ (n : ℕ). 0 < n) rcs

    never_ends :
        (rcs : List ℕ) (level : ℕ) (fmt : List ℕ) (args : Args)
        → AllFail rcs
        → log_msg vfprintf stamp granted log place rcs level fmt args ≡ fault exhausted
    unfolding log_msg
    never_ends [] level fmt args h = refl
    never_ends (zero ∷ rcs) level fmt args h = absurd (omega (arith, h.0))
    never_ends (suc n ∷ rcs) level fmt args h =
        rw (never_ends rcs log_level_fatal lock_failed place h.1)

    fails_then_logs :
        (rc : ℕ) (failed later : List ℕ) (lines : List (Stream × List ℕ)) (level : ℕ) (fmt : List ℕ)
        (args : Args)
        → 0 < rc
        → AllFail failed
        → log_locked vfprintf stamp granted log log_level_fatal lock_failed place ≡ ok lines
        → log_msg vfprintf stamp granted log place ((rc ∷ failed) ++ (0 ∷ later)) level fmt args
          ≡ ok (exited 1, lines)
    unfolding log_msg
    fails_then_logs zero failed later lines level fmt args p h q = absurd (omega (arith, p))
    fails_then_logs (suc n) [] later lines level fmt args p h q = rw q
    fails_then_logs (suc n) (rc ∷ failed) later lines level fmt args p h q =
        rw (fails_then_logs rc failed later lines log_level_fatal lock_failed place h.0 h.1 q)

    -- When the lock of the log cannot be taken, at the first call and at any number of further
    -- ones, the message itself is lost: once the lock can be taken, the line of the macro is
    -- logged, one time, and the process ends with the status 1; but as long as the lock cannot be
    -- taken, `fatal` and `_log_msg` call one another without end, for no number of calls is
    -- enough.
    pub log_msg_locks :
        (rc : ℕ) (failed later : List ℕ) (lines : List (Stream × List ℕ)) (level : ℕ) (fmt : List ℕ)
        (args : Args)
        → 0 < rc
        → AllFail failed
        → log_locked vfprintf stamp granted log log_level_fatal lock_failed place ≡ ok lines
        → (log_msg vfprintf stamp granted log place ((rc ∷ failed) ++ (0 ∷ later)) level fmt args
            ≡ ok (exited 1, lines))
          × (log_msg vfprintf stamp granted log place (rc ∷ failed) level fmt args
              ≡ fault exhausted)
    log_msg_locks rc failed later lines level fmt args p h q = (
      fails_then_logs rc failed later lines level fmt args p h q,
      never_ends (rc ∷ failed) level fmt args (p, h),
    )
