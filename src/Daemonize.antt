-- ===== src/Daemonize.antt =====
-- src/common/deamonize.c: what `daemonize` leaves open, and the text of the lock file. Nothing calls
-- it so far. The descriptors are a parameter with what open(2), dup(2) and close(2) promise.
pub mod Detached
pub mod Digits
pub mod Taken
use deamon.Common.{
  ℕ, zero, suc, ◌+◌, ◌/◌, ◌%◌, ◌≤◌, ◌<◌, ◌≡◌, Bool, true, false, Option, none, some, List, [], ◌∷◌,
  ◌++◌, ◌==◌, length, drop, ltb, if◌then◌else◌,
}
use deamon.Common.Int.{ℤ, pos, negsuc}
use deamon.Common.Outcome.{Outcome, ok, fault, out_of_bounds}
use deamon.Logs.{log_level_error, log_level_info}
use deamon.Logs.Line.{Ended, returned, exited}
use deamon.Pthread.{Handlers}

pub data File : Type 0 where
  dev_null lock_file : File
  other : ℕ → File

-- `file_of` is the table of the descriptors.
pub record Descriptors : Type 1 where
  pub World : Type 0
  pub table_size : ℕ
  pub file_of : World → ℕ → Option File
  pub open_file : File → World → Option ℕ × World
  pub dup : ℕ → World → Option ℕ × World
  pub close : ℕ → World → World
  pub close_same : (fd : ℕ) (w : World) → file_of (close fd w) fd ≡ none
  pub close_other : (fd j : ℕ) (w : World) → (j ≡ fd → ⊥) → file_of (close fd w) j ≡ file_of w j
  -- open(2) and dup(2) take the lowest descriptor that is free.
  pub open_some :
      {f : File} {w : World} {fd : ℕ}
      → (open_file f w).0 ≡ some fd
      → (file_of w fd ≡ none)
        × ((j : ℕ) → j < fd → file_of w j ≡ none → ⊥)
        × (file_of (open_file f w).1 fd ≡ some f)
        × ((j : ℕ) → (j ≡ fd → ⊥) → file_of (open_file f w).1 j ≡ file_of w j)
  pub dup_some :
      {f : File} {w : World} {old fd : ℕ}
      → file_of w old ≡ some f
      → (dup old w).0 ≡ some fd
      → (file_of w fd ≡ none)
        × ((j : ℕ) → j < fd → file_of w j ≡ none → ⊥)
        × (file_of (dup old w).1 fd ≡ some f)
        × ((j : ℕ) → (j ≡ fd → ⊥) → file_of (dup old w).1 j ≡ file_of w j)

-- What the other calls give: getppid, fork, whether lockf gets the lock, getpid.
pub record Calls : Type 0 where
  pub parent_pid : ℕ
  pub forked : ℤ
  pub locked : Bool
  pub pid : ℕ

-- The decimal digits of a number, on fuel.
unfoldable pub decimal : ℕ → ℕ → List ℕ
decimal zero n = []
decimal (suc fuel) n =
    let rest = decimal fuel (n / 10) in
    if ltb n 10 then (n + 48) ∷ [] else rest ++ ((n % 10 + 48) ∷ [])

-- The array `str`, with the NUL.
abbrev pub str_size : ℕ
str_size = 10

abbrev pub newline : ℕ
newline = 10

-- `sprintf(str, "%d\n", pid)`; 10 digits are enough for a pid_t.
unfoldable pub pid_text : ℕ → Outcome (List ℕ)
unfolding decimal
pid_text pid =
    let text = decimal 10 pid ++ (newline ∷ []) in
    if ltb (length text) str_size then ok text else fault out_of_bounds

-- The actions that are set: SIG_IGN and `signal_handler`.
abbrev pub ignored : ℕ
ignored = 1

abbrev pub signal_handler_address : ℕ
signal_handler_address = 2

-- SIGCHLD, SIGTSTP, SIGTTOU, SIGTTIN, SIGHUP and SIGTERM, the last one first.
abbrev pub daemon_handlers : Handlers
daemon_handlers =
    (15, signal_handler_address)
    ∷ (1, signal_handler_address)
    ∷ (21, ignored)
    ∷ (22, ignored)
    ∷ (20, ignored)
    ∷ (17, ignored)
    ∷ []

-- What happens on a signal: the levels of the lines, and whether the process ends.
unfoldable pub signal_handler : ℕ → Ended (Unit {0}) × List ℕ
signal_handler sig =
    if sig == 1
    then (returned tt, log_level_info ∷ [])
    else if sig == 15
    then (exited 0, log_level_info ∷ [])
    else (returned tt, [])

module _ (ds : Descriptors) where
  open ds use {World, table_size, open_file, dup, close}

  pub record Session : Type 0 where
    pub world : World
    pub handlers : Handlers
    pub lines : List ℕ
    pub lock_text : List ℕ

  -- The for loop from getdtablesize() down to 0.
  unfoldable pub close_all : ℕ → World → World
  close_all zero w = close 0 w
  close_all (suc i) w = close_all i (close (suc i) w)

  -- `open` of /dev/null and the two calls of dup, whose results are not looked at.
  unfoldable pub open_standard : World → World
  open_standard w =
      let (null, w1) = open_file dev_null w in
      elim null [ none ↦ w1 | some i ↦ (dup i (dup i w1).1).1 ]

  abbrev pub said : ℕ → Session → Session
  said level s = record s { lines = s.lines ++ (level ∷ []) }

  -- From the lock file on. It is not truncated, and the text goes over what it holds; `write` takes
  -- the whole text.
  unfoldable pub take_lock : Calls → Session → Outcome (Ended (Unit {0}) × Session)
  unfolding pid_text
  take_lock c s =
      let (lfp, w) = open_file lock_file s.world in
      let s1 : Session = record s { world = w } in
      elim lfp [
        | none ↦ ok (exited 1, said log_level_error s1)
        | some fd ↦
            if c.locked
            then elim (pid_text c.pid) [
              | fault f ↦ fault f
              | ok text ↦ ok (
                returned tt,
                record s1 {
                  handlers = daemon_handlers ++ s1.handlers;
                  lock_text = text ++ drop (length text) s1.lock_text;
                },
              )
            ]
            else ok (exited 0, said log_level_error s1)
      ]

  unfoldable pub daemonize : Calls → Session → Outcome (Ended (Unit {0}) × Session)
  unfolding close_all open_standard take_lock
  daemonize c s =
      if c.parent_pid == 1 then ok (returned tt, said log_level_info s) else elim c.forked [
        | negsuc n ↦ ok (exited 1, said log_level_error s)
        | pos (suc n) ↦ ok (exited 0, s)
        | pos zero ↦ take_lock c (record s { world = open_standard (close_all table_size s.world) })
      ]
