-- ===== src/Daemonize/Detached.antt =====
-- The descriptors of a process that `daemonize` has detached.
use deamon.Common.{
  ℕ, ◌^◌, ◌<◌, ◌≡◌, refl, sym, ap, ◌∙◌, true, none, some, List, [], ◌∷◌, ◌++◌, length, drop, arith,
}
use mathlib.Core.Path.{subst}
use deamon.Common.Int.{pos}
use deamon.Common.Outcome.{ok}
use deamon.Logs.Line.{returned}
use deamon.Daemonize.{
  File, dev_null, lock_file, Descriptors, Calls, decimal, newline, daemon_handlers, Session,
  close_all, open_standard, take_lock, daemonize,
}
use deamon.Daemonize.Digits.{pid_text-fits}
use deamon.Daemonize.Taken.{Holds, closed, next_one, file_at}

-- A text written over the beginning of another.
abbrev pub over : List ℕ → List ℕ → List ℕ
over text old = text ++ drop (length text) old

module _ (ds : Descriptors) where
  open ds use {World, table_size, file_of, open_file, dup, close}

  -- The calls on the way of the detached process succeed: those that open a file, and the lock.
  pub record IsGranted (c : Calls) (w : World) : Type 0 where
    pub is_new : c.parent_pid ≡ 1 → ⊥
    pub is_child : c.forked ≡ pos 0
    pub is_locked : c.locked ≡ true
    pub null : ℕ
    pub first : ℕ
    pub second : ℕ
    pub lock : ℕ
    pub got_null : (open_file dev_null (close_all ds table_size w)).0 ≡ some null
    pub got_first : (dup null (open_file dev_null (close_all ds table_size w)).1).0 ≡ some first
    pub got_second :
        (dup null (dup null (open_file dev_null (close_all ds table_size w)).1).1).0 ≡ some second
    pub got_lock :
        (open_file lock_file (open_standard ds (close_all ds table_size w))).0 ≡ some lock

  abbrev pub standard : List File
  standard = dev_null ∷ dev_null ∷ dev_null ∷ []

  module _ (c : Calls) (s : Session ds) (fits : c.pid < 10 ^ 8)
      (small : (fd : ℕ) → table_size < fd → file_of s.world fd ≡ none)
      (g : IsGranted c s.world) where
    abbrev w1 : World
    w1 = close_all ds table_size s.world

    abbrev w2 : World
    w2 = (open_file dev_null w1).1

    abbrev w3 : World
    w3 = (dup g.null w2).1

    abbrev w4 : World
    w4 = (dup g.null w3).1

    empty : Holds ds w1 []
    empty j = closed ds table_size j s.world (small j)

    opened : (g.null ≡ 0) × Holds ds w2 (dev_null ∷ [])
    opened =
        let (free, low, new, same) = ds.open_some g.got_null in
        next_one ds dev_null w1 w2 g.null [] empty free low new same

    one : Holds ds w3 (dev_null ∷ dev_null ∷ [])
    one =
        let (z, h) = opened in
        let here : file_of w2 g.null ≡ some dev_null = h g.null ∙ ap (file_at (dev_null ∷ [])) z in
        let (free, low, new, same) = ds.dup_some here g.got_first in
        (next_one ds dev_null w2 w3 g.first (dev_null ∷ []) h free low new same).1

    two : Holds ds w4 standard
    two =
        let here : file_of w3 g.null ≡ some dev_null =
          one g.null ∙ ap (file_at (dev_null ∷ dev_null ∷ [])) opened.0 in
        let (free, low, new, same) = ds.dup_some here g.got_second in
        (next_one ds dev_null w3 w4 g.second (dev_null ∷ dev_null ∷ []) one free low new same).1

    standard_world : open_standard ds w1 ≡ w4
    unfolding open_standard
    standard_world = rw (open_standard, g.got_null)

    abbrev last : World
    last = (open_file lock_file (open_standard ds w1)).1

    locked : Holds ds last (standard ++ (lock_file ∷ []))
    locked =
        let (free, low, new, same) = ds.open_some g.got_lock in
        (next_one ds lock_file (open_standard ds w1) last g.lock standard
          (subst (λ w. Holds ds w standard) (sym standard_world) two) free low new same).1

    lock_taken :
        (t : Session ds)
        → t.world ≡ open_standard ds w1
        → take_lock ds c t
          ≡ ok (
            returned tt,
            record t {
              world = (open_file lock_file t.world).1;
              handlers = daemon_handlers ++ t.handlers;
              lock_text = over (decimal 10 c.pid ++ (newline ∷ [])) t.lock_text;
            },
          )
    unfolding take_lock
    lock_taken t at_lock = ground (
      arith,
      ap (λ w. (open_file lock_file w).0) at_lock ∙ g.got_lock,
      pid_text-fits c.pid fits,
      g.is_locked,
    )

    -- A process that is not a daemon yet, in the child of fork, whose descriptors lie within the
    -- table, when the files can be opened, the lock be taken and the process number is below
    -- 10 ^ 8: `daemonize` returns, the descriptors 0, 1 and 2 are /dev/null, 3 is the lock file and
    -- no other is open, the number and a newline stand at the beginning of the lock file, before what it held
    -- beyond their length, and the handlers are set.
    pub daemonize-Holds :
        (t : Session ds) × (daemonize ds c s ≡ ok (returned tt, t))
        × Holds ds t.world (standard ++ (lock_file ∷ []))
        × (t.lock_text ≡ over (decimal 10 c.pid ++ (newline ∷ [])) s.lock_text)
        × (t.handlers ≡ daemon_handlers ++ s.handlers)
    unfolding daemonize
    daemonize-Holds =
        let t : Session ds = record s { world = open_standard ds w1 } in
        (
          record t {
            world = last;
            handlers = daemon_handlers ++ s.handlers;
            lock_text = over (decimal 10 c.pid ++ (newline ∷ [])) s.lock_text;
          },
          ground (arith, g.is_new, g.is_child, lock_taken t refl),
          locked,
          refl,
          refl,
        )
