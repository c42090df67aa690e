-- ===== src/Start/Started.antt =====
-- What a process looks like when it enters `_msg_engine`.
use deamon.Common.{ℕ, ◌+◌, ◌≡◌, true, Option, some, if◌then◌else◌}
use deamon.Common.Outcome.{Outcome}
use deamon.Host.{Endian}
use deamon.Logs.Line.{Ended, returned, exited}
use deamon.Os.{Os}
use deamon.Pthread.{Objects, Handlers, handler_of}
use deamon.Start.{Machine, sigint, sigterm, shutdown_handler, Process, set_handlers}
use deamon.Start.Engines.{Opened, Stopped}

-- The thread library grants what `main` asks it for.
pub record IsGranting (m : Machine) : Type 0 where
  pub allocated : m.allocated ≡ true
  pub named : m.named ≡ true
  pub mutex : m.mutex_rc ≡ 0
  pub thread : m.codes.attr_init + m.codes.create ≡ 0

-- The handlers after the two calls of xsignal.
abbrev pub handled : Machine → ℕ → Handlers → Option ℕ
handled m signo before = if m.no_action then handler_of signo before else some shutdown_handler

module _ (os : Os) (e : Endian) where
  -- The signals that xsignal has been called for.
  abbrev AreSet : Machine → Handlers × Objects → Type 0
  AreSet m s =
      (handler_of sigint (set_handlers os e m s).0 ≡ handled m sigint s.0)
      × (handler_of sigterm (set_handlers os e m s).0 ≡ handled m sigterm s.0)
      × ((set_handlers os e m s).1.threads ≡ s.1.threads)

  -- What the start of a process comes to: the process and its handlers, or its end.
  pub data StartEnds (m : Machine) (p : Process os e) : Ended ℕ × Process os e → Type 0 where
    started :
        (before q : Process os e)
        → before.objects.threads ≡ p.objects.threads
        → Opened os e before q
        → handler_of sigint q.handlers ≡ handled m sigint p.handlers
        → handler_of sigterm q.handlers ≡ handled m sigterm p.handlers
        → StartEnds m p (returned 1, q)
    stopped : (q : Process os e) → Stopped os e p q → StartEnds m p (exited 1, q)
