-- ===== src/Tests/Starting.antt =====
-- The start of both programs on a machine whose processors are not found, the creation of a thread,
-- and lines of the log.
use deamon.Common.{ℕ, ◌≡◌, refl, true, false, Option, none, some, List, [], ◌∷◌, ◌++◌, inl, arith}
use deamon.Common.Int.{minus_one}
use deamon.Common.Outcome.{ok, fault, indeterminate, exhausted}
use deamon.Host.{little}
use deamon.Os.Sample.{sample}
use deamon.Xcpuinfo.{init_info}
use deamon.Logs.{Log, LogOption, log_init}
use deamon.Logs.Line.{
  Stream, returned, exited, to_stderr, codes, pretty_time, print_both, log_printf, lock_failed,
  log_locked, log_msg,
}
use deamon.Logs.Shown.{main_opts, shown, log_msg-log_init, log_msg_locks}
use deamon.Pthread.{Codes, Objects, skrum_thread_create, skrum_thread_create_detached}
use deamon.Pthread.Created.{
  Created, joinable, thread_create_detached-Created, thread_create-detached,
}
use deamon.Start.{Machine, Process}
use deamon.Tests.Opening.{system}

-- The size of the stack cannot be set.
abbrev codes_given : Codes
codes_given = record {
  attr_init = 0;
  attr_setstacksize = 22;
  attr_setdetachstate = 0;
  create = 0;
  attr_destroy = 0;
}

abbrev no_objects : Objects
no_objects = record { threads = []; attrs = 0; errno = 0; lines = [] }

thread_create_detached-Created_example :
    Created codes_given 7 no_objects (skrum_thread_create_detached codes_given 7 no_objects)
thread_create_detached-Created_example = thread_create_detached-Created 7 no_objects codes_given

thread_create-detached_example :
    skrum_thread_create codes_given 7 no_objects
    ≡ skrum_thread_create_detached (joinable codes_given) 7 no_objects
thread_create-detached_example = thread_create-detached codes_given 7 no_objects

abbrev unknown_machine : Machine
unknown_machine = record {
  allocated = true;
  named = true;
  mutex_rc = 0;
  codes = codes_given;
  hwloc = record {
    init_fails = true;
    load_fails = false;
    groups = none;
    sockets = 0;
    cores = 0;
    units = 0;
  };
  no_action = false;
  pid = 4711;
  now = 1600000000;
}

abbrev fresh_process : Process sample little
fresh_process = record {
  conf = record {
    port = 170;
    lfd = minus_one;
    disc_fd = minus_one;
    pid = 170;
    debug_level = 170;
    cluster_id = 170;
    ctrlr_ts = 170;
  };
  cpus = init_info;
  handlers = [];
  objects = no_objects;
  world = system;
}

-- A printf that puts its argument after the format.
abbrev printed : List ℕ → List ℕ → List ℕ
printed fmt args = fmt ++ args

abbrev noon : List ℕ
noon = codes "noon"

abbrev both_opts : LogOption
both_opts = record { stderr_level = 6; syslog_level = 0; logfile_level = 6 }

log_msg-log_init_example :
    (log_msg printed
        (noon ++ (10 ∷ []))
        true
        (some (log_init false none main_opts true (inl 5) none).1)
        []
        (0 ∷ [])
        3
        (codes "node %d")
        (33 ∷ [])
      ≡ ok (returned tt, (to_stderr, printed (shown noon 3 (codes "node %d")) (33 ∷ [])) ∷ []))
    × (log_msg printed
          (noon ++ (10 ∷ []))
          true
          (some (log_init false none both_opts true (inl 5) none).1)
          []
          (0 ∷ [])
          3
          (codes "node %d")
          (33 ∷ [])
        ≡ fault indeterminate)
log_msg-log_init_example =
    log_msg-log_init printed [] false none (inl 5) both_opts 5 none noon 10 3 (codes "node %d")
      (33 ∷ []) [] (omega arith) (omega arith)

abbrev plain_log : Option Log
plain_log = some (record { argv0 = none; logfp = none; opts = main_opts; initialized = true })

abbrev lock_lines : List (Stream × List ℕ)
lock_lines = (to_stderr, printed (shown noon 1 lock_failed) (35 ∷ [])) ∷ []

fatal_line :
    log_locked printed (noon ++ (10 ∷ [])) true plain_log 1 lock_failed (35 ∷ []) ≡ ok lock_lines
unfolding log_locked pretty_time print_both log_printf
fatal_line = refl

log_msg_locks_example :
    (log_msg printed
        (noon ++ (10 ∷ []))
        true
        plain_log
        (35 ∷ [])
        (22 ∷ 16 ∷ 0 ∷ [])
        3
        (codes "node %d")
        (33 ∷ [])
      ≡ ok (exited 1, lock_lines))
    × (log_msg printed
          (noon ++ (10 ∷ []))
          true
          plain_log
          (35 ∷ [])
          (22 ∷ 16 ∷ [])
          3
          (codes "node %d")
          (33 ∷ [])
        ≡ fault exhausted)
log_msg_locks_example =
    log_msg_locks printed (35 ∷ []) (noon ++ (10 ∷ [])) true plain_log 22 (16 ∷ []) [] lock_lines 3
      (codes "node %d") (33 ∷ []) (omega arith) (omega arith, tt) fatal_line
