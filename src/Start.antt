-- ===== src/Start.antt =====
-- The main functions of src/skrumctld/skrumctld.c and src/skrumd/skrumd.c up to the call of
-- `_msg_engine`, and what they do at the end. The two differ in what they set in the configuration.
pub mod Engines
pub mod Started
pub mod Fini
use deamon.Common.{
  ℕ, zero, suc, ◌+◌, Bool, true, false, not, Option, none, some, List, [], ◌∷◌, ◌++◌, ◌==◌,
  if◌then◌else◌,
}
use deamon.Common.Int.{ℤ, pos, minus_one, is_neg}
use deamon.Common.Outcome.{Outcome, ok, fault, exhausted, use_after_free, ◌>>=◌}
use deamon.Host.{Endian}
use deamon.Logs.{log_level_error, log_level_debug}
use deamon.Logs.Line.{Ended, returned, exited}
use deamon.Os.{Os}
use deamon.Connect.{skrum_init_msg_engine_port}
use deamon.Discovery.{skrum_init_discovery}
use deamon.Xcpuinfo.{Hwloc, CpuInfo, xcpuinfo_init, xcpuinfo_fini}
use deamon.Threads.{increment_thread_cnt}
use deamon.Pthread.{
  Codes, Objects, Run, ◌>>◌, skrum_mutex_call, skrum_cond_call, skrum_thread_create, Handlers,
  xsignal,
}

-- The fields of skrumctld_conf_t and skrumd_conf_t that are set. `ctrlr_ts` is ctrlr_startup_ts in
-- the first; `cluster_id` is in the second alone.
pub record Settings : Type 0 where
  pub port : ℕ
  pub lfd : ℤ
  pub disc_fd : ℤ
  pub pid : ℕ
  pub debug_level : ℕ
  pub cluster_id : ℕ
  pub ctrlr_ts : ℕ

-- What the calls of `main` give: whether malloc and gethostname succeed, the numbers that the
-- thread library returns, hwloc, whether sigaction fails, the process number and the time.
pub record Machine : Type 0 where
  pub allocated : Bool
  pub named : Bool
  pub mutex_rc : ℕ
  pub codes : Codes
  pub hwloc : Hwloc
  pub no_action : Bool
  pub pid : ℕ
  pub now : ℕ

abbrev pub sigint : ℕ
sigint = 2

abbrev pub sigterm : ℕ
sigterm = 15

-- Addresses of functions.
abbrev pub shutdown_handler : ℕ
shutdown_handler = 1

abbrev pub discovery_function : ℕ
discovery_function = 2

-- `port` of both `main` functions.
abbrev pub asked_port : ℕ
asked_port = 3434

-- A call of `error`.
abbrev pub with_error : Objects → Objects
with_error o = record o { lines = o.lines ++ (log_level_error ∷ []) }

-- `_init_conf` after gethostname, on what malloc gives.
unfoldable pub init_ctld_conf : Settings → Settings
init_ctld_conf c = record c { lfd = minus_one; debug_level = log_level_debug }

unfoldable pub init_deamon_conf : Settings → Settings
init_deamon_conf c = record c {
  lfd = minus_one;
  debug_level = log_level_debug;
  cluster_id = 0;
  ctrlr_ts = 0;
}

-- `_skrumd_init`, and that of `_skrumctld_init` which is not the list: the result, logged if it
-- is not 0.
unfoldable pub skrumd_init : Machine → CpuInfo → Objects → Outcome (ℕ × CpuInfo × Objects)
unfolding xcpuinfo_init
skrumd_init m cpus o =
    xcpuinfo_init m.hwloc cpus >>= λ r. ok (r.0, r.1, if r.0 == 0 then o else with_error o)

unfoldable pub skrumctld_init :
    Machine → CpuInfo → Settings → Objects → Outcome (ℕ × CpuInfo × Settings × Objects)
unfolding skrumd_init
skrumctld_init m cpus c o =
    skrumd_init m cpus o >>= λ r. ok (r.0, r.1, record c { ctrlr_ts = m.now }, r.2)

module _ (os : Os) (e : Endian) where
  open os use {World}

  -- The process: its configuration, the static variables of xcpuinfo.c, the handlers, the objects
  -- of the thread library, and the system.
  pub record Process : Type 0 where
    pub conf : Settings
    pub cpus : CpuInfo
    pub handlers : Handlers
    pub objects : Objects
    pub world : World

  abbrev pub failed : Process → Outcome (Ended ℕ × Process)
  failed p = ok (exited 1, record p { objects = with_error p.objects })

  -- The two calls of xsignal.
  unfoldable pub set_handlers : Machine → Handlers × Objects → Handlers × Objects
  unfolding xsignal
  set_handlers m s =
      let (old, s1) = xsignal m.no_action none sigint shutdown_handler s in
      let (old2, s2) = xsignal m.no_action none sigterm shutdown_handler s1 in s2

  -- From `_increment_thread_cnt` on. The result is the count of active threads.
  unfoldable pub start_discovery : Machine → Process → Outcome (Ended ℕ × Process)
  unfolding increment_thread_cnt skrum_thread_create
  start_discovery m p = elim (increment_thread_cnt 0) [
    | none ↦ fault exhausted
    | some n ↦
        let (ended, o) = skrum_thread_create m.codes discovery_function p.objects in
        ok (
          elim ended [ returned u ↦ returned n | exited status ↦ exited status ],
          record p { objects = o },
        )
  ]

  -- From `skrum_init_msg_engine_port` on.
  unfoldable pub open_engines : Machine → Process → Outcome (Ended ℕ × Process)
  unfolding skrum_init_discovery start_discovery
  open_engines m p = skrum_init_msg_engine_port os e asked_port p.world >>= λ r.
      if is_neg r.0
      then failed (record p { world = r.2 })
      else (let (disc_sockfd, w) = skrum_init_discovery os e r.2 in
          if is_neg disc_sockfd
          then failed (record p { world = w })
          else start_discovery m (record p {
            conf = record p.conf { port = r.1; lfd = r.0; pid = m.pid; disc_fd = disc_sockfd };
            world = w;
          }))

  -- From `_skrumctld_init` or `_skrumd_init` on, `init` being what it does. Its result is tested with
  -- `< 0`.
  unfoldable pub init_and_open :
      Machine
      → (CpuInfo → Settings → Objects → Outcome (ℕ × CpuInfo × Settings × Objects))
      → Process
      → Outcome (Ended ℕ × Process)
  unfolding set_handlers open_engines
  init_and_open m init p = init p.cpus p.conf p.objects >>= λ r.
      if is_neg (pos r.0)
      then failed (record p { cpus = r.1; conf = r.2; objects = r.3 })
      else (let (hs, o) = set_handlers m (p.handlers, r.3) in
          open_engines m (record p { cpus = r.1; conf = r.2; handlers = hs; objects = o }))

  -- What both main functions do, on a process whose `conf` is what malloc gives; `perror` does not
  -- go through the log.
  unfoldable pub main_with :
      Machine
      → (Settings → Settings)
      → (CpuInfo → Settings → Objects → Outcome (ℕ × CpuInfo × Settings × Objects))
      → Process
      → Outcome (Ended ℕ × Process)
  unfolding init_and_open skrum_mutex_call
  main_with m init_conf init p =
      if not m.allocated
      then failed p
      else if not m.named
      then ok (exited 1, p)
      else (let (made, o) = skrum_mutex_call m.mutex_rc p.objects in
          elim made [
            | exited status ↦ ok (exited status, record p { objects = o })
            | returned u ↦ init_and_open m init (record p { conf = init_conf p.conf; objects = o })
          ])

  unfoldable pub skrumctld_main : Machine → Process → Outcome (Ended ℕ × Process)
  unfolding main_with init_ctld_conf skrumctld_init
  skrumctld_main m p = main_with m init_ctld_conf (skrumctld_init m) p

  unfoldable pub skrumd_main : Machine → Process → Outcome (Ended ℕ × Process)
  unfolding main_with init_deamon_conf skrumd_init
  skrumd_main m p =
      main_with m init_deamon_conf (λ cpus c o. skrumd_init m cpus o >>= λ r. ok (r.0, r.1, c, r.2))
        p
