-- ===== src/Start/Engines.antt =====
-- The sockets and the thread that main makes before it calls `_msg_engine`.
use deamon.Common.{ℕ, ◌+◌, ◌≤◌, ◌<◌, ◌≡◌, inl, inr, refl, ap, ◌∙◌, List, [], ◌∷◌, ◌++◌}
use deamon.Common.Int.{ℤ, pos, is_neg}
use deamon.Common.Outcome.{ok}
use deamon.Host.{Endian, htons}
use deamon.Logs.{log_level_error}
use deamon.Logs.Line.{Ended, returned, exited}
use deamon.Os.{Os}
use deamon.Connect.{skrum_init_msg_engine_port}
use deamon.Connect.Port.{Chosen, init_msg_engine_port-Chosen}
use deamon.Discovery.{discovery_port, skrum_init_discovery}
use deamon.Discovery.Join.{Joined, init_discovery_held}
use deamon.Pthread.{Objects}
use deamon.Pthread.Created.{thread_create_goes}
use deamon.Start.{
  Machine, discovery_function, asked_port, with_error, Process, start_discovery, open_engines,
}

module _ (os : Os) (e : Endian) where
  open os use {World, open_fds, bound, listening}

  -- The sockets and the thread that a process has which comes from `p` and calls `_msg_engine`.
  pub record Opened (p q : Process os e) : Type 0 where
    pub lfd : ℕ
    pub rest : List ℕ
    pub names : List (ℕ × ℕ)
    pub accepting : q.conf.lfd ≡ pos lfd
    pub others : List ℕ
    pub heard : listening q.world ≡ lfd ∷ others
    pub low : 10001 ≤ q.conf.port
    pub high : q.conf.port < 65536
    pub disc_fd : ℕ
    pub hearing : q.conf.disc_fd ≡ pos disc_fd
    pub held : open_fds q.world ≡ disc_fd ∷ lfd ∷ rest
    pub named :
        bound q.world ≡ (disc_fd, htons e discovery_port) ∷ (lfd, htons e q.conf.port) ∷ names
    pub running : q.objects.threads ≡ discovery_function ∷ p.objects.threads
    pub handlers_kept : q.handlers ≡ p.handlers

  -- The process ends after a line of `error`, and has created no thread.
  pub record Stopped (p q : Process os e) : Type 0 where
    pub lines : List ℕ
    pub said : q.objects.lines ≡ lines ++ (log_level_error ∷ [])
    pub threads : q.objects.threads ≡ p.objects.threads

  -- The two ends of the start of a process.
  pub data Ends (p : Process os e) : Ended ℕ × Process os e → Type 0 where
    goes : (q : Process os e) → Opened p q → Ends p (returned 1, q)
    stops : (q : Process os e) → Stopped p q → Ends p (exited 1, q)

  module _ (m : Machine) (thread : m.codes.attr_init + m.codes.create ≡ 0) where
    start_discovery_goes :
        (p : Process os e)
        → (o : Objects) × (start_discovery os e m p ≡ ok (returned 1, record p { objects = o }))
          × (o.threads ≡ discovery_function ∷ p.objects.threads)
    unfolding start_discovery
    start_discovery_goes p =
        let (o, q, h) = thread_create_goes m.codes discovery_function p.objects thread in
        (o, rw (start_discovery, ap (λ x. x.0) q, ap (λ x. x.1) q), h)

    -- After `skrum_init_msg_engine_port` has returned a socket.
    with_socket :
        (p : Process os e) (rc : ℤ) (port : ℕ) (w : World)
        → skrum_init_msg_engine_port os e asked_port p.world ≡ ok (rc, port, w)
        → Chosen os e rc port w
        → (r : Ended ℕ × Process os e) × (open_engines os e m p ≡ ok r) × Ends p r
    unfolding open_engines
    with_socket p rc port w run c = elim (init_discovery_held os e w) [
      | inl neg ↦ (
        (
          exited 1,
          record p { world = (skrum_init_discovery os e w).1; objects = with_error p.objects },
        ),
        rw (open_engines, run, ap is_neg c.returned, neg),
        stops _ (record { lines = p.objects.lines; said = refl; threads = refl }),
      )
      | inr j ↦
          let (o, q, h) = start_discovery_goes (after j) in
          (
            (returned 1, record (after j) { objects = o }),
            rw (open_engines, run, ap is_neg c.returned, ap is_neg j.returned) q,
            goes _ (record {
              lfd = c.fd;
              rest = c.rest;
              names = c.names;
              accepting = c.returned;
              others = c.others;
              heard = j.heard ∙ c.heard;
              low = c.low;
              high = c.high;
              disc_fd = j.fd;
              hearing = j.returned;
              held = j.held ∙ ap (λ x. j.fd ∷ x) c.held;
              named = j.named ∙ ap (λ x. (j.fd, htons e discovery_port) ∷ x) c.named;
              running = h;
              handlers_kept = refl;
            }),
          )
    ]
      where
        after :
            Joined os e (skrum_init_discovery os e w).0 w (skrum_init_discovery os e w).1
            → Process os e
        after j = record p {
          conf = record p.conf {
            port = port;
            lfd = rc;
            pid = m.pid;
            disc_fd = (skrum_init_discovery os e w).0;
          };
          world = (skrum_init_discovery os e w).1;
        }

    pub open_engines-Ends :
        (p : Process os e)
        → (r : Ended ℕ × Process os e) × (open_engines os e m p ≡ ok r) × Ends p r
    unfolding open_engines
    open_engines-Ends p =
        let (rc, port, w, run, c, k) = init_msg_engine_port-Chosen os e asked_port p.world in
        elim c [
          | inl chosen ↦ with_socket p rc port w run chosen
          | inr z ↦ (
            (exited 1, record p { world = w; objects = with_error p.objects }),
            rw (open_engines, run, z.0),
            stops _ (record { lines = p.objects.lines; said = refl; threads = refl }),
          )
        ]
