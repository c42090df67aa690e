-- ===== src/Connect/Ledger.antt =====
-- What the calls that open a socket leave open.
use deamon.Common.{
  ℕ, ◌≡◌, ◌⊎◌, inl, inr, refl, ap, ◌∙◌, true, false, Option, none, some, ◌∷◌, Bool-cases, ◌==◌,
  ◌||◌,
}
use deamon.Common.Int.{ℤ, pos, minus_one}
use deamon.Buf.{Sockaddr}
use deamon.Os.{Os}
use deamon.Connect.{skrum_init_msg_engine, skrum_open_stream, skrum_open_msg_conn}

pub Option-cases : (o : Option ℕ) → (o ≡ none) ⊎ (x : ℕ) × (o ≡ some x)
Option-cases none = inl refl
Option-cases (some x) = inr (x, refl)

module _ (os : Os) where
  open os use {World, open_fds, bound, listening, socket, bind, listen, connect}

  -- One descriptor more, of a socket of that name that listens.
  pub record Bound (port : ℕ) (rc : ℤ) (w w' : World) : Type 0 where
    pub fd : ℕ
    pub returned : rc ≡ pos fd
    pub held : open_fds w' ≡ fd ∷ open_fds w
    pub named : bound w' ≡ (fd, port) ∷ bound w
    pub heard : listening w' ≡ fd ∷ listening w

  -- Which call failed, and what that leaves open.
  pub data Cause (addr : Sockaddr) (w w' : World) : Type 0 where
    no_socket : (socket w).0 ≡ none → open_fds w' ≡ open_fds w → Cause addr w w'
    not_bound :
        (fd : ℕ)
        → (socket w).0 ≡ some fd
        → (bind fd addr (socket w).1).0 ≡ false
        → open_fds w' ≡ fd ∷ open_fds w
        → Cause addr w w'
    not_listening :
        (fd : ℕ)
        → (socket w).0 ≡ some fd
        → (bind fd addr (socket w).1).0 ≡ true
        → (listen fd (bind fd addr (socket w).1).1).0 ≡ false
        → open_fds w' ≡ fd ∷ open_fds w
        → Cause addr w w'

  -- A failure.
  pub record Failed (addr : Sockaddr) (rc : ℤ) (w w' : World) : Type 0 where
    pub returned : rc ≡ minus_one
    pub silent : listening w' ≡ listening w
    pub cause : Cause addr w w'

  pub init_msg_engine_held :
      (addr : Sockaddr) (w : World)
      → (rc : ℤ) × (w' : World) × (skrum_init_msg_engine os addr w ≡ (rc, w'))
        × (Bound addr.sin_port rc w w' ⊎ Failed addr rc w w')
  unfolding skrum_init_msg_engine
  init_msg_engine_held addr w = elim (Option-cases (socket w).0) [
    | inl q ↦ (
      _,
      _,
      rw (q, skrum_init_msg_engine),
      inr (record {
        returned = refl;
        silent = (os.socket_none q).2;
        cause = no_socket q (os.socket_none q).0;
      }),
    )
    | inr (fd, q) ↦ made fd q
  ]
    where
      w1 : World
      w1 = (socket w).1

      Outcome_of : Type 0
      Outcome_of =
          (rc : ℤ) × (w' : World) × (skrum_init_msg_engine os addr w ≡ (rc, w'))
          × (Bound addr.sin_port rc w w' ⊎ Failed addr rc w w')

      one_more : (fd : ℕ) → (socket w).0 ≡ some fd → open_fds (bind fd addr w1).1 ≡ fd ∷ open_fds w
      one_more fd q = os.bind_fds fd addr w1 ∙ (os.socket_some q).0

      quiet : (fd : ℕ) → (socket w).0 ≡ some fd → listening (bind fd addr w1).1 ≡ listening w
      quiet fd q = os.bind_listening fd addr w1 ∙ (os.socket_some q).2

      listened :
          (fd : ℕ)
          → (socket w).0 ≡ some fd
          → (bind fd addr w1).0 ≡ true
          → ((listen fd (bind fd addr w1).1).0 ≡ true) ⊎ ((listen fd (bind fd addr w1).1).0 ≡ false)
          → Outcome_of
      listened fd q b (inl l) = (
        pos fd,
        (listen fd (bind fd addr w1).1).1,
        rw (q, skrum_init_msg_engine, b, l),
        inl (record {
          fd = fd;
          returned = refl;
          held = os.listen_fds fd _ ∙ one_more fd q;
          named =
              os.listen_bound fd _
              ∙ os.bind_bound fd addr w1
              ∙ rw b (ap (λ x. (fd, addr.sin_port) ∷ x) (os.socket_some q).1);
          heard = os.listen_listening fd _ ∙ rw l (ap (λ x. fd ∷ x) (quiet fd q));
        }),
      )
      listened fd q b (inr l) = (
        minus_one,
        (listen fd (bind fd addr w1).1).1,
        rw (q, skrum_init_msg_engine, b, l),
        inr (record {
          returned = refl;
          silent = os.listen_listening fd _ ∙ rw l (quiet fd q);
          cause = not_listening fd q b l (os.listen_fds fd _ ∙ one_more fd q);
        }),
      )

      made : (fd : ℕ) → (socket w).0 ≡ some fd → Outcome_of
      made fd q = elim (Bool-cases (bind fd addr w1).0) [
        | inl b ↦ listened fd q b (Bool-cases (listen fd (bind fd addr w1).1).0)
        | inr b ↦ (
          minus_one,
          (bind fd addr w1).1,
          rw (q, skrum_init_msg_engine, b),
          inr (record {
            returned = refl;
            silent = quiet fd q;
            cause = not_bound fd q b (one_more fd q);
          }),
        )
      ]

  open_msg_conn_held :
      (dest : Sockaddr) (w : World)
      → (rc : ℤ) × (w' : World) × (skrum_open_msg_conn os dest w ≡ (rc, w'))
        × (((rc ≡ minus_one) × (open_fds w' ≡ open_fds w))
            ⊎ (fd : ℕ) × (rc ≡ pos fd) × (open_fds w' ≡ fd ∷ open_fds w))
  unfolding skrum_open_msg_conn skrum_open_stream
  open_msg_conn_held dest w = elim (Bool-cases ((dest.sin_family == 0) || (dest.sin_port == 0))) [
    | inl bad ↦ (_, _, rw bad, inl (refl, refl))
    | inr good ↦ valid good (Option-cases (socket w).0)
  ]
    where
      w1 : World
      w1 = (socket w).1

      Opened : Type 0
      Opened =
          (rc : ℤ) × (w' : World) × (skrum_open_msg_conn os dest w ≡ (rc, w'))
          × (((rc ≡ minus_one) × (open_fds w' ≡ open_fds w))
              ⊎ (fd : ℕ) × (rc ≡ pos fd) × (open_fds w' ≡ fd ∷ open_fds w))

      one_more :
          (fd : ℕ) → (socket w).0 ≡ some fd → open_fds (connect fd dest w1).1 ≡ fd ∷ open_fds w
      one_more fd q = os.connect_fds fd dest w1 ∙ (os.socket_some q).0

      valid :
          ((dest.sin_family == 0) || (dest.sin_port == 0)) ≡ false
          → ((socket w).0 ≡ none) ⊎ (fd : ℕ) × ((socket w).0 ≡ some fd)
          → Opened
      valid good (inl q) = (_, _, rw (good, q), inl (refl, (os.socket_none q).0))
      valid good (inr (fd, q)) = elim (Bool-cases (connect fd dest w1).0) [
        | inl joined ↦
            (pos fd, (connect fd dest w1).1, rw (good, q, joined), inr (fd, refl, one_more fd q))
        | inr failed ↦ (
          minus_one,
          os.close fd (connect fd dest w1).1,
          rw (good, q, failed),
          inl (refl, os.close_fds (one_more fd q)),
        )
      ]

  -- `skrum_init_msg_engine` gives a bound and listening socket, the one descriptor more that is
  -- open; or it gives -1, no socket more listens, and a socket that could be made but not bound or
  -- listened on stays open.
  -- `skrum_open_msg_conn` leaves one descriptor more open when it returns it, and none when it
  -- returns -1, also when the connection is refused.
  pub opened_held :
      (addr dest : Sockaddr) (w v : World)
      → ((rc : ℤ) × (w' : World) × (skrum_init_msg_engine os addr w ≡ (rc, w'))
          × (Bound addr.sin_port rc w w' ⊎ Failed addr rc w w'))
        × ((rc : ℤ) × (v' : World) × (skrum_open_msg_conn os dest v ≡ (rc, v'))
            × (((rc ≡ minus_one) × (open_fds v' ≡ open_fds v))
                ⊎ (fd : ℕ) × (rc ≡ pos fd) × (open_fds v' ≡ fd ∷ open_fds v)))
  opened_held addr dest w v = (init_msg_engine_held addr w, open_msg_conn_held dest v)
