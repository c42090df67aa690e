-- ===== src/Discovery/Join.antt =====
-- `skrum_init_discovery`: the socket that the multicast is received on.
use deamon.Common.{
  ℕ, ◌≡◌, ◌⊎◌, inl, inr, refl, ap, ◌∙◌, Bool, true, some, ◌∷◌, Bool-cases, if◌then◌else◌,
}
use deamon.Common.Int.{ℤ, pos, minus_one, is_neg}
use deamon.Host.{Endian, htons}
use deamon.Os.{Os}
use deamon.Connect.{skrum_setup_sockaddr, skrum_init_discovery_engine}
use deamon.Connect.Ledger.{Option-cases}
use deamon.Discovery.{discovery_addr, discovery_port, skrum_init_discovery}

module _ (os : Os) (e : Endian) where
  open os use {World, open_fds, bound, listening, socket, bind, add_membership}

  -- One descriptor more, bound to the port of the multicast.
  pub record Joined (rc : ℤ) (w w' : World) : Type 0 where
    pub fd : ℕ
    pub returned : rc ≡ pos fd
    pub held : open_fds w' ≡ fd ∷ open_fds w
    pub named : bound w' ≡ (fd, htons e discovery_port) ∷ bound w
    pub heard : listening w' ≡ listening w

  port_of_discovery : (discovery_addr e).sin_port ≡ htons e discovery_port
  unfolding skrum_setup_sockaddr
  port_of_discovery = refl

  module _ (w : World) where
    abbrev w1 : World
    w1 = (socket w).1

    -- The end of `skrum_init_discovery`, after the engine has given `rc` and the world `v`.
    joined_or_not :
        (rc : ℤ) (v : World)
        → (is_neg rc ≡ true) ⊎ Joined rc w v
        → (is_neg (if (add_membership rc v).0 then rc else minus_one) ≡ true)
          ⊎ Joined (if (add_membership rc v).0 then rc else minus_one) w (add_membership rc v).1
    joined_or_not rc v h = elim (Bool-cases (add_membership rc v).0) [
      | inr n ↦ inl (rw n refl)
      | inl y ↦ elim h [
        | inl neg ↦ inl (rw (y, neg))
        | inr j ↦ inr (record {
          fd = j.fd;
          returned = rw (y, j.returned);
          held = os.membership_fds rc v ∙ j.held;
          named = os.membership_bound rc v ∙ j.named;
          heard = os.membership_listening rc v ∙ j.heard;
        })
      ]
    ]

    bound_to :
        (fd : ℕ)
        → (socket w).0 ≡ some fd
        → (bind fd (discovery_addr e) w1).0 ≡ true
        → bound (bind fd (discovery_addr e) w1).1 ≡ (fd, htons e discovery_port) ∷ bound w
    bound_to fd q y =
        os.bind_bound fd (discovery_addr e) w1
        ∙ ap (λ (b : Bool). if b then (fd, (discovery_addr e).sin_port) ∷ bound w1 else bound w1) y
        ∙ ap (λ port. (fd, port) ∷ bound w1) port_of_discovery
        ∙ ap (λ names. (fd, htons e discovery_port) ∷ names) (os.socket_some q).1

    engine :
        (is_neg (skrum_init_discovery_engine os (discovery_addr e) w).0 ≡ true)
        ⊎ Joined
            (skrum_init_discovery_engine os (discovery_addr e) w).0
            w
            (skrum_init_discovery_engine os (discovery_addr e) w).1
    unfolding skrum_init_discovery_engine
    engine = elim (Option-cases (socket w).0) [
      | inl q ↦ inl (rw (skrum_init_discovery_engine, q))
      | inr (fd, q) ↦ elim (Bool-cases (bind fd (discovery_addr e) (socket w).1).0) [
        | inr n ↦ inl (rw (skrum_init_discovery_engine, q, n))
        | inl y ↦ inr (record {
          fd = fd;
          returned = rw (skrum_init_discovery_engine, q, y);
          held =
              rw (skrum_init_discovery_engine, q)
                (os.bind_fds fd (discovery_addr e) (socket w).1 ∙ (os.socket_some q).0);
          named = rw (skrum_init_discovery_engine, q) (bound_to fd q y);
          heard =
              rw (skrum_init_discovery_engine, q)
                (os.bind_listening fd (discovery_addr e) (socket w).1 ∙ (os.socket_some q).2);
        })
      ]
    ]

    -- `skrum_init_discovery` gives a negative number, or the one descriptor more that is open, of a
    -- socket that is bound to the port of the multicast.
    pub init_discovery_held :
        (is_neg (skrum_init_discovery os e w).0 ≡ true)
        ⊎ Joined (skrum_init_discovery os e w).0 w (skrum_init_discovery os e w).1
    unfolding skrum_init_discovery
    init_discovery_held =
        joined_or_not (skrum_init_discovery_engine os (discovery_addr e) w).0
          (skrum_init_discovery_engine os (discovery_addr e) w).1 engine
