-- ===== src/Os.antt =====
-- The socket calls of the operating system that opening a connection makes, as a parameter: their
-- results, the descriptors that are open and the sockets that are bound or listen.
pub mod Sample
use deamon.Common.{ℕ, ◌≡◌, Bool, true, false, Option, none, some, List, [], ◌∷◌, if◌then◌else◌}
use deamon.Common.Int.{ℤ, pos, is_neg}
use deamon.Buf.{Sockaddr}

pub record Os : Type 1 where
  pub World : Type 0
  pub open_fds : World → List ℕ
  pub bound : World → List (ℕ × ℕ)  -- a descriptor and its sin_port
  pub listening : World → List ℕ
  -- Sent so far, the last one first: where to, and the bytes.
  pub datagrams : World → List (Sockaddr × List ℕ)
  pub socket : World → Option ℕ × World
  pub bind : ℕ → Sockaddr → World → Bool × World
  pub listen : ℕ → World → Bool × World
  pub connect : ℕ → Sockaddr → World → Bool × World
  pub add_membership : ℤ → World → Bool × World
  pub sendto : ℕ → List ℕ → Sockaddr → World → Option ℕ × World
  pub close : ℕ → World → World
  -- socket(2) opens a new descriptor, or none.
  pub socket_some :
      {w : World} {fd : ℕ}
      → (socket w).0 ≡ some fd
      → (open_fds (socket w).1 ≡ fd ∷ open_fds w)
        × (bound (socket w).1 ≡ bound w)
        × (listening (socket w).1 ≡ listening w)
  pub socket_none :
      {w : World}
      → (socket w).0 ≡ none
      → (open_fds (socket w).1 ≡ open_fds w)
        × (bound (socket w).1 ≡ bound w)
        × (listening (socket w).1 ≡ listening w)
  pub socket_datagrams : (w : World) → datagrams (socket w).1 ≡ datagrams w
  -- bind(2), listen(2) and connect(2) open and close nothing; bind names the socket
  -- and listen makes it listen, if they succeed.
  pub bind_fds : (fd : ℕ) (a : Sockaddr) (w : World) → open_fds (bind fd a w).1 ≡ open_fds w
  pub bind_bound :
      (fd : ℕ) (a : Sockaddr) (w : World)
      → bound (bind fd a w).1 ≡ (if (bind fd a w).0 then (fd, a.sin_port) ∷ bound w else bound w)
  pub bind_listening : (fd : ℕ) (a : Sockaddr) (w : World) → listening (bind fd a w).1 ≡ listening w
  pub listen_fds : (fd : ℕ) (w : World) → open_fds (listen fd w).1 ≡ open_fds w
  pub listen_bound : (fd : ℕ) (w : World) → bound (listen fd w).1 ≡ bound w
  pub listen_listening :
      (fd : ℕ) (w : World)
      → listening (listen fd w).1 ≡ (if (listen fd w).0 then fd ∷ listening w else listening w)
  pub connect_fds : (fd : ℕ) (a : Sockaddr) (w : World) → open_fds (connect fd a w).1 ≡ open_fds w
  -- setsockopt(2) opens, closes and names nothing.
  pub membership_fds : (fd : ℤ) (w : World) → open_fds (add_membership fd w).1 ≡ open_fds w
  pub membership_bound : (fd : ℤ) (w : World) → bound (add_membership fd w).1 ≡ bound w
  pub membership_listening : (fd : ℤ) (w : World) → listening (add_membership fd w).1 ≡ listening w
  -- sendto(2) sends one datagram, or none.
  pub sendto_fds :
      (fd : ℕ) (bs : List ℕ) (a : Sockaddr) (w : World) → open_fds (sendto fd bs a w).1 ≡ open_fds w
  pub sendto_datagrams :
      (fd : ℕ) (bs : List ℕ) (a : Sockaddr) (w : World)
      → datagrams (sendto fd bs a w).1
        ≡ elim (sendto fd bs a w).0 [ none ↦ datagrams w | some n ↦ (a, bs) ∷ datagrams w ]
  -- close(2) releases the descriptor.
  pub close_fds :
      {fd : ℕ} {r : List ℕ} {w : World} → open_fds w ≡ fd ∷ r → open_fds (close fd w) ≡ r
  pub close_datagrams : (fd : ℕ) (w : World) → datagrams (close fd w) ≡ datagrams w
