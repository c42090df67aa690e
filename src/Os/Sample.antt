-- ===== src/Os/Sample.antt =====
-- A system on which every call succeeds, except that no socket can be bound to a busy port: it shows
-- that the documented behaviour can be met.
use deamon.Common.{
  ℕ, ◌+◌, ◌≡◌, refl, ap, Bool, true, false, Option, some, List, [], ◌∷◌, length, ltb, Bool-cases,
  inl, inr, if◌then◌else◌,
}
use deamon.Common.Int.{is_neg}
use deamon.Buf.{Sockaddr}
use mathlib.Core.Option.{some-injective, some-ne-none}
use deamon.Os.{Os}

pub record Sockets : Type 0 where
  pub open_fds : List ℕ
  pub bound : List (ℕ × ℕ)
  pub listening : List ℕ
  pub datagrams : List (Sockaddr × List ℕ)
  pub busy : List ℕ  -- the values of sin_port that are taken

abbrev pub tail : List ℕ → List ℕ
tail [] = []
tail (x ∷ xs) = xs

abbrev pub is_member : ℕ → List ℕ → Bool
is_member x [] = false
is_member x (y ∷ ys) = if ltb x y then is_member x ys else if ltb y x then is_member x ys else true

abbrev pub new_fd : Sockets → ℕ
new_fd w = length w.open_fds + 3

abbrev pub socket_call : Sockets → Option ℕ × Sockets
socket_call w = (some (new_fd w), record w { open_fds = new_fd w ∷ w.open_fds })

abbrev pub bind_call : ℕ → Sockaddr → Sockets → Bool × Sockets
bind_call fd a w =
    if is_member a.sin_port w.busy
    then (false, w)
    else (true, record w { bound = (fd, a.sin_port) ∷ w.bound })

pub bind_open : (fd : ℕ) (a : Sockaddr) (w : Sockets) → (bind_call fd a w).1.open_fds ≡ w.open_fds
bind_open fd a w = elim (Bool-cases (is_member a.sin_port w.busy)) [ inl b ↦ rw b | inr b ↦ rw b ]

pub bind_names :
    (fd : ℕ) (a : Sockaddr) (w : Sockets)
    → (bind_call fd a w).1.bound
      ≡ (if (bind_call fd a w).0 then (fd, a.sin_port) ∷ w.bound else w.bound)
bind_names fd a w = elim (Bool-cases (is_member a.sin_port w.busy)) [ inl b ↦ rw b | inr b ↦ rw b ]

pub bind_hears :
    (fd : ℕ) (a : Sockaddr) (w : Sockets) → (bind_call fd a w).1.listening ≡ w.listening
bind_hears fd a w = elim (Bool-cases (is_member a.sin_port w.busy)) [ inl b ↦ rw b | inr b ↦ rw b ]

pub some_fd : {a b : ℕ} → Path (Option ℕ) (some a) (some b) → a ≡ b
some_fd {a} {b} q = some-injective a b q

abbrev pub sample : Os
sample = record {
  World = Sockets;
  open_fds = λ w. w.open_fds;
  bound = λ w. w.bound;
  listening = λ w. w.listening;
  datagrams = λ w. w.datagrams;
  socket = socket_call;
  bind = bind_call;
  listen = λ fd w. (true, record w { listening = fd ∷ w.listening });
  connect = λ fd a w. (true, w);
  add_membership = λ fd w. (if is_neg fd then false else true, w);
  sendto = λ fd bs a w. (some (length bs), record w { datagrams = (a, bs) ∷ w.datagrams });
  close = λ fd w. record w { open_fds = tail w.open_fds };
  socket_some = λ {w} {fd} q. (ap (λ x. x ∷ w.open_fds) (some_fd q), refl, refl);
  socket_none = λ {w} q. absurd (some-ne-none (new_fd w) q);
  socket_datagrams = λ w. refl;
  bind_fds = bind_open;
  bind_bound = bind_names;
  bind_listening = bind_hears;
  listen_fds = λ fd w. refl;
  listen_bound = λ fd w. refl;
  listen_listening = λ fd w. refl;
  connect_fds = λ fd a w. refl;
  membership_fds = λ fd w. refl;
  membership_bound = λ fd w. refl;
  membership_listening = λ fd w. refl;
  sendto_fds = λ fd bs a w. refl;
  sendto_datagrams = λ fd bs a w. refl;
  close_fds = λ {fd} {r} {w} q. ap tail q;
  close_datagrams = λ fd w. refl;
}
