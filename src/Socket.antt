-- ===== src/Socket.antt =====
-- src/common/skrum_protocol_socket.c: the loops around recv and send, and the length-prefixed
-- frames over them. One connected socket is a parameter, `Conn`.
pub mod Recv
pub mod Send
pub mod Frame
use deamon.Common.{
  ℕ, zero, suc, ◌+◌, ◌-◌, ◌^◌, ◌≤◌, ◌<◌, ◌≡◌, Bool, true, false, List, [], ◌++◌, length, take, drop,
  ltb, ◌==◌, if◌then◌else◌,
}
use deamon.Common.Int.{ℤ, pos, minus_one, is_neg, eq_ℤ, to_int, to_u32, ltb_ℤ}
use deamon.Common.Outcome.{Outcome, ok, fault, indeterminate, signed_overflow, exhausted, ◌>>=◌}
use deamon.Host.{Endian, bytes_of, value_of, htonl}

-- What recv and send report: -1, or a count, with the bytes that recv stored.
pub data Received : Type 0 where
  failed : Received
  got : List ℕ → Received

pub data Sent : Type 0 where
  refused : Sent
  took : ℕ → Sent

-- A connected stream socket, as recv(2) and send(2) document it: what is yet to be read from
-- it, what has been written to it, and that a call moves at most the bytes that it was asked for.
abbrev pub Delivers : {S : Type 0} → (S → List ℕ) → S → ℕ → Received × S → Type 0
Delivers incoming s n (failed, s') = incoming s' ≡ incoming s
Delivers incoming s n (got bs, s') = (incoming s ≡ bs ++ incoming s') × (length bs ≤ n)

abbrev pub Accepts : {S : Type 0} → (S → List ℕ) → S → List ℕ → Sent × S → Type 0
Accepts outgoing s bs (refused, s') = outgoing s' ≡ outgoing s
Accepts outgoing s bs (took n, s') = (outgoing s' ≡ outgoing s ++ take n bs) × (n ≤ length bs)

pub record Conn : Type 1 where
  pub State : Type 0
  pub recv : State → ℕ → Received × State
  pub send : State → List ℕ → Sent × State
  pub incoming : State → List ℕ
  pub outgoing : State → List ℕ
  pub recv_lem : (s : State) (n : ℕ) → Delivers incoming s n (recv s n)
  pub send_lem : (s : State) (bs : List ℕ) → Accepts outgoing s bs (send s bs)

-- The errno constant that the loops compare a return value with.
abbrev pub eintr : ℤ
eintr = pos 4

abbrev pub recv_rc : Received → ℤ
recv_rc failed = minus_one
recv_rc (got bs) = to_int (length bs)

abbrev pub stored : Received → List ℕ
stored failed = []
stored (got bs) = bs

abbrev pub send_rc : Sent → ℤ
send_rc refused = minus_one
send_rc (took n) = to_int n

abbrev pub moved : Sent → ℕ
moved refused = 0
moved (took n) = n

-- One round of either loop after the system call: `next` is the loop itself, at `rc` and with the
-- count raised; the sum of two ints may not pass 2 ^ 31.
abbrev pub round {ℓ} : {R : Type ℓ} → ℤ → ℕ → Outcome R → Outcome R → Outcome R → Outcome R
round rc total again stop next =
    if is_neg rc
    then (if eq_ℤ rc eintr then again else stop)
    else if eq_ℤ rc (pos 0)
    then stop
    else if ltb total (2 ^ 31)
    then next
    else fault signed_overflow

-- A round of `skrum_recv` on what recv reports, and of `skrum_send` on what send reports.
abbrev pub recv_round {ℓ} :
    {S : Type ℓ}
    → (S → List ℕ → ℤ → Outcome (ℤ × List ℕ × S))
    → List ℕ
    → Received × S
    → Outcome (ℤ × List ℕ × S)
recv_round loop buf (r, s') =
    let again = loop s' buf (recv_rc r) in
    let next = loop s' (buf ++ stored r) (recv_rc r) in
    round (recv_rc r) (length buf + length (stored r)) again (ok (minus_one, buf, s')) next

abbrev pub send_round {ℓ} :
    {S : Type ℓ} → (S → ℕ → ℤ → Outcome (ℤ × S)) → ℕ → Sent × S → Outcome (ℤ × S)
send_round loop sent (r, s') =
    let again = loop s' sent (send_rc r) in
    let next = loop s' (sent + moved r) (send_rc r) in
    round (send_rc r) (sent + moved r) again (ok (minus_one, s')) next

module _ (c : Conn) where
  open c use {State, recv, send}

  -- The while loop of `skrum_recv` and the lines below it; `recved` is the length of `buf`.
  unfoldable pub recv_loop : ℕ → ℕ → State → List ℕ → ℤ → Outcome (ℤ × List ℕ × State)
  recv_loop zero size s buf rc = fault exhausted
  recv_loop (suc fuel) size s buf rc =
      let more = recv_round (recv_loop fuel size) buf (recv s (size - length buf)) in
      if ltb (length buf) size
      then more
      else ok (if length buf == size then rc else minus_one, buf, s)

  -- For size 0 the loop is not entered, and the uninitialised `rc` is returned.
  unfoldable pub skrum_recv : ℕ → State → Outcome (ℤ × List ℕ × State)
  unfolding recv_loop
  skrum_recv size s =
      if size == 0 then fault indeterminate else recv_loop (suc size) size s [] (pos 0)

  unfoldable pub send_loop : ℕ → List ℕ → ℕ → State → ℕ → ℤ → Outcome (ℤ × State)
  send_loop zero buf size s sent rc = fault exhausted
  send_loop (suc fuel) buf size s sent rc =
      let more =
        send_round (send_loop fuel buf size) sent (send s (take (size - sent) (drop sent buf))) in
      if ltb sent size then more else ok (if sent == size then rc else minus_one, s)

  unfoldable pub skrum_send : List ℕ → ℕ → State → Outcome (ℤ × State)
  unfolding send_loop
  skrum_send buf size s =
      if size == 0 then fault indeterminate else send_loop (suc size) buf size s 0 (pos 0)

-- The pointer `*pbuf` after `skrum_msg_recvfrom`.
pub data Block : Type 0 where
  no_block released : Block
  block : List ℕ → Block

module _ (c : Conn) (e : Endian) where
  open c use {State}

  -- `got_payload` says whether malloc gives the block; recv into NULL fails. The result is the
  -- return value, `*pbuf`, `*lenp` and the socket.
  unfoldable pub skrum_msg_recvfrom : Bool → ℕ → State → Outcome (ℤ × Block × ℕ × State)
  unfolding skrum_recv
  skrum_msg_recvfrom got_payload lenp s = skrum_recv c 4 s >>= λ h.
      let msglen = htonl e (value_of e h.1) in
      if ltb_ℤ h.0 4
      then ok (minus_one, no_block, lenp, h.2)
      else if got_payload
      then (skrum_recv c msglen h.2 >>= λ p.
          if to_u32 p.0 == msglen
          then ok (to_int msglen, block p.1, msglen, p.2)
          else ok (minus_one, released, lenp, p.2))
      else ok (minus_one, no_block, lenp, h.2)

  unfoldable pub skrum_msg_sendto : List ℕ → ℕ → State → Outcome (ℤ × State)
  unfolding skrum_send
  skrum_msg_sendto pbuf size s = skrum_send c (bytes_of e 4 (htonl e size)) 4 s >>= λ h.
      if is_neg h.0 then ok (h.0, h.1) else (skrum_send c pbuf size h.1 >>= λ p. ok (p.0, p.1))
