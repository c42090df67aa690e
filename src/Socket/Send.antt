-- ===== src/Socket/Send.antt =====
-- `skrum_send`: it ends, and it has written a prefix of the buffer, all of it unless it fails.
use deamon.Common.{
  ==_gt, ℕ, zero, suc, ◌+◌, ◌-◌, ◌^◌, ◌≤◌, ◌<◌, ◌≡◌, ◌⊎◌, inl, inr, refl, sym, ap, ◌∙◌, true, List,
  ◌++◌, append_assoc, arith, take, drop, length-take, take-take, take-plus, ltb, ◌==◌, Bool-cases,
  lt→ltb, le→ltb, ltb→lt, ltb→le, append-nil,
}
use deamon.Common.Int.{ℤ, pos, minus_one}
use deamon.Common.Outcome.{Outcome, ok}
use deamon.Socket.{Conn, Sent, refused, took, Accepts, send_round, send_loop, skrum_send}

eq→== : (a b : ℕ) → a ≡ b → (a == b) ≡ true
eq→== a b h = ground arith

-- A round after which the loop goes on.
send_round_took {ℓ} :
    {S : Type ℓ} (loop : S → ℕ → ℤ → Outcome (ℤ × S)) (sent n : ℕ) (s' : S)
    → sent + suc n < 2 ^ 31
    → send_round loop sent (took (suc n), s') ≡ loop s' (sent + suc n) (pos (suc n))
send_round_took loop sent n s' h = rw (
  lt→ltb (suc n) (2 ^ 31) (omega arith),
  ==_gt (suc n) 0 (omega arith),
  lt→ltb (sent + suc n) (2 ^ 31) h,
)

module _ (c : Conn) (buf : List ℕ) (size : ℕ) (small : size < 2 ^ 31) where
  open c use {State, send, outgoing}

  -- How `skrum_send` ends: `sent` bytes of `buf` stand behind `before` in the stream.
  pub record Written (before : List ℕ) (out : Outcome (ℤ × State)) : Type 0 where
    pub rc : ℤ
    pub sent : ℕ
    pub after : State
    pub result : out ≡ ok (rc, after)
    pub order : outgoing after ≡ before ++ take sent buf
    pub verdict : (rc ≡ minus_one) ⊎ (k : ℕ) × (rc ≡ pos k) × (0 < k) × (sent ≡ size)

  Written-out :
      {before : List ℕ} {x y : Outcome (ℤ × State)} → x ≡ y → Written before y → Written before x
  Written-out p f = record {
    rc = f.rc;
    sent = f.sent;
    after = f.after;
    result = p ∙ f.result;
    order = f.order;
    verdict = f.verdict;
  }

  stopped :
      {before : List ℕ} (s' : State) (sent : ℕ)
      → outgoing s' ≡ before ++ take sent buf
      → Written before (ok (minus_one, s'))
  stopped s' sent q = record {
    rc = minus_one;
    sent = sent;
    after = s';
    result = refl;
    order = q;
    verdict = inl refl;
  }

  abbrev Counted : ℕ → ℤ → Type 0
  Counted sent rc = (sent < size) ⊎ (k : ℕ) × (rc ≡ pos k) × (0 < k)

  send_loop_full :
      (fuel : ℕ) (s : State) (sent : ℕ) (rc : ℤ) (before : List ℕ)
      → sent ≡ size
      → Counted sent rc
      → outgoing s ≡ before ++ take sent buf
      → Written before (send_loop c (suc fuel) buf size s sent rc)
  unfolding send_loop
  send_loop_full fuel s sent rc before e (inl less) q = absurd (omega arith)
  send_loop_full fuel s sent rc before e (inr (k, r, p)) q = record {
    rc = rc;
    sent = sent;
    after = s;
    result = rw (le→ltb sent size (omega arith), eq→== sent size e);
    order = q;
    verdict = inr (k, r, p, e);
  }

  send_loop_more :
      (fuel : ℕ) (s : State) (sent : ℕ) (rc : ℤ)
      → ltb sent size ≡ true
      → send_loop c (suc fuel) buf size s sent rc
        ≡ send_round (send_loop c fuel buf size) sent (send s (take (size - sent) (drop sent buf)))
  unfolding send_loop
  send_loop_more fuel s sent rc more = rw more

  -- What has been written after a call that took n more bytes.
  joined :
      (sent n : ℕ) (before : List ℕ) {o o' : List ℕ}
      → n ≤ size - sent
      → o ≡ before ++ take sent buf
      → o' ≡ o ++ take n (take (size - sent) (drop sent buf))
      → o' ≡ before ++ take (sent + n) buf
  joined sent n before h q d =
      d
      ∙ ap (λ t. t ++ take n (take (size - sent) (drop sent buf))) q
      ∙ append_assoc before (take sent buf) _
      ∙ ap (λ t. before ++ (take sent buf ++ t)) (take-take n (size - sent) (drop sent buf) h)
      ∙ ap (λ t. before ++ t) (sym (take-plus sent n buf))

  send_loop-Written :
      (fuel : ℕ) (s : State) (sent : ℕ) (rc : ℤ) (before : List ℕ)
      → sent ≤ size
      → size < fuel + sent
      → Counted sent rc
      → outgoing s ≡ before ++ take sent buf
      → Written before (send_loop c fuel buf size s sent rc)
  send_loop-Written zero s sent rc before h1 h2 ch q = absurd (omega arith)
  send_loop-Written (suc fuel) s sent rc before h1 h2 ch q = elim (Bool-cases (ltb sent size)) [
    | inl more ↦
        Written-out (send_loop_more fuel s sent rc more)
          (go more (send s asked) (c.send_lem s asked) (send_loop-Written fuel))
    | inr full ↦ send_loop_full fuel s sent rc before (omega (arith, ltb→le sent size full)) ch q
  ]
    where
      asked : List ℕ
      asked = take (size - sent) (drop sent buf)

      go :
          ltb sent size ≡ true
          → (x : Sent × State) → Accepts outgoing s asked x
          → ((s' : State) (sent' : ℕ) (rc' : ℤ) (before' : List ℕ)
              → sent' ≤ size
              → size < fuel + sent'
              → Counted sent' rc'
              → outgoing s' ≡ before' ++ take sent' buf
              → Written before' (send_loop c fuel buf size s' sent' rc'))
          → Written before (send_round (send_loop c fuel buf size) sent x)
      go m (refused, s') d ih = stopped s' sent (d ∙ q)
      go m (took zero, s') d ih = stopped s' sent (d.0 ∙ append-nil (outgoing s) ∙ q)
      go m (took (suc n), s') d ih =
          Written-out
            (send_round_took (send_loop c fuel buf size) sent n s'
              (omega (arith, room, ltb→lt sent size m)))
            (ih s' (sent + suc n) (pos (suc n)) before (omega (arith, room, ltb→lt sent size m))
              (omega arith) (inr (suc n, refl, omega arith))
              (joined sent (suc n) before room q d.0))
        where
          room : suc n ≤ size - sent
          room = omega (arith, d, length-take (size - sent) (drop sent buf))

  -- For a size between 1 and 2 ^ 31 - 1 `skrum_send` always returns, whatever the chunks; what it has
  -- written is a prefix of the buffer, of `size` bytes unless it returns -1.
  pub skrum_send-Written : (s : State) → 0 < size → Written (outgoing s) (skrum_send c buf size s)
  skrum_send-Written s h0 = Written-out starts (
      send_loop-Written (suc size) s 0 (pos 0) (outgoing s) (omega arith) (omega arith) (inl h0)
        (sym (append-nil (outgoing s))))
    where
      starts : skrum_send c buf size s ≡ send_loop c (suc size) buf size s 0 (pos 0)
      starts = unfold skrum_send in rw (==_gt size 0 h0)
