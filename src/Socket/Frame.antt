-- ===== src/Socket/Frame.antt =====
-- A message on the stream is a frame: its length in network order, then its bytes. What
-- `skrum_msg_sendto` writes, and what `skrum_msg_recvfrom` makes of the ways it can arrive.
use deamon.Common.{
  ==_refl, ==_lt, ==_gt, ℕ, ◌-◌, ◌%◌, ◌^◌, ◌≤◌, ◌<◌, ◌≡◌, ◌⊎◌, inl, inr, refl, sym, ap, ◌∙◌, Bool,
  true, false, List, ◌∷◌, ◌++◌, append_assoc, arith, length, take, ◌==◌, lt→ltb, if◌then◌else◌,
}
use deamon.Common.Int.{ℤ, pos, minus_one, to_int, to_u32, ltb_ℤ}
use deamon.Common.Outcome.{ok, ◌>>=◌}
use deamon.Host.{Endian, bytes_of, htonl}
use deamon.Host.Laws.{wire32, bytes_of-htonl, ntohl-wire32}
use deamon.Socket.{
  Conn, got, block, released, no_block, skrum_recv, skrum_send, skrum_msg_recvfrom,
  skrum_msg_sendto,
}
use deamon.Socket.Recv.{skrum_recv_whole, skrum_recv_fragmented}
use deamon.Socket.Send.{Written, skrum_send-Written}

module _ (c : Conn) (e : Endian) where
  open c use {State, recv, incoming, outgoing}

  -- A connection on which each call of recv gets all that it asks for, once that has arrived, and
  -- sends nothing.
  unfoldable pub IsPrompt : Type 0
  IsPrompt =
      (s : State) (bs r : List ℕ)
      → 0 < length bs
      → incoming s ≡ bs ++ r
      → (s' : State) × (recv s (length bs) ≡ (got bs, s'))
        × (incoming s' ≡ r)
        × (outgoing s' ≡ outgoing s)

  -- The length word has arrived whole.
  recvfrom_header :
      (got_payload : Bool) (lenp n : ℕ) (s s1 : State)
      → n < 2 ^ 31
      → recv s 4 ≡ (got (wire32 n), s1)
      → skrum_msg_recvfrom c e got_payload lenp s ≡ (
          if got_payload
          then (skrum_recv c n s1 >>= λ p.
              if to_u32 p.0 == n
              then ok (to_int n, block p.1, n, p.2)
              else ok (minus_one, released, lenp, p.2))
          else ok (minus_one, no_block, lenp, s1))
  unfolding skrum_msg_recvfrom
  recvfrom_header got_payload lenp n s s1 small q = rw (
    skrum_recv_whole c 4 s s1 (wire32 n) (omega arith) (omega arith) refl q,
    ntohl-wire32 e n (omega arith),
  )

  -- A frame of between 1 and 2 ^ 31 - 1 bytes on a prompt connection is received whole, if the block
  -- can be allocated, and what follows it stays on the stream.
  pub recvfrom_frame :
      IsPrompt
      → (lenp n : ℕ) (bs r : List ℕ) (s : State) → 0 < n
      → n < 2 ^ 31
      → length bs ≡ n
      → incoming s ≡ wire32 n ++ (bs ++ r)
      → (s' : State) × (skrum_msg_recvfrom c e true lenp s ≡ ok (pos n, block bs, n, s'))
        × (incoming s' ≡ r)
        × (outgoing s' ≡ outgoing s)
  unfolding IsPrompt
  recvfrom_frame prompt lenp n bs r s h0 h1 len q =
      let (s1, q1, r1, o1) = prompt s (wire32 n) (bs ++ r) (omega arith) q in
      let (s2, q2, r2, o2) = prompt s1 bs r (omega arith) r1 in
      (
        s2,
        recvfrom_header true lenp n s s1 h1 q1
            ∙ rw (
              skrum_recv_whole c n s1 s2 bs h0 h1 len (ap (recv s1) (sym len) ∙ q2),
              mod_small n h1,
              ==_refl n,
              lt→ltb n (2 ^ 31) h1,
            ),
        r2,
        o2 ∙ o1,
      )
    where
      mod_small : (k : ℕ) → k < 2 ^ 31 → k % 2 ^ 32 ≡ k
      mod_small k h = omega arith

  -- If the payload's first chunk is not all of it, the frame is refused and its block freed,
  -- although the rest may follow.
  pub recvfrom_fragmented :
      (lenp n : ℕ) (s s1 s2 : State) (y : ℕ) (ys : List ℕ)
      → n < 2 ^ 31
      → recv s 4 ≡ (got (wire32 n), s1)
      → length (y ∷ ys) < n
      → recv s1 n ≡ (got (y ∷ ys), s2)
      → (s' : State) × (skrum_msg_recvfrom c e true lenp s ≡ ok (minus_one, released, lenp, s'))
  recvfrom_fragmented lenp n s s1 s2 y ys h1 q1 short q2 =
      (after, recvfrom_header true lenp n s s1 h1 q1 ∙ rw (result, unequal verdict))
    where
      open (skrum_recv_fragmented c n s1 s2 y ys h1 short q2) use {rc, buf, after, result, verdict}

      unequal :
          (rc ≡ minus_one) ⊎ (k : ℕ) × (rc ≡ pos k) × (0 < k) × (k ≤ n - 1) × (length buf ≡ n)
          → (to_u32 rc == n) ≡ false
      unequal (inl p) = rw p (==_gt (2 ^ 32 - 1) n (omega arith))
      unequal (inr (k, p, lo, hi, full)) = rw p (==_lt (k % 2 ^ 32) n (omega arith))

  -- So it is if the length word itself comes in pieces; then no block has been allocated.
  pub recvfrom_split_header :
      (got_payload : Bool) (lenp : ℕ) (s s1 : State) (y : ℕ) (ys : List ℕ)
      → length (y ∷ ys) < 4
      → recv s 4 ≡ (got (y ∷ ys), s1)
      → (s' : State) × (skrum_msg_recvfrom c e got_payload lenp s
          ≡ ok (minus_one, no_block, lenp, s'))
  unfolding skrum_msg_recvfrom
  recvfrom_split_header got_payload lenp s s1 y ys short q = (after, rw (result, below verdict))
    where
      open (skrum_recv_fragmented c 4 s s1 y ys (omega arith) short q) use {
        rc, buf, after, result, verdict,
      }

      below :
          (rc ≡ minus_one) ⊎ (k : ℕ) × (rc ≡ pos k) × (0 < k) × (k ≤ 3) × (length buf ≡ 4)
          → ltb_ℤ rc 4 ≡ true
      below (inl p) = rw p
      below (inr (k, p, lo, hi, full)) = rw p (lt→ltb k 4 (omega arith))

  -- The two writes of `skrum_msg_sendto`, one after the other.
  module _ (buf : List ℕ) (size : ℕ) (s : State) (h0 : 0 < size) (h1 : size < 2 ^ 31) where
    abbrev word : List ℕ
    word = bytes_of e 4 (htonl e size)

    head-Written : Written c word 4 (omega arith) (outgoing s) (skrum_send c word 4 s)
    head-Written = skrum_send-Written c word 4 (omega arith) s (omega arith)

    body-Written : (t : State) → Written c buf size h1 (outgoing t) (skrum_send c buf size t)
    body-Written t = skrum_send-Written c buf size h1 t h0

    whole_word : (sent : ℕ) → sent ≡ 4 → take sent word ≡ wire32 size
    whole_word sent q =
        ap (λ n. take n (bytes_of e 4 (htonl e size))) q
        ∙ ap (take 4) (bytes_of-htonl e size (omega arith))

    abbrev pub Framed : ℤ → State → Type 0
    Framed rc s' =
        (rc ≡ minus_one)
        ⊎ (k : ℕ) × (rc ≡ pos k) × (outgoing s' ≡ outgoing s ++ (wire32 size ++ take size buf))

    after_head :
        (sent k : ℕ) (t : State)
        → outgoing t ≡ outgoing s ++ take sent word
        → sent ≡ 4
        → skrum_send c word 4 s ≡ ok (pos k, t)
        → (rc : ℤ) × (s' : State) × (skrum_msg_sendto c e buf size s ≡ ok (rc, s')) × Framed rc s'
    unfolding skrum_msg_sendto
    after_head sent k t o full q = (rc, after, rw (q, result), framed verdict)
      where
        open (body-Written t) use {rc, sent as count, after, result, order, verdict}

        framed :
            (rc ≡ minus_one) ⊎ (j : ℕ) × (rc ≡ pos j) × (0 < j) × (count ≡ size) → Framed rc after
        framed (inl p) = inl p
        framed (inr (j, p, lo, all)) = inr (
          j,
          p,
          order
              ∙ ap (λ m. outgoing t ++ take m buf) all
              ∙ ap (λ o'. o' ++ take size buf)
                  (o ∙ ap (λ w. outgoing s ++ w) (whole_word sent full))
              ∙ append_assoc (outgoing s) (wire32 size) (take size buf),
        )

    -- For a size between 1 and 2 ^ 31 - 1 `skrum_msg_sendto` returns, and unless it returns -1 it has
    -- written one frame: the size in network order, then that many bytes of the buffer.
    pub sendto_frame :
        (rc : ℤ) × (s' : State) × (skrum_msg_sendto c e buf size s ≡ ok (rc, s')) × Framed rc s'
    sendto_frame = go verdict
      where
        open head-Written use {rc, sent, after, result, order, verdict}

        go :
            (rc ≡ minus_one) ⊎ (j : ℕ) × (rc ≡ pos j) × (0 < j) × (sent ≡ 4)
            → (rc' : ℤ) × (s' : State) × (skrum_msg_sendto c e buf size s ≡ ok (rc', s'))
              × Framed rc' s'
        go (inl p) = (minus_one, after, unfold skrum_msg_sendto in rw (result, p), inl refl)
        go (inr (j, p, lo, full)) =
            after_head sent j after order full (result ∙ ap (λ r. ok (r, after)) p)
