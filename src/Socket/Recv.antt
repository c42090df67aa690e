-- ===== src/Socket/Recv.antt =====
-- `skrum_recv`: it ends, it stores the stream's next bytes in order, and what it returns is the
-- size of the last chunk, not of the whole.
use deamon.Common.{
  ==_gt, ℕ, zero, suc, ◌+◌, ◌-◌, ◌^◌, ◌≤◌, ◌<◌, ◌≡◌, ◌⊎◌, inl, inr, refl, sym, ap, ◌∙◌, true, false,
  List, [], ◌∷◌, ◌++◌, append_assoc, arith, length, length-append, ltb, ◌==◌, Bool-cases, lt→ltb,
  le→ltb, ltb→lt, ltb→le,
}
use deamon.Common.Int.{ℤ, pos, minus_one}
use deamon.Common.Outcome.{Outcome, ok}
use deamon.Socket.{Conn, Received, failed, got, Delivers, recv_round, recv_loop, skrum_recv}

eq→== : (a b : ℕ) → a ≡ b → (a == b) ≡ true
eq→== a b h = ground arith

suc_nonzero : (n : ℕ) → (suc n == 0) ≡ false
suc_nonzero n = ground arith

sub_none : (n : ℕ) → n - 0 ≡ n
sub_none n = omega arith

-- A round on a chunk that is not empty, and that an int can count with what came before.
pub recv_round_chunk {ℓ} :
    {S : Type ℓ} (loop : S → List ℕ → ℤ → Outcome (ℤ × List ℕ × S)) (buf : List ℕ) (y : ℕ)
    (ys : List ℕ) (s' : S)
    → length buf + suc (length ys) < 2 ^ 31
    → recv_round loop buf (got (y ∷ ys), s') ≡ loop s' (buf ++ (y ∷ ys)) (pos (suc (length ys)))
recv_round_chunk loop buf y ys s' h = rw (
  lt→ltb (suc (length ys)) (2 ^ 31) (omega arith),
  suc_nonzero (length ys),
  lt→ltb (length buf + suc (length ys)) (2 ^ 31) h,
)

module _ (c : Conn) where
  open c use {State, recv, incoming}

  -- How `skrum_recv` ends: it has failed, or the buffer is full and `rc` is the last chunk.
  pub record Ended (bound size : ℕ) (stream : List ℕ) (out : Outcome (ℤ × List ℕ × State))
      : Type 0 where
    pub rc : ℤ
    pub buf : List ℕ
    pub after : State
    pub result : out ≡ ok (rc, buf, after)
    pub order : stream ≡ buf ++ incoming after
    pub verdict :
        (rc ≡ minus_one) ⊎ (k : ℕ) × (rc ≡ pos k) × (0 < k) × (k ≤ bound) × (length buf ≡ size)

  -- The return value once the buffer is full: a chunk of at most `bound` bytes.
  abbrev Chunk : ℕ → ℕ → List ℕ → ℤ → Type 0
  Chunk bound size buf rc = (length buf < size) ⊎ (k : ℕ) × (rc ≡ pos k) × (0 < k) × (k ≤ bound)

  Ended-out :
      {bound size : ℕ} {stream : List ℕ} {x y : Outcome (ℤ × List ℕ × State)}
      → x ≡ y
      → Ended bound size stream y
      → Ended bound size stream x
  Ended-out p f = record {
    rc = f.rc;
    buf = f.buf;
    after = f.after;
    result = p ∙ f.result;
    order = f.order;
    verdict = f.verdict;
  }

  -- The loop stops with -1 where recv fails or finds the end of the stream.
  stopped :
      {bound size : ℕ} {stream : List ℕ} (s' : State) (buf : List ℕ)
      → stream ≡ buf ++ incoming s'
      → Ended bound size stream (ok (minus_one, buf, s'))
  stopped s' buf q = record {
    rc = minus_one;
    buf = buf;
    after = s';
    result = refl;
    order = q;
    verdict = inl refl;
  }

  recv_loop_full :
      (bound fuel size : ℕ) (s : State) (buf : List ℕ) (rc : ℤ) (stream : List ℕ)
      → length buf ≡ size
      → Chunk bound size buf rc
      → stream ≡ buf ++ incoming s
      → Ended bound size stream (recv_loop c (suc fuel) size s buf rc)
  unfolding recv_loop
  recv_loop_full bound fuel size s buf rc stream e (inl less) q = absurd (omega arith)
  recv_loop_full bound fuel size s buf rc stream e (inr (k, r, p, b)) q = record {
    rc = rc;
    buf = buf;
    after = s;
    result = rw (le→ltb (length buf) size (omega arith), eq→== (length buf) size e);
    order = q;
    verdict = inr (k, r, p, b, e);
  }

  recv_loop_more :
      (fuel size : ℕ) (s : State) (buf : List ℕ) (rc : ℤ)
      → ltb (length buf) size ≡ true
      → recv_loop c (suc fuel) size s buf rc
        ≡ recv_round (recv_loop c fuel size) buf (recv s (size - length buf))
  unfolding recv_loop
  recv_loop_more fuel size s buf rc more = rw more

  recv_loop-Ended :
      (bound fuel size : ℕ) (s : State) (buf : List ℕ) (rc : ℤ) (stream : List ℕ)
      → size < 2 ^ 31
      → length buf ≤ size
      → size ≤ bound + length buf
      → size < fuel + length buf
      → Chunk bound size buf rc
      → stream ≡ buf ++ incoming s
      → Ended bound size stream (recv_loop c fuel size s buf rc)
  recv_loop-Ended bound zero size s buf rc stream h1 h2 h3 h4 ch q = absurd (omega arith)
  recv_loop-Ended bound (suc fuel) size s buf rc stream h1 h2 h3 h4 ch q =
      elim (Bool-cases (ltb (length buf) size)) [
        | inl more ↦ Ended-out (recv_loop_more fuel size s buf rc more) (
            go more (recv s (size - length buf)) (c.recv_lem s (size - length buf))
              (recv_loop-Ended bound fuel size))
        | inr full ↦
            recv_loop_full bound fuel size s buf rc stream
              (omega (arith, ltb→le (length buf) size full)) ch q
      ]
    where
      go :
          ltb (length buf) size ≡ true
          → (x : Received × State) → Delivers incoming s (size - length buf) x
          → ((s' : State) (buf' : List ℕ) (rc' : ℤ) (stream' : List ℕ)
              → size < 2 ^ 31
              → length buf' ≤ size
              → size ≤ bound + length buf'
              → size < fuel + length buf'
              → Chunk bound size buf' rc'
              → stream' ≡ buf' ++ incoming s'
              → Ended bound size stream' (recv_loop c fuel size s' buf' rc'))
          → Ended bound size stream (recv_round (recv_loop c fuel size) buf x)
      go m (failed, s') d ih = stopped s' buf (q ∙ ap (λ t. buf ++ t) (sym d))
      go m (got [], s') d ih = stopped s' buf (q ∙ ap (λ t. buf ++ t) d.0)
      go m (got (y ∷ ys), s') d ih =
          Ended-out
            (recv_round_chunk (recv_loop c fuel size) buf y ys s'
              (omega (arith, d, ltb→lt (length buf) size m)))
            (ih s' (buf ++ (y ∷ ys)) (pos (suc (length ys))) stream h1
              (omega (arith, d, length-append buf (y ∷ ys), ltb→lt (length buf) size m))
              (omega (arith, length-append buf (y ∷ ys)))
              (omega (arith, length-append buf (y ∷ ys)))
              (inr (suc (length ys), refl, omega arith, omega (arith, d, h3)))
              (q ∙ ap (λ t. buf ++ t) d.0 ∙ sym (append_assoc buf (y ∷ ys) (incoming s'))))

  skrum_recv_starts :
      (size : ℕ) (s : State)
      → 0 < size
      → skrum_recv c size s ≡ recv_loop c (suc size) size s [] (pos 0)
  unfolding skrum_recv
  skrum_recv_starts size s h = rw (==_gt size 0 h)

  -- For a size between 1 and 2 ^ 31 - 1 `skrum_recv` always returns, whatever the chunks; it takes
  -- bytes off the stream in order, and unless it returns -1 it has taken `size` of them.
  pub skrum_recv-Ended :
      (size : ℕ) (s : State)
      → 0 < size
      → size < 2 ^ 31
      → Ended size size (incoming s) (skrum_recv c size s)
  skrum_recv-Ended size s h0 h1 = Ended-out (skrum_recv_starts size s h0) (
      recv_loop-Ended size (suc size) size s [] (pos 0) (incoming s) h1 (omega arith) (omega arith)
        (omega arith) (inl h0) refl)

  -- After a first chunk `bs` the loop goes on from there.
  skrum_recv_first :
      (size : ℕ) (s s' : State) (y : ℕ) (ys : List ℕ)
      → size < 2 ^ 31
      → suc (length ys) ≤ size
      → recv s size ≡ (got (y ∷ ys), s')
      → skrum_recv c size s ≡ recv_loop c size size s' (y ∷ ys) (pos (suc (length ys)))
  skrum_recv_first size s s' y ys h1 short q =
      skrum_recv_starts size s (omega arith)
      ∙ recv_loop_more size size s [] (pos 0) (lt→ltb 0 size (omega arith))
      ∙ ap (λ n. recv_round (recv_loop c size size) [] (recv s n)) (sub_none size)
      ∙ ap (recv_round (recv_loop c size size) []) q
      ∙ recv_round_chunk (recv_loop c size size) [] y ys s' (omega arith)

  -- A first chunk shorter than `size`: the return value is then not `size`, whatever follows.
  pub skrum_recv_fragmented :
      (size : ℕ) (s s' : State) (y : ℕ) (ys : List ℕ)
      → size < 2 ^ 31
      → suc (length ys) < size
      → recv s size ≡ (got (y ∷ ys), s')
      → Ended (size - 1) size ((y ∷ ys) ++ incoming s') (skrum_recv c size s)
  skrum_recv_fragmented size s s' y ys h1 short q =
      Ended-out (skrum_recv_first size s s' y ys h1 (omega arith) q) (
        recv_loop-Ended (size - 1) size size s' (y ∷ ys) (pos (suc (length ys))) _ h1 (omega arith)
          (omega arith) (omega arith) (inl short) refl)

  -- All bytes in one chunk.
  pub skrum_recv_whole :
      (size : ℕ) (s s' : State) (bs : List ℕ)
      → 0 < size
      → size < 2 ^ 31
      → length bs ≡ size
      → recv s size ≡ (got bs, s')
      → skrum_recv c size s ≡ ok (pos size, bs, s')
  skrum_recv_whole size s s' [] h0 h1 len q = absurd (omega arith)
  skrum_recv_whole size s s' (y ∷ ys) h0 h1 len q =
      skrum_recv_first size s s' y ys h1 (omega arith) q
      ∙ last_round size h0
      ∙ ap (λ k. ok (pos k, y ∷ ys, s')) len
    where
      last_round :
          (fuel : ℕ)
          → 0 < fuel
          → recv_loop c fuel size s' (y ∷ ys) (pos (suc (length ys)))
            ≡ ok (pos (suc (length ys)), y ∷ ys, s')
      last_round zero h = elim h [ ]
      last_round (suc fuel) h =
          unfold recv_loop in
          rw (le→ltb (suc (length ys)) size (omega arith), eq→== (suc (length ys)) size len)
