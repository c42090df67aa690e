-- ===== src/Connect/Port.antt =====
-- `skrum_init_msg_engine_port`: it ends, and which port it reports.
use deamon.Common.{
  ℕ, zero, suc, ◌+◌, ◌%◌, ◌^◌, ◌≤◌, ◌<◌, ◌≡◌, ◌⊎◌, inl, inr, refl, sym, ap, ◌∙◌, Bool, true, false,
  List, [], ◌∷◌, ◌++◌, append_assoc, arith, ltb, lt→ltb, le→ltb, ◌||◌,
}
use mathlib.Core.Path.{subst}
use deamon.Common.Int.{ℤ, pos, is_neg}
use deamon.Common.Outcome.{ok}
use deamon.Host.{Endian, htons}
use deamon.Buf.{Sockaddr}
use deamon.Os.{Os}
use deamon.Connect.{
  skrum_setup_sockaddr, any_address, skrum_init_msg_engine, port_loop, skrum_init_msg_engine_port,
}
use deamon.Connect.Ledger.{Bound, Failed, no_socket, not_bound, not_listening, init_msg_engine_held}

module _ (os : Os) (e : Endian) where
  open os use {World, open_fds, bound, listening}

  -- The descriptors that were open stay open.
  abbrev pub Kept : World → World → Type 0
  Kept w w' = (xs : List ℕ) × (open_fds w' ≡ xs ++ open_fds w)

  -- A socket that listens and is bound to the port `i`, one of those that the loop tries.
  pub record Chosen (rc : ℤ) (i : ℕ) (w' : World) : Type 0 where
    pub fd : ℕ
    pub rest : List ℕ
    pub names : List (ℕ × ℕ)
    pub returned : rc ≡ pos fd
    pub low : 10001 ≤ i
    pub high : i < 65536
    pub held : open_fds w' ≡ fd ∷ rest
    pub named : bound w' ≡ (fd, htons e i) ∷ names
    pub others : List ℕ
    pub heard : listening w' ≡ fd ∷ others

  Kept-step :
      {addr : Sockaddr} {rc : ℤ} {w w' : World}
      → Bound os addr.sin_port rc w w' ⊎ Failed os addr rc w w'
      → Kept w w'
  Kept-step (inl b) = (b.fd ∷ [], b.held)
  Kept-step (inr f) = elim f.cause [
    | no_socket q r ↦ ([], r)
    | not_bound fd q b r ↦ (fd ∷ [], r)
    | not_listening fd q b l r ↦ (fd ∷ [], r)
  ]

  Kept-trans : {w w' w'' : World} → Kept w w' → Kept w' w'' → Kept w w''
  Kept-trans {w} {w'} {w''} (xs, p) (ys, q) =
      (ys ++ xs, q ∙ ap (λ t. ys ++ t) p ∙ sym (append_assoc ys xs (open_fds w)))

  -- One round.
  round_done :
      (fuel i : ℕ) (rc rc' : ℤ) (w w' : World)
      → i < 65536
      → skrum_init_msg_engine os (skrum_setup_sockaddr e i any_address) w ≡ (rc', w')
      → is_neg rc' ≡ false
      → port_loop os e (suc fuel) i rc w ≡ ok (rc', i, w')
  unfolding port_loop
  round_done fuel i rc rc' w w' h q n =
      rw (port_loop, lt→ltb i 65536 h, ap (λ x. x.0) q, n, ap (λ x. x.0) q, ap (λ x. x.1) q)

  round_more :
      (fuel i : ℕ) (rc rc' : ℤ) (w w' : World)
      → i < 65536
      → skrum_init_msg_engine os (skrum_setup_sockaddr e i any_address) w ≡ (rc', w')
      → is_neg rc' ≡ true
      → port_loop os e (suc fuel) i rc w ≡ port_loop os e fuel (i + 1) rc' w'
  unfolding port_loop
  round_more fuel i rc rc' w w' h q n =
      rw (port_loop, lt→ltb i 65536 h, ap (λ x. x.0) q, n, ap (λ x. x.0) q, ap (λ x. x.1) q)

  loop_end :
      (fuel i : ℕ) (rc : ℤ) (w : World)
      → i ≡ 65536
      → port_loop os e (suc fuel) i rc w ≡ ok (rc, i, w)
  unfolding port_loop
  loop_end fuel i rc w h = rw (port_loop, le→ltb i 65536 (omega (arith, h)))

  port_of : (i : ℕ) → (skrum_setup_sockaddr e i any_address).sin_port ≡ htons e i
  unfolding skrum_setup_sockaddr
  port_of i = refl

  abbrev Looped : ℕ → ℕ → ℤ → World → Type 0
  Looped fuel i rc w =
      (rc' : ℤ) × (i' : ℕ) × (w' : World) × (port_loop os e (suc fuel) i rc w ≡ ok (rc', i', w'))
      × (Chosen rc' i' w' ⊎ (is_neg rc' ≡ true) × (i' ≡ 65536))
      × Kept w w'

  one_round :
      (fuel i : ℕ) (rc : ℤ) (w : World)
      → i < 65536
      → 10001 ≤ i
      → ((rc' : ℤ) (w' : World) → is_neg rc' ≡ true → Looped fuel (i + 1) rc' w')
      → Looped (suc fuel) i rc w
  one_round fuel i rc w h low next =
      let (rc', w', q, result) = init_msg_engine_held os (skrum_setup_sockaddr e i any_address) w in
      go rc' w' q result
    where
      go :
          (rc' : ℤ) (w' : World)
          → skrum_init_msg_engine os (skrum_setup_sockaddr e i any_address) w ≡ (rc', w')
          → Bound os (skrum_setup_sockaddr e i any_address).sin_port rc' w w'
            ⊎ Failed os (skrum_setup_sockaddr e i any_address) rc' w w'
          → Looped (suc fuel) i rc w
      go rc' w' q (inl b) = (
        rc',
        i,
        w',
        round_done (suc fuel) i rc rc' w w' h q (rw b.returned),
        inl (record {
          fd = b.fd;
          rest = open_fds w;
          names = bound w;
          returned = b.returned;
          low = low;
          high = h;
          held = b.held;
          named = b.named ∙ ap (λ p. (b.fd, p) ∷ bound w) (port_of i);
          others = listening w;
          heard = b.heard;
        }),
        Kept-step {addr = skrum_setup_sockaddr e i any_address} (inl b),
      )
      go rc' w' q (inr f) =
          let (r, j, v, run, c, k) = next rc' w' (rw f.returned) in
          (
            r,
            j,
            v,
            round_more (suc fuel) i rc rc' w w' h q (rw f.returned) ∙ run,
            c,
            Kept-trans (Kept-step {addr = skrum_setup_sockaddr e i any_address} (inr f)) k,
          )

  -- The loop with `fuel` ports left to try.
  loop_ends :
      (fuel i : ℕ) (rc : ℤ) (w : World)
      → fuel + i ≡ 65536
      → 10001 ≤ i
      → (is_neg rc ≡ true) ⊎ (i < 65536)
      → Looped fuel i rc w
  loop_ends zero i rc w h low (inl neg) =
      (rc, i, w, loop_end zero i rc w (omega (arith, h)), inr (neg, omega (arith, h)), ([], refl))
  loop_ends zero i rc w h low (inr below) = absurd (omega (arith, h, below))
  loop_ends (suc fuel) i rc w h low z = one_round fuel i rc w (omega (arith, h)) low (λ rc' w' neg.
      loop_ends fuel (i + 1) rc' w' (omega (arith, h)) (omega (arith, low)) (inl neg))

  -- The condition of the source is true whatever `cc` is.
  always : (b : Bool) → (b || (ltb 0 0 || ltb 0 98)) ≡ true
  always true = refl
  always false = refl

  -- The first attempt, at the port asked for.
  abbrev pub attempt : ℕ → World → ℤ × World
  attempt selected w = skrum_init_msg_engine os (skrum_setup_sockaddr e selected any_address) w

  after_loop :
      (selected : ℕ) (w : World) (r : ℤ) (j : ℕ) (v : World)
      → port_loop os e (suc 55535) 10001 (attempt selected w).0 (attempt selected w).1
        ≡ ok (r, j, v)
      → skrum_init_msg_engine_port os e selected w ≡ ok (r, j % 2 ^ 16, v)
  unfolding skrum_init_msg_engine_port
  after_loop selected w r j v run =
      rw (skrum_init_msg_engine_port, always (is_neg (attempt selected w).0), run)

  pub init_msg_engine_port-Chosen :
      (selected : ℕ) (w : World)
      → (rc : ℤ) × (port : ℕ) × (w' : World) × (skrum_init_msg_engine_port os e selected w
          ≡ ok (rc, port, w'))
        × (Chosen rc port w' ⊎ (is_neg rc ≡ true) × (port ≡ 0))
        × Kept (attempt selected w).1 w'
  init_msg_engine_port-Chosen selected w =
      let (r, j, v, run, c, k) =
        loop_ends 55535 10001 (attempt selected w).0 (attempt selected w).1 refl (omega arith)
          (inr (omega arith)) in
      (
        r,
        j % 2 ^ 16,
        v,
        after_loop selected w r j v run,
        elim c [
          | inl b ↦ inl (subst (λ x. Chosen r x v) (sym (small j b.high)) b)
          | inr z ↦ inr (z.0, rw z.1)
        ],
        k,
      )
    where
      small : (n : ℕ) → n < 65536 → n % 2 ^ 16 ≡ n
      small n h = omega (arith, h)
