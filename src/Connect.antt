-- ===== src/Connect.antt =====
-- src/common/skrum_protocol_socket.c and skrum_protocol_api.c: opening sockets, and
-- `skrum_init_msg_engine_port`.
pub mod Ledger
pub mod Port
use deamon.Common.{
  ℕ, zero, suc, ◌+◌, ◌-◌, ◌%◌, ◌^◌, Bool, true, false, Option, none, some, List, [], ◌∷◌, replicate,
  ltb, ◌==◌, ◌||◌, if◌then◌else◌,
}
use deamon.Common.Int.{ℤ, pos, minus_one, is_neg}
use deamon.Common.Outcome.{Outcome, ok, fault, exhausted}
use deamon.Host.{Endian, htons, value_of}
use deamon.Buf.{Sockaddr}
use deamon.Os.{Os}

abbrev pub af_inet : ℕ
af_inet = 2

-- `quad` is the dotted address, which inet_pton stores byte by byte.
unfoldable pub skrum_setup_sockaddr : Endian → ℕ → List ℕ → Sockaddr
skrum_setup_sockaddr e port quad = record {
  sin_family = af_inet;
  sin_port = htons e port;
  s_addr = value_of e quad;
  sin_zero = replicate 8 0;
}

abbrev pub any_address : List ℕ
any_address = 0 ∷ 0 ∷ 0 ∷ 0 ∷ []

-- EADDRINUSE
abbrev pub eaddrinuse : ℕ
eaddrinuse = 98

module _ (os : Os) where
  open os use {World, socket, bind, listen, connect, close}

  -- The result of setsockopt is not looked at.
  unfoldable pub skrum_init_discovery_engine : Sockaddr → World → ℤ × World
  skrum_init_discovery_engine addr w =
      let (made, w1) = socket w in
      elim made [
        | none ↦ (minus_one, w1)
        | some fd ↦ let (named, w2) = bind fd addr w1 in (if named then pos fd else minus_one, w2)
      ]

  unfoldable pub skrum_init_msg_engine : Sockaddr → World → ℤ × World
  skrum_init_msg_engine addr w =
      let (made, w1) = socket w in
      elim made [
        | none ↦ (minus_one, w1)
        | some fd ↦
            let (named, w2) = bind fd addr w1 in
            let (listens, w3) = listen fd w2 in
            if named then (if listens then pos fd else minus_one, w3) else (minus_one, w2)
      ]

  unfoldable pub skrum_open_stream : Sockaddr → World → ℤ × World
  skrum_open_stream dest_addr w =
      let (made, w1) = socket w in
      if (dest_addr.sin_family == 0) || (dest_addr.sin_port == 0)
      then (minus_one, w)
      else elim made [
        | none ↦ (minus_one, w1)
        | some fd ↦
            let (joined, w2) = connect fd dest_addr w1 in
            if joined then (pos fd, w2) else (minus_one, close fd w2)
      ]

  unfoldable pub skrum_open_datagram_conn : Sockaddr → World → ℤ × World
  skrum_open_datagram_conn dest_addr w =
      let (made, w1) = socket w in
      if (dest_addr.sin_family == 0) || (dest_addr.sin_port == 0)
      then (minus_one, w)
      else (elim made [ none ↦ minus_one | some fd ↦ pos fd ], w1)

  unfoldable pub skrum_open_msg_conn : Sockaddr → World → ℤ × World
  unfolding skrum_open_stream
  skrum_open_msg_conn dest_addr w = skrum_open_stream dest_addr w

module _ (os : Os) (e : Endian) where
  open os use {World}

  -- The for loop, at `i` with the last result `cc`.
  unfoldable pub port_loop : ℕ → ℕ → ℤ → World → Outcome (ℤ × ℕ × World)
  unfolding skrum_init_msg_engine skrum_setup_sockaddr
  port_loop zero i cc w = fault exhausted
  port_loop (suc fuel) i cc w = elim (ltb i 65536) [
    | false ↦ ok (cc, i, w)
    | true ↦
        let (cc', w') = skrum_init_msg_engine os (skrum_setup_sockaddr e i any_address) w in
        elim (is_neg cc') [ true ↦ port_loop fuel (i + 1) cc' w' | false ↦ ok (cc', i, w') ]
  ]

  -- In the source's condition `selected_port = 0` and `errno = EADDRINUSE` are assignments. The
  -- result is the return value and `*actual_port`.
  unfoldable pub skrum_init_msg_engine_port : ℕ → World → Outcome (ℤ × ℕ × World)
  unfolding port_loop
  skrum_init_msg_engine_port selected_port w =
      let (cc, w1) =
        skrum_init_msg_engine os (skrum_setup_sockaddr e selected_port any_address) w in
      elim (is_neg cc || (ltb 0 0 || ltb 0 eaddrinuse)) [
        | false ↦ ok (cc, selected_port, w1)
        | true ↦ elim (port_loop (suc 55535) 10001 cc w1) [
          | fault f ↦ fault f
          | ok r ↦ ok (r.0, r.1 % 2 ^ 16, r.2)
        ]
      ]
