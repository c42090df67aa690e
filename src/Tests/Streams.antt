-- ===== src/Tests/Streams.antt =====
-- Two connections: one gives recv all that has arrived and was asked for; the other gives the
-- length word of a frame whole and everything else byte by byte.
use deamon.Common.{
  ℕ, zero, suc, ◌≤◌, ◌≡◌, refl, sym, ap, ◌∙◌, List, [], ◌∷◌, ◌++◌, length, take, drop, take-all,
  take-append, drop-append, arith, length-take, ◌==◌, if◌then◌else◌,
}
use deamon.Host.{Endian}
use deamon.Socket.{Conn, Received, got, Sent, took}
use deamon.Socket.Frame.{IsPrompt}

-- What is to be read and what has been written.
pub record Stream : Type 0 where
  pub unread : List ℕ
  pub written : List ℕ

pub take-drop : (n : ℕ) (xs : List ℕ) → xs ≡ take n xs ++ drop n xs
take-drop zero xs = refl
take-drop (suc n) [] = refl
take-drop (suc n) (x ∷ xs) = ap (λ t. x ∷ t) (take-drop n xs)

abbrev pub recv_upto : (ℕ → ℕ) → Stream → ℕ → Received × Stream
recv_upto cut s n = (got (take (cut n) s.unread), record s { unread = drop (cut n) s.unread })

abbrev pub send_all : Stream → List ℕ → Sent × Stream
send_all s bs = (took (length bs), record s { written = s.written ++ bs })

-- `cut n` is the number of bytes that recv gives when it is asked for n.
abbrev pub stream : (cut : ℕ → ℕ) → ((n : ℕ) → cut n ≤ n) → Conn
stream cut small = record {
  State = Stream;
  recv = recv_upto cut;
  send = send_all;
  incoming = λ s. s.unread;
  outgoing = λ s. s.written;
  recv_lem =
      λ s n. (take-drop (cut n) s.unread, omega (arith, length-take (cut n) s.unread, small n));
  send_lem =
      λ s bs. (ap (λ t. s.written ++ t) (sym (take-all (length bs) bs (omega arith))), omega arith);
}

abbrev pub pipe : Conn
pipe = stream (λ n. n) (λ n. omega arith)

pub pipe-IsPrompt : (e : Endian) → IsPrompt pipe e
unfolding IsPrompt
pipe-IsPrompt e s bs r h q = (
  record s { unread = r },
  ap (λ u. (got (take (length bs) u), record s { unread = drop (length bs) u })) q
      ∙ rw (take-append (length bs) bs r refl, drop-append (length bs) bs r refl),
  refl,
  refl,
)

abbrev pub trickle_cut : ℕ → ℕ
trickle_cut n = if n == 4 then 4 else if n == 0 then 0 else 1

abbrev pub trickle : Conn
trickle = stream trickle_cut (λ n. ground arith)
