-- ===== src/Host/Laws.antt =====
-- What the conversions of `Host` put into memory: network order, whatever the host's order.
use deamon.Common.{ℕ, ◌/◌, ◌%◌, ◌^◌, ◌<◌, ◌≡◌, refl, List, [], ◌∷◌, arith}
use deamon.Host.{Endian, little, big, bytes_of, value_of, htons, htonl}

abbrev pub wire16 : ℕ → List ℕ
wire16 v = v / 2 ^ 8 % 256 ∷ v % 256 ∷ []

abbrev pub wire32 : ℕ → List ℕ
wire32 v = v / 2 ^ 24 % 256 ∷ v / 2 ^ 16 % 256 ∷ v / 2 ^ 8 % 256 ∷ v % 256 ∷ []

pub cons_eq : {x y : ℕ} {xs ys : List ℕ} → x ≡ y → xs ≡ ys → x ∷ xs ≡ y ∷ ys
cons_eq p q = cc

pub bytes_of-htons : (e : Endian) (v : ℕ) → v < 2 ^ 16 → bytes_of e 2 (htons e v) ≡ wire16 v
bytes_of-htons little v h = cons_eq (omega arith) (cons_eq (omega arith) refl)
bytes_of-htons big v h = cons_eq (omega arith) (cons_eq (omega arith) refl)

pub bytes_of-htonl : (e : Endian) (v : ℕ) → v < 2 ^ 32 → bytes_of e 4 (htonl e v) ≡ wire32 v
bytes_of-htonl little v h =
    cons_eq (omega arith)
      (cons_eq (omega arith) (cons_eq (omega arith) (cons_eq (omega arith) refl)))
bytes_of-htonl big v h =
    cons_eq (omega arith)
      (cons_eq (omega arith) (cons_eq (omega arith) (cons_eq (omega arith) refl)))

pub ntohs-wire16 : (e : Endian) (v : ℕ) → v < 2 ^ 16 → htons e (value_of e (wire16 v)) ≡ v
ntohs-wire16 little v h = omega arith
ntohs-wire16 big v h = omega arith

pub ntohl-wire32 : (e : Endian) (v : ℕ) → v < 2 ^ 32 → htonl e (value_of e (wire32 v)) ≡ v
ntohl-wire32 little v h = omega arith
ntohl-wire32 big v h = omega arith

pub htonl-htonl : (v : ℕ) → v < 2 ^ 32 → htonl little (htonl little v) ≡ v
htonl-htonl v h = omega arith

pub htonl-lt : (v : ℕ) → v < 2 ^ 32 → htonl little v < 2 ^ 32
htonl-lt v h = omega arith
