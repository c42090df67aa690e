-- ===== src/Protocol/Unpack.antt =====
-- `unpack_msg` of src/common/skrum_protocol_pack.c: what it makes of a packed message, and what
-- it can return on any bytes at all.
use deamon.Common.{
  ℕ, ◌^◌, ◌<◌, ◌≡◌, ◌∙◌, refl, ap, List, ◌++◌, arith, length, append_assoc, ◌==◌, Bool-cases, inl,
  inr,
}
use mathlib.Core.Path.{subst}
use deamon.Common.Outcome.{ok, >>=-eq-ok, ok_injective}
use deamon.Host.{Endian}
use deamon.Host.Laws.{wire32}
use deamon.Host.Words.{wire64, ntoh_int64-wire64}
use deamon.Buf.{Buf, unpack16, unpack_sockaddr}
use deamon.Buf.Cursor.{Ready}
use deamon.Buf.Write.{wire_sockaddr}
use deamon.Buf.Read.{unpack16-Ready, unpack_time-Ready, unpack_sockaddr-Ready}
use deamon.Protocol.{
  Body, controller_info, request_register, response_register, deamon_pong, Pointer, null, to,
  SkrumMsg, response_pong, unpack_body, unpack_msg,
}
use deamon.Protocol.Wire.{type_of, type_of_small, IsBody, IsMsg, wire_body, wire_msg}

unpack_body-Ready :
    (e : Endian) (body : Body) (b : Buf) (r : List ℕ)
    → IsBody body
    → Ready b (wire_body body ++ r)
    → (b' : Buf) × (unpack_body e (type_of body) b ≡ (0, to body, b')) × Ready b' r
unfolding unpack_body
unpack_body-Ready e (controller_info d) b r w f =
    let (e1, f1) = unpack16-Ready e 0 d.ctrlr_port b _ w.0 f in
    let (e2, f2) = unpack_time-Ready e 0 (wire64 d.ctrlr_startup_ts) _ r refl f1 in
    (_, rw (e1, e2, ntoh_int64-wire64 e d.ctrlr_startup_ts w.1.width w.1.low), f2)
unpack_body-Ready e (request_register d) b r w f =
    let (e1, f1) = unpack16-Ready e 0 d.my_port b r w f in (_, rw e1, f1)
unpack_body-Ready e (response_register d) b r w f =
    let (e1, f1) = unpack16-Ready e 0 d.my_id b r w f in (_, rw e1, f1)
unpack_body-Ready e (deamon_pong d) b r w f =
    let (e1, f1) = unpack16-Ready e 0 d.my_id b r w f in (_, rw e1, f1)

Ready-bytes : {b : Buf} {xs ys : List ℕ} → xs ≡ ys → Ready b xs → Ready b ys
Ready-bytes {b} p f = subst (Ready b) p f

-- The bytes of a well-formed message at the position of a buffer are read back by a host of either
-- byte order, into a message whose `sin_zero` has its eight bytes; the data size stays unread.
pub unpack_msg-Ready :
    (e : Endian) (junk : ℕ) (old m : SkrumMsg) (body : Body) (b : Buf) (r : List ℕ)
    → IsMsg m body
    → length old.orig_addr.sin_zero ≡ 8
    → Ready b (wire_msg m body ++ r)
    → (b' : Buf) × (unpack_msg e junk old b
        ≡ ok (
          0,
          record old { msg_type = m.msg_type; orig_addr = m.orig_addr; data_ptr = to body },
          b',
        ))
      × Ready b' (wire32 m.data_size ++ r)
unfolding unpack_msg
unpack_msg-Ready e junk old m body b r w len f =
    let (e1, f1) = unpack16-Ready e old.msg_type m.msg_type b _ small f in
    let (b2, e2, f2) =
      unpack_sockaddr-Ready e junk old.orig_addr m.orig_addr _ (payload ++ r) w.addr len
        (Ready-bytes (append_assoc (wire_sockaddr m.orig_addr) payload r) f1) in
    let (b3, e3, f3) =
      unpack_body-Ready e body b2 (wire32 m.data_size ++ r) w.range
        (Ready-bytes (append_assoc (wire_body body) (wire32 m.data_size) r) f2) in
    (b3, rw (e1, e2, ap (λ t. unpack_body e t b2) w.typed ∙ e3), f3)
  where
    payload : List ℕ
    payload = wire_body body ++ wire32 m.data_size

    small : m.msg_type < 2 ^ 16
    small = omega (arith, w.typed, type_of_small body)

-- What the switch of `unpack_msg` can leave behind: a structure of the type just read, or no
-- data and the code 1 for a type that has none.
pub data IsUnpacked (rc type : ℕ) (p : Pointer) : Type 0 where
  known : (body : Body) → rc ≡ 0 → p ≡ to body → type ≡ type_of body → IsUnpacked rc type p
  unknown : rc ≡ 1 → p ≡ null → response_pong < type → IsUnpacked rc type p

unpack_body-IsUnpacked :
    (e : Endian) (type : ℕ) (b : Buf)
    → IsUnpacked (unpack_body e type b).0 type (unpack_body e type b).1
unfolding unpack_body
unpack_body-IsUnpacked e type b = elim (Bool-cases (type == 0)) [
  | inl t0 ↦ rw t0 (known _ refl refl (ground arith))
  | inr n0 ↦ rw n0 (elim (Bool-cases (type == 1)) [
    | inl t1 ↦ rw t1 (known _ refl refl (ground arith))
    | inr n1 ↦ rw n1 (elim (Bool-cases (type == 2)) [
      | inl t2 ↦ rw t2 (known _ refl refl (ground arith))
      | inr n2 ↦ rw n2 (elim (Bool-cases (type == 3)) [
        | inl t3 ↦ rw t3 (known _ refl refl (ground arith))
        | inr n3 ↦ rw n3 (unknown refl refl (ground arith))
      ])
    ])
  ])
]

-- Whatever the bytes, a message that `unpack_msg` hands out has data of the type it says, or none.
pub unpack_msg-IsUnpacked :
    (e : Endian) (junk : ℕ) (old : SkrumMsg) (b : Buf) {rc : ℕ} {m : SkrumMsg} {b' : Buf}
    → unpack_msg e junk old b ≡ ok (rc, m, b')
    → IsUnpacked rc m.msg_type m.data_ptr
unfolding unpack_msg
unpack_msg-IsUnpacked e junk old b {rc} {m} {b'} h =
    let (s, q, g) =
      >>=-eq-ok (unpack_sockaddr e junk old.orig_addr (unpack16 e old.msg_type b).1) _ h in
    let kept = ok_injective g in
    subst (λ (t : ℕ × SkrumMsg × Buf). IsUnpacked t.0 t.1.msg_type t.1.data_ptr) kept
      (unpack_body-IsUnpacked e (unpack16 e old.msg_type b).0 s.1)
