-- ===== src/Protocol/Free.antt =====
-- Freeing an unpacked message: nothing leaks and nothing is freed twice.
use deamon.Common.{ℕ, ◌≡◌, refl, ap, sym, ◌∙◌, true, ◌==◌, some}
use deamon.Common.Outcome.{ok}
use deamon.Host.{Endian}
use deamon.Buf.{Buf}
use deamon.Protocol.{
  Body, controller_info, request_register, response_register, deamon_pong, Pointer, to, SkrumMsg,
  unpack_msg, skrum_free_msg_data, skrum_free_msg_members,
}
use deamon.Protocol.Wire.{type_of}
use deamon.Protocol.Unpack.{IsUnpacked, known, unknown, unpack_msg-IsUnpacked}

free_body : (body : Body) → skrum_free_msg_data (type_of body) (to body) ≡ ok (0, true)
unfolding skrum_free_msg_data
free_body (controller_info d) = refl
free_body (request_register d) = refl
free_body (response_register d) = refl
free_body (deamon_pong d) = refl

free_unpacked :
    {rc type : ℕ} {p : Pointer}
    → IsUnpacked rc type p
    → skrum_free_msg_data type p ≡ ok (0, rc == 0)
unfolding skrum_free_msg_data
free_unpacked {rc} {type} {p} (known body r q t) =
    ap (skrum_free_msg_data type) q
    ∙ ap (λ n. skrum_free_msg_data n (to body)) t
    ∙ free_body body
    ∙ ap (λ n. ok (0, n == 0)) (sym r)
free_unpacked {rc} {type} {p} (unknown r q t) =
    ap (skrum_free_msg_data type) q ∙ ap (λ n. ok (0, n == 0)) (sym r)

-- After `unpack_msg` the free routine releases the data that was allocated, and finds none when
-- the type was unknown.
pub free-unpack_msg :
    (e : Endian) (junk : ℕ) (old : SkrumMsg) (b : Buf) {rc : ℕ} {m : SkrumMsg} {b' : Buf}
    → unpack_msg e junk old b ≡ ok (rc, m, b')
    → skrum_free_msg_members (some m) ≡ ok (rc == 0)
unfolding skrum_free_msg_members
free-unpack_msg e junk old b h = rw (free_unpacked (unpack_msg-IsUnpacked e junk old b h))

-- A message whose data has the type that it says is freed.
pub free_typed :
    (msg : SkrumMsg) (body : Body)
    → msg.msg_type ≡ type_of body
    → msg.data_ptr ≡ to body
    → skrum_free_msg_members (some msg) ≡ ok true
unfolding skrum_free_msg_members
free_typed msg (controller_info d) q p = rw (p, q)
free_typed msg (request_register d) q p = rw (p, q)
free_typed msg (response_register d) q p = rw (p, q)
free_typed msg (deamon_pong d) q p = rw (p, q)
