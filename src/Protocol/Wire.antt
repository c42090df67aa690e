-- ===== src/Protocol/Wire.antt =====
-- The bytes of a message: what `pack_msg` of src/common/skrum_protocol_pack.c appends.
use deamon.Common.{ℕ, ◌+◌, ◌/◌, ◌%◌, ◌^◌, ◌≤◌, ◌<◌, ◌≡◌, List, ◌++◌, arith, length}
use deamon.Common.Outcome.{ok}
use deamon.Host.{Endian}
use deamon.Host.Laws.{wire16, wire32}
use deamon.Host.Words.{wire64}
use deamon.Buf.{Buf, remaining_buf, pack16, pack32, pack_time, pack_sockaddr}
use deamon.Buf.Cursor.{IsValid, Emits, Emits-trans}
use deamon.Buf.Write.{
  IsSockaddr, wire_sockaddr, remaining_buf-Emits, pack16-Emits, pack32-Emits, pack_time-Emits,
  pack_sockaddr-Emits,
}
use deamon.Protocol.{
  Body, controller_info, request_register, response_register, deamon_pong, to, SkrumMsg,
  mcast_controller_info, request_node_registration, response_node_registration, response_pong,
  pack_body, pack_msg, ControllerInfoMsg, pack_controller_info_msg,
}

abbrev pub type_of : Body → ℕ
type_of (controller_info d) = mcast_controller_info
type_of (request_register d) = request_node_registration
type_of (response_register d) = response_node_registration
type_of (deamon_pong d) = response_pong

-- A time that survives the 64-bit conversions: neither half is taken for a negative int32_t.
pub record IsSafeTime (t : ℕ) : Type 0 where
  pub width : t < 2 ^ 64
  pub high : t / 2 ^ 32 % 256 < 128
  pub low : t % 2 ^ 32 < 2 ^ 31

abbrev pub IsBody : Body → Type 0
IsBody (controller_info d) = (d.ctrlr_port < 2 ^ 16) × IsSafeTime d.ctrlr_startup_ts
IsBody (request_register d) = d.my_port < 2 ^ 16
IsBody (response_register d) = d.my_id < 2 ^ 16
IsBody (deamon_pong d) = d.my_id < 2 ^ 16

-- A message whose data is `body`, of the type that it says, with fields in the range of their C
-- types.
pub record IsMsg (m : SkrumMsg) (body : Body) : Type 0 where
  pub points : m.data_ptr ≡ to body
  pub typed : m.msg_type ≡ type_of body
  pub addr : IsSockaddr m.orig_addr
  pub range : IsBody body
  pub size : m.data_size < 2 ^ 32

abbrev pub wire_body : Body → List ℕ
wire_body (controller_info d) = wire16 d.ctrlr_port ++ wire64 d.ctrlr_startup_ts
wire_body (request_register d) = wire16 d.my_port
wire_body (response_register d) = wire16 d.my_id
wire_body (deamon_pong d) = wire16 d.my_id

abbrev pub wire_msg : SkrumMsg → Body → List ℕ
wire_msg m body =
    wire16 m.msg_type ++ (wire_sockaddr m.orig_addr ++ (wire_body body ++ wire32 m.data_size))

pack_controller_info_msg-Emits :
    (e : Endian) (d : ControllerInfoMsg) (b : Buf)
    → IsBody (controller_info d)
    → IsValid b
    → 10 ≤ remaining_buf b
    → Emits b (wire_body (controller_info d)) (pack_controller_info_msg e d b)
unfolding pack_controller_info_msg
pack_controller_info_msg-Emits e d b w v room = Emits-trans port time
  where
    port : Emits b (wire16 d.ctrlr_port) (pack16 e d.ctrlr_port b)
    port = pack16-Emits e d.ctrlr_port b w.0 v (omega arith)

    time :
        Emits
          (pack16 e d.ctrlr_port b)
          (wire64 d.ctrlr_startup_ts)
          (pack_time e d.ctrlr_startup_ts (pack16 e d.ctrlr_port b))
    time =
        pack_time-Emits e d.ctrlr_startup_ts _ w.1.width w.1.high port.valid
          (omega (arith, remaining_buf-Emits v port))

-- The data size goes behind a body.
with_size :
    (e : Endian) (n : ℕ) {b b' : Buf} {bs : List ℕ}
    → n < 2 ^ 32
    → IsValid b
    → Emits b bs b'
    → length bs + 4 ≤ remaining_buf b
    → Emits b (bs ++ wire32 n) (pack32 e n b')
with_size e n small v f room =
    Emits-trans f (pack32-Emits e n _ small f.valid (omega (arith, remaining_buf-Emits v f)))

pub length-wire_body : (body : Body) → length (wire_body body) ≤ 10
length-wire_body (controller_info d) = omega arith
length-wire_body (request_register d) = omega arith
length-wire_body (response_register d) = omega arith
length-wire_body (deamon_pong d) = omega arith

-- The body packed for its type, and its size word.
pack_body-Emits :
    (e : Endian) (m : SkrumMsg) (body : Body) (b : Buf)
    → IsMsg m body
    → IsValid b
    → 14 ≤ remaining_buf b
    → (b' : Buf) × (pack_body e m b ≡ ok (0, b'))
      × Emits b (wire_body body ++ wire32 m.data_size) b'
unfolding pack_body
pack_body-Emits e m (controller_info d) b w v room = (
  _,
  rw (w.typed, w.points),
  with_size e m.data_size w.size v (pack_controller_info_msg-Emits e d b w.range v (omega arith))
      (omega arith),
)
pack_body-Emits e m (request_register d) b w v room = (
  _,
  rw (w.typed, w.points),
  with_size e m.data_size w.size v (pack16-Emits e d.my_port b w.range v (omega arith))
      (omega arith),
)
pack_body-Emits e m (response_register d) b w v room = (
  _,
  rw (w.typed, w.points),
  with_size e m.data_size w.size v (pack16-Emits e d.my_id b w.range v (omega arith)) (omega arith),
)
pack_body-Emits e m (deamon_pong d) b w v room = (
  _,
  rw (w.typed, w.points),
  with_size e m.data_size w.size v (pack16-Emits e d.my_id b w.range v (omega arith)) (omega arith),
)

pub type_of_small : (body : Body) → type_of body < 2 ^ 16
type_of_small (controller_info d) = omega arith
type_of_small (request_register d) = omega arith
type_of_small (response_register d) = omega arith
type_of_small (deamon_pong d) = omega arith

-- A well-formed message is packed into a valid buffer with at least 36 bytes free by the method of
-- its type, in network order on every host, behind what was packed before.
pub pack_msg-Emits :
    (e : Endian) (m : SkrumMsg) (body : Body) (b : Buf)
    → IsMsg m body
    → IsValid b
    → 36 ≤ remaining_buf b
    → (b' : Buf) × (pack_msg e m b ≡ ok (0, b')) × Emits b (wire_msg m body) b'
unfolding pack_msg
pack_msg-Emits e m body b w v room =
    let (b', q, f) = pack_body-Emits e m body _ w second.valid (
      omega (arith, remaining_buf-Emits v first, remaining_buf-Emits first.valid second, w.addr)) in
    (b', q, Emits-trans first (Emits-trans second f))
  where
    first : Emits b (wire16 m.msg_type) (pack16 e m.msg_type b)
    first = pack16-Emits e m.msg_type b (omega (arith, w.typed, type_of_small body)) v (omega arith)

    second :
        Emits
          (pack16 e m.msg_type b)
          (wire_sockaddr m.orig_addr)
          (pack_sockaddr e m.orig_addr (pack16 e m.msg_type b))
    second =
        pack_sockaddr-Emits e m.orig_addr _ w.addr first.valid
          (omega (arith, remaining_buf-Emits v first))
