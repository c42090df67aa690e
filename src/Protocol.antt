-- ===== src/Protocol.antt =====
-- src/common/skrum_protocol_defs.{h,c} and skrum_protocol_pack.c: the messages, how they are
-- packed, unpacked and freed. The mallocs of the small message structures are taken to succeed.
pub mod Wire
pub mod Unpack
pub mod Free
pub mod Malformed
use deamon.Common.{ℕ, Bool, true, false, Option, none, some, replicate, ◌==◌, if◌then◌else◌}
use deamon.Common.Int.{ℤ, pos}
use deamon.Common.Outcome.{Outcome, ok, fault, null_dereference, indeterminate, bad_cast, ◌>>=◌}
use deamon.Host.{Endian}
use deamon.Buf.{
  Buf, Sockaddr, pack16, unpack16, pack32, pack_time, unpack_time, pack_sockaddr, unpack_sockaddr,
}

-- skrum_msg_type_t
abbrev pub mcast_controller_info : ℕ
mcast_controller_info = 0

abbrev pub request_node_registration : ℕ
request_node_registration = 1

abbrev pub response_node_registration : ℕ
response_node_registration = 2

abbrev pub response_pong : ℕ
response_pong = 3

pub record ControllerInfoMsg : Type 0 where
  pub ctrlr_port : ℕ  -- uint16_t
  pub ctrlr_startup_ts : ℕ  -- time_t, as its 64-bit pattern

pub record RequestRegisterMsg : Type 0 where
  pub my_port : ℕ  -- uint16_t

-- An int16_t is its 16-bit pattern.
pub record ResponseRegisterMsg : Type 0 where
  pub my_id : ℕ

pub record DeamonPongMsg : Type 0 where
  pub my_id : ℕ

-- The object that `data` points to.
pub data Body : Type 0 where
  controller_info : ControllerInfoMsg → Body
  request_register : RequestRegisterMsg → Body
  response_register : ResponseRegisterMsg → Body
  deamon_pong : DeamonPongMsg → Body

-- `wild` is a pointer that was never set.
pub data Pointer : Type 0 where
  null wild : Pointer
  to : Body → Pointer

pub record SkrumMsg : Type 0 where
  pub conn_fd : ℤ
  pub msg_type : ℕ  -- uint16_t
  pub orig_addr : Sockaddr
  pub data_ptr : Pointer
  pub data_size : ℕ  -- uint32_t

abbrev pub zero_addr : Sockaddr
zero_addr = record { sin_family = 0; sin_port = 0; s_addr = 0; sin_zero = replicate 8 0 }

-- `skrum_msg_t_init` sets every byte to zero, whatever stood there.
abbrev pub skrum_msg_t_init : SkrumMsg
skrum_msg_t_init = record {
  conn_fd = pos 0;
  msg_type = 0;
  orig_addr = zero_addr;
  data_ptr = null;
  data_size = 0;
}

-- The casts of `data`. Reading through a pointer to another structure is undefined.
abbrev pub deref : Pointer → Outcome Body
deref null = fault null_dereference
deref wild = fault indeterminate
deref (to body) = ok body

abbrev pub as_controller_info : Pointer → Outcome ControllerInfoMsg
as_controller_info p = deref p >>= elim [ controller_info d ↦ ok d | _ ↦ fault bad_cast ]

abbrev pub as_request_register : Pointer → Outcome RequestRegisterMsg
as_request_register p = deref p >>= elim [ request_register d ↦ ok d | _ ↦ fault bad_cast ]

abbrev pub as_response_register : Pointer → Outcome ResponseRegisterMsg
as_response_register p = deref p >>= elim [ response_register d ↦ ok d | _ ↦ fault bad_cast ]

abbrev pub as_deamon_pong : Pointer → Outcome DeamonPongMsg
as_deamon_pong p = deref p >>= elim [ deamon_pong d ↦ ok d | _ ↦ fault bad_cast ]

unfoldable pub pack_controller_info_msg : Endian → ControllerInfoMsg → Buf → Buf
pack_controller_info_msg e msg b = pack_time e msg.ctrlr_startup_ts (pack16 e msg.ctrlr_port b)

unfoldable pub unpack_controller_info_msg : Endian → Buf → Pointer × Buf
unpack_controller_info_msg e b =
    let (port, b1) = unpack16 e 0 b in
    let (ts, b2) = unpack_time e 0 b1 in
    (to (controller_info (record { ctrlr_port = port; ctrlr_startup_ts = ts })), b2)

unfoldable pub pack_request_registration_msg : Endian → RequestRegisterMsg → Buf → Buf
pack_request_registration_msg e msg b = pack16 e msg.my_port b

unfoldable pub unpack_request_registration_msg : Endian → Buf → Pointer × Buf
unpack_request_registration_msg e b =
    let (port, b1) = unpack16 e 0 b in (to (request_register (record { my_port = port })), b1)

unfoldable pub pack_response_registration_msg : Endian → ResponseRegisterMsg → Buf → Buf
pack_response_registration_msg e msg b = pack16 e msg.my_id b

unfoldable pub unpack_response_registration_msg : Endian → Buf → Pointer × Buf
unpack_response_registration_msg e b =
    let (id, b1) = unpack16 e 0 b in (to (response_register (record { my_id = id })), b1)

unfoldable pub pack_deamon_pong_msg : Endian → DeamonPongMsg → Buf → Buf
pack_deamon_pong_msg e msg b = pack16 e msg.my_id b

unfoldable pub unpack_deamon_pong_msg : Endian → Buf → Pointer × Buf
unpack_deamon_pong_msg e b =
    let (id, b1) = unpack16 e 0 b in (to (deamon_pong (record { my_id = id })), b1)

-- The switch of `pack_msg`; 1 stands for "no pack method".
unfoldable pub pack_body : Endian → SkrumMsg → Buf → Outcome (ℕ × Buf)
unfolding pack_controller_info_msg pack_request_registration_msg pack_response_registration_msg
    pack_deamon_pong_msg
pack_body e msg b =
    if msg.msg_type == mcast_controller_info
    then (as_controller_info msg.data_ptr >>= λ d.
        ok (0, pack32 e msg.data_size (pack_controller_info_msg e d b)))
    else if msg.msg_type == request_node_registration
    then (as_request_register msg.data_ptr >>= λ d.
        ok (0, pack32 e msg.data_size (pack_request_registration_msg e d b)))
    else if msg.msg_type == response_node_registration
    then (as_response_register msg.data_ptr >>= λ d.
        ok (0, pack32 e msg.data_size (pack_response_registration_msg e d b)))
    else if msg.msg_type == response_pong
    then (as_deamon_pong msg.data_ptr >>= λ d.
        ok (0, pack32 e msg.data_size (pack_deamon_pong_msg e d b)))
    else ok (1, b)

unfoldable pub pack_msg : Endian → SkrumMsg → Buf → Outcome (ℕ × Buf)
pack_msg e msg b = pack_body e msg (pack_sockaddr e msg.orig_addr (pack16 e msg.msg_type b))

-- The switch of `unpack_msg`, on the type just read.
unfoldable pub unpack_body : Endian → ℕ → Buf → ℕ × Pointer × Buf
unfolding unpack_controller_info_msg unpack_request_registration_msg
    unpack_response_registration_msg unpack_deamon_pong_msg
unpack_body e type b =
    if type == mcast_controller_info
    then (let (p, b') = unpack_controller_info_msg e b in (0, p, b'))
    else if type == request_node_registration
    then (let (p, b') = unpack_request_registration_msg e b in (0, p, b'))
    else if type == response_node_registration
    then (let (p, b') = unpack_response_registration_msg e b in (0, p, b'))
    else if type == response_pong
    then (let (p, b') = unpack_deamon_pong_msg e b in (0, p, b'))
    else (1, null, b)

-- `junk` is the uninitialised `sin_zero_size` of `unpack_sockaddr`.
unfoldable pub unpack_msg : Endian → ℕ → SkrumMsg → Buf → Outcome (ℕ × SkrumMsg × Buf)
unpack_msg e junk msg b =
    let (type, b1) = unpack16 e msg.msg_type b in
    unpack_sockaddr e junk msg.orig_addr b1 >>= λ s.
    let (rc, p, b3) = unpack_body e type s.1 in
    ok (rc, record msg { msg_type = type; orig_addr = s.0; data_ptr = p }, b3)

-- The four `skrum_free_*_msg` call free; the result says whether a block was released.
unfoldable pub free_block : Pointer → Outcome Bool
free_block null = ok false
free_block wild = fault indeterminate
free_block (to body) = ok true

unfoldable pub skrum_free_msg_data : ℕ → Pointer → Outcome (ℕ × Bool)
unfolding free_block
skrum_free_msg_data type null = ok (0, false)
skrum_free_msg_data type p =
    if type == mcast_controller_info
    then (free_block p >>= λ done. ok (0, done))
    else if type == request_node_registration
    then (free_block p >>= λ done. ok (0, done))
    else if type == response_node_registration
    then (free_block p >>= λ done. ok (0, done))
    else if type == response_pong
    then (free_block p >>= λ done. ok (0, done))
    else ok (1, false)

unfoldable pub skrum_free_msg_members : Option SkrumMsg → Outcome Bool
unfolding skrum_free_msg_data
skrum_free_msg_members none = ok false
skrum_free_msg_members (some msg) = skrum_free_msg_data msg.msg_type msg.data_ptr >>= λ r. ok r.1
