-- ===== src/Tests/Messages.antt =====
-- Messages and addresses with concrete contents.
use deamon.Common.{ℕ, refl, true, arith, replicate}
use deamon.Buf.{Malloc, Sockaddr}
use deamon.Buf.Alloc.{IsGranted}
use deamon.Buf.Write.{IsSockaddr}
use deamon.Protocol.{
  SkrumMsg, Body, to, wild, controller_info, request_register, response_register, skrum_msg_t_init,
  mcast_controller_info, request_node_registration, response_node_registration,
}
use deamon.Protocol.Wire.{IsMsg}
use deamon.Api.{RecvMalloc}
use deamon.Api.Receive.{IsAllGranted}

abbrev pub granted : Malloc
granted = record { got_struct = true; got_head = true }

pub granted-IsGranted : IsGranted granted
granted-IsGranted = record { struct = refl; head = refl }

abbrev pub recv_granted : RecvMalloc
recv_granted = record { got_payload = true; buffer = granted }

pub recv_granted-IsAllGranted : IsAllGranted recv_granted
recv_granted-IsAllGranted = record { payload = refl; buffer = granted-IsGranted }

-- 127.0.0.1 with port 3434 on a little-endian host.
abbrev pub loopback : Sockaddr
loopback = record { sin_family = 2; sin_port = 27149; s_addr = 16777343; sin_zero = replicate 8 0 }

pub loopback-IsSockaddr : IsSockaddr loopback
loopback-IsSockaddr = record {
  family = omega arith;
  port = omega arith;
  addr = omega arith;
  zero_size = refl;
}

abbrev pub message : ℕ → Body → SkrumMsg
message type body = record skrum_msg_t_init {
  msg_type = type;
  orig_addr = loopback;
  data_ptr = to body;
}

-- 1600000000 seconds, in September 2020.
abbrev pub info_body : Body
info_body = controller_info (record { ctrlr_port = 3434; ctrlr_startup_ts = 1600000000 })

abbrev pub info_msg : SkrumMsg
info_msg = message mcast_controller_info info_body

pub info_msg-IsMsg : IsMsg info_msg info_body
info_msg-IsMsg = record {
  points = refl;
  typed = refl;
  addr = loopback-IsSockaddr;
  range = (omega arith, record { width = omega arith; high = omega arith; low = omega arith });
  size = omega arith;
}

abbrev pub request_body : Body
request_body = request_register (record { my_port = 10001 })

abbrev pub request_msg : SkrumMsg
request_msg = message request_node_registration request_body

pub request_msg-IsMsg : IsMsg request_msg request_body
request_msg-IsMsg = record {
  points = refl;
  typed = refl;
  addr = loopback-IsSockaddr;
  range = omega arith;
  size = omega arith;
}

abbrev pub response_body : Body
response_body = response_register (record { my_id = 7 })

abbrev pub response_msg : SkrumMsg
response_msg = message response_node_registration response_body

pub response_msg-IsMsg : IsMsg response_msg response_body
response_msg-IsMsg = record {
  points = refl;
  typed = refl;
  addr = loopback-IsSockaddr;
  range = omega arith;
  size = omega arith;
}

-- A message on the stack that nobody has initialised.
abbrev pub stack_msg : SkrumMsg
stack_msg = record skrum_msg_t_init { msg_type = 40000; data_ptr = wild; data_size = 5 }
