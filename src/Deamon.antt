-- ===== src/Deamon.antt =====
-- src/skrumd/skrumd_req.c: how a node's daemon answers the controller's multicast. `fd` and the
-- connection are what `skrum_open_msg_conn` gives; `Connect` models it.
pub mod Register
pub mod Pong
pub mod Discovery
pub mod Service
use deamon.Common.{ℕ, Bool, true, false, some, ◌==◌, if◌then◌else◌}
use deamon.Common.Int.{ℤ, pos, minus_one, is_neg}
use deamon.Common.Outcome.{Outcome, ok, ◌>>=◌}
use deamon.Host.{Endian}
use deamon.Buf.{Malloc, Sockaddr}
use deamon.Protocol.{
  SkrumMsg, Pointer, to, request_register, deamon_pong, mcast_controller_info,
  request_node_registration, response_pong, ControllerInfoMsg, RequestRegisterMsg,
  as_controller_info, as_response_register, skrum_msg_t_init, skrum_free_msg_members,
}
use deamon.Socket.{Conn}
use deamon.Api.{RecvMalloc, skrum_send_msg, skrum_send_recv_msg}

-- The fields of skrumd_conf_t that the handler uses; cluster_id is its 16-bit pattern.
pub record Conf : Type 0 where
  pub port : ℕ  -- uint16_t
  pub controller_ip : Sockaddr
  pub cont_port : ℕ  -- uint16_t
  pub cluster_id : ℕ
  pub ctrlr_ts : ℕ

abbrev pub register_request : Conf → SkrumMsg
register_request conf = record skrum_msg_t_init {
  msg_type = request_node_registration;
  data_ptr = to (request_register (record { my_port = conf.port }));
}

abbrev pub pong_message : Conf → SkrumMsg
pong_message conf = record skrum_msg_t_init {
  msg_type = response_pong;
  data_ptr = to (deamon_pong (record { my_id = conf.cluster_id }));
}

-- `conf` after the first lines of `_process_ctrlr_mcast`.
abbrev pub controller_set : SkrumMsg → ControllerInfoMsg → Conf → Conf
controller_set msg dmsg conf = record conf {
  controller_ip = msg.orig_addr;
  cont_port = dmsg.ctrlr_port;
}

module _ (c : Conn) (e : Endian) where
  open c use {State}

  -- The result, `conf`, the connection, and whether its descriptor is left open.
  abbrev pub Handled : Type 0
  Handled = ℤ × Conf × State × Bool

  -- `stack` is what lies where `resp_register_msg` is declared, which nothing initialises.
  unfoldable pub send_register :
      Malloc → RecvMalloc → ℕ → SkrumMsg → ℤ → ℕ → Conf → State → Outcome Handled
  send_register m rm junk stack fd ts conf s =
      skrum_send_recv_msg c e m rm junk fd (register_request conf) stack s >>= λ r.
      as_response_register r.1.data_ptr >>= λ resp. skrum_free_msg_members (some r.1) >>= λ _.
      ok (pos 0, record conf { ctrlr_ts = ts; cluster_id = resp.my_id }, r.2, false)

  unfoldable pub send_pong : Malloc → ℤ → Conf → State → Outcome Handled
  send_pong m fd conf s =
      if is_neg fd
      then ok (minus_one, conf, s, false)
      else (skrum_send_msg c e m (pong_message conf) s >>= λ r.
          ok (if is_neg r.0 then minus_one else pos 0, conf, r.1, true))

  unfoldable pub process_ctrlr_mcast :
      Malloc → RecvMalloc → ℕ → SkrumMsg → ℤ → SkrumMsg → Conf → State → Outcome Handled
  unfolding send_register send_pong
  process_ctrlr_mcast m rm junk stack fd msg conf s = as_controller_info msg.data_ptr >>= λ dmsg.
      if conf.ctrlr_ts == dmsg.ctrlr_startup_ts
      then send_pong m fd (controller_set msg dmsg conf) s
      else send_register m rm junk stack fd dmsg.ctrlr_startup_ts (controller_set msg dmsg conf) s

  -- The other types are only logged.
  unfoldable pub skrumd_req :
      Malloc
      → RecvMalloc
      → ℕ
      → SkrumMsg
      → ℤ
      → SkrumMsg
      → Conf
      → State
      → Outcome (Conf × State × Bool)
  unfolding process_ctrlr_mcast
  skrumd_req m rm junk stack fd msg conf s =
      if msg.msg_type == mcast_controller_info
      then (process_ctrlr_mcast m rm junk stack fd msg conf s >>= λ r. ok (r.1, r.2, r.3))
      else ok (conf, s, false)
