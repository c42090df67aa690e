-- ===== src/Tests/Daemon.antt =====
-- A daemon that gets the controller's multicast.
use deamon.Common.{ℕ, ◌+◌, ◌≡◌, ◌⊎◌, refl, sym, ap, ◌∙◌, true, false, [], ◌++◌, arith}
use deamon.Common.Int.{pos, minus_one}
use deamon.Common.Outcome.{ok, ok_injective, fault, indeterminate}
use deamon.Host.{little}
use deamon.Protocol.{ControllerInfoMsg, deamon_pong}
use deamon.Buf.{init_buf, alloc_buf, pack16, pack32, pack_sockaddr, packmem, remaining_buf}
use deamon.Protocol.{request_register, pack_msg, pack_body, pack_request_registration_msg}
use deamon.Socket.{skrum_msg_sendto, skrum_send, send_loop}
use deamon.Api.{skrum_send_msg}
use deamon.Api.Send.{frame}
use deamon.Deamon.{Conf, pong_message, register_request, process_ctrlr_mcast}
use deamon.Deamon.Register.{register_answered}
use deamon.Protocol.{controller_info}
use deamon.Protocol.Wire.{wire_msg}
use deamon.Deamon.Discovery.{discovery_round, discovery_round-pong}
use deamon.Common.{replicate, some}
use deamon.Tests.Streams.{Stream, pipe, pipe-IsPrompt}
use deamon.Tests.Messages.{
  granted, granted-IsGranted, recv_granted, recv_granted-IsAllGranted, loopback, info_msg,
  response_msg, response_body, response_msg-IsMsg, stack_msg, info_msg-IsMsg,
}

abbrev info : ControllerInfoMsg
info = record { ctrlr_port = 3434; ctrlr_startup_ts = 1600000000 }

-- The daemon has just started.
abbrev conf : Conf
conf = record {
  port = 10001;
  controller_ip = loopback;
  cont_port = 0;
  cluster_id = 0;
  ctrlr_ts = 0;
}

abbrev registered : Conf
registered = record conf { cluster_id = 7; ctrlr_ts = 1600000000 }

abbrev answer : Stream
answer = record { unread = frame response_msg response_body ++ []; written = [] }

abbrev after_request : Stream
after_request = record {
  unread = frame response_msg response_body ++ [];
  written = frame (register_request conf) (request_register (record { my_port = 10001 }));
}

request_sent :
    skrum_send_msg pipe little granted (register_request conf) answer ≡ ok (pos 28, after_request)
unfolding skrum_send_msg init_buf alloc_buf pack_msg pack_body pack16 pack32 pack_sockaddr packmem
    remaining_buf pack_request_registration_msg skrum_msg_sendto skrum_send send_loop
request_sent = refl

answered :
    (j : ℕ) (t : Stream)
    → skrum_send_msg pipe little granted (register_request conf) answer ≡ ok (pos j, t)
    → t.unread ≡ frame response_msg response_body ++ []
answered j t q = ap (λ x. x.1.unread) (ok_injective (sym q ∙ request_sent))

register_answered_example :
    ((t : Stream) × (skrum_send_msg pipe little granted (register_request conf) answer
        ≡ ok (minus_one, t))
      × (process_ctrlr_mcast pipe little granted recv_granted 3 stack_msg
            (pos (4 + 1))
            info_msg
            conf
            answer
          ≡ fault indeterminate))
    ⊎ (s' : Stream) × (process_ctrlr_mcast pipe little granted recv_granted 3 stack_msg
          (pos (4 + 1))
          info_msg
          conf
          answer
        ≡ ok (
          pos 0,
          record conf {
            controller_ip = info_msg.orig_addr;
            cont_port = 3434;
            ctrlr_ts = 1600000000;
            cluster_id = 7;
          },
          s',
          false,
        ))
      × (s'.unread ≡ [])
register_answered_example =
    register_answered pipe little granted recv_granted 3 stack_msg info_msg info conf
      (λ h. omega (arith, h)) refl refl refl (omega arith) granted-IsGranted
      recv_granted-IsAllGranted (pipe-IsPrompt little) 4 answer response_msg 7 [] response_msg-IsMsg
      answered

discovery_round-pong_example :
    (s' : Stream) × (discovery_round pipe little granted recv_granted 3 stack_msg
        (replicate 512 170)
        stack_msg
        (pos 5)
        (some (wire_msg info_msg (controller_info info)))
        registered
        answer
      ≡ ok (record registered { controller_ip = info_msg.orig_addr; cont_port = 3434 }, s', true))
    × ((skrum_send_msg pipe little granted (pong_message registered) answer ≡ ok (minus_one, s'))
        ⊎ (s'.written ≡ [] ++ frame (pong_message registered) (deamon_pong (record { my_id = 7 }))))
discovery_round-pong_example =
    discovery_round-pong pipe little granted recv_granted 3 stack_msg (replicate 512 170) stack_msg
      info_msg info 5 registered answer granted-IsGranted info_msg-IsMsg refl refl refl
      (omega arith)
