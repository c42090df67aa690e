-- ===== src/Tests/Calls.antt =====
-- A message from one host to another.
use deamon.Common.{ℕ, ◌≡◌, refl, List, [], ◌++◌}
use deamon.Common.Int.{pos}
use deamon.Common.Outcome.{ok}
use deamon.Host.{little, big}
use deamon.Buf.{init_buf, alloc_buf, pack16, pack32, pack_sockaddr, packmem, remaining_buf}
use deamon.Protocol.{skrum_msg_t_init, pack_msg, pack_body, pack_request_registration_msg}
use deamon.Protocol.Unpack.{IsUnpacked}
use deamon.Socket.{skrum_msg_sendto, skrum_send, send_loop}
use deamon.Api.{skrum_send_msg, skrum_receive_msg}
use deamon.Api.Send.{frame}
use deamon.Api.Receive.{received, receive_frame, receive-send, receive_msg-IsUnpacked}
use deamon.Tests.Streams.{Stream, pipe, pipe-IsPrompt}
use deamon.Tests.Messages.{
  granted, granted-IsGranted, recv_granted, recv_granted-IsAllGranted, request_msg, request_body,
  request_msg-IsMsg,
}

abbrev closed : Stream
closed = record { unread = []; written = [] }

abbrev bytes : List ℕ
bytes = frame request_msg request_body

abbrev sent : Stream
sent = record { unread = []; written = bytes }

sends : skrum_send_msg pipe big granted request_msg closed ≡ ok (pos 28, sent)
unfolding skrum_send_msg init_buf alloc_buf pack_msg pack_body pack16 pack32 pack_sockaddr packmem
    remaining_buf pack_request_registration_msg skrum_msg_sendto skrum_send send_loop
sends = refl

receive-send_example :
    (s2' : Stream) × (skrum_receive_msg pipe little recv_granted 3
        (pos 5)
        skrum_msg_t_init
        (record { unread = bytes ++ []; written = [] })
      ≡ ok (0, received (pos 5) skrum_msg_t_init request_msg request_body, s2'))
    × (s2'.unread ≡ [])
receive-send_example =
    receive-send pipe pipe big little (pipe-IsPrompt little) granted recv_granted 3 (pos 5)
      request_msg skrum_msg_t_init request_body closed sent
      (record { unread = bytes ++ []; written = [] }) 28 bytes [] granted-IsGranted
      recv_granted-IsAllGranted request_msg-IsMsg refl sends refl refl

arrives :
    (s2' : Stream) × (skrum_receive_msg pipe little recv_granted 3
        (pos 5)
        skrum_msg_t_init
        (record { unread = bytes ++ []; written = [] })
      ≡ ok (0, received (pos 5) skrum_msg_t_init request_msg request_body, s2'))
    × (s2'.unread ≡ [])
    × (s2'.written ≡ [])
arrives =
    receive_frame pipe little (pipe-IsPrompt little) recv_granted 3 (pos 5) skrum_msg_t_init
      request_msg request_body [] (record { unread = bytes ++ []; written = [] })
      recv_granted-IsAllGranted request_msg-IsMsg refl refl

receive_msg-IsUnpacked_example :
    IsUnpacked 0
      (received (pos 5) skrum_msg_t_init request_msg request_body).msg_type
      (received (pos 5) skrum_msg_t_init request_msg request_body).data_ptr
receive_msg-IsUnpacked_example =
    receive_msg-IsUnpacked pipe little recv_granted 3 (pos 5) skrum_msg_t_init
      (record { unread = bytes ++ []; written = [] }) arrives.1
