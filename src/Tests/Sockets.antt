-- ===== src/Tests/Sockets.antt =====
-- Frames over the two connections.
use deamon.Common.{ℕ, ◌≡◌, refl, List, [], ◌∷◌, ◌++◌, arith, length-replicate, replicate}
use deamon.Common.Int.{pos}
use deamon.Common.Outcome.{ok, fault, double_free, null_dereference}
use deamon.Host.{little}
use deamon.Host.Laws.{wire32}
use deamon.Protocol.{skrum_msg_t_init}
use deamon.Protocol.Malformed.{zero_info}
use deamon.Socket.{skrum_recv, skrum_send}
use deamon.Socket.Recv.{Ended, skrum_recv-Ended}
use deamon.Socket.Send.{Written, skrum_send-Written}
use deamon.Api.{skrum_receive_msg}
use deamon.Api.Failure.{receive_split_header, receive_fragmented, receive_too_large}
use deamon.Tests.Streams.{Stream, pipe, pipe-IsPrompt, trickle}
use deamon.Tests.Messages.{recv_granted, recv_granted-IsAllGranted}

abbrev six_bytes : List ℕ
six_bytes = 1 ∷ 2 ∷ 3 ∷ 4 ∷ 5 ∷ 6 ∷ []

-- Six bytes that arrive one by one.
abbrev six : Stream
six = record { unread = six_bytes; written = [] }

skrum_recv-Ended_example : Ended trickle 6 6 six_bytes (skrum_recv trickle 6 six)
skrum_recv-Ended_example = skrum_recv-Ended trickle 6 six (omega arith) (omega arith)

skrum_send-Written_example :
    Written pipe six_bytes 6
      (omega arith)
      []
      (skrum_send pipe six_bytes 6 (record { unread = []; written = [] }))
skrum_send-Written_example =
    skrum_send-Written pipe six_bytes 6 (omega arith) (record { unread = []; written = [] })
      (omega arith)

-- The frame of the six bytes with one byte behind it.
abbrev six_frame : Stream
six_frame = record { unread = wire32 6 ++ (six_bytes ++ (9 ∷ [])); written = [] }

receive_fragmented_example :
    skrum_receive_msg trickle little recv_granted 0 (pos 5) skrum_msg_t_init six_frame
    ≡ fault double_free
receive_fragmented_example =
    receive_fragmented trickle little recv_granted recv_granted-IsAllGranted 0 (pos 5)
      skrum_msg_t_init 6 six_frame (record { unread = six_bytes ++ (9 ∷ []); written = [] })
      (record { unread = 2 ∷ 3 ∷ 4 ∷ 5 ∷ 6 ∷ 9 ∷ []; written = [] }) 1 [] refl (omega arith) refl
      (omega arith) refl

-- Two bytes of a length word, and then the end of the stream.
receive_split_header_example :
    (s' : Stream) × (skrum_receive_msg pipe little recv_granted 0
        (pos 5)
        skrum_msg_t_init
        (record { unread = 0 ∷ 0 ∷ []; written = [] })
      ≡ ok (0, record skrum_msg_t_init { conn_fd = pos 5; data_ptr = zero_info }, s'))
receive_split_header_example =
    receive_split_header pipe little recv_granted recv_granted-IsAllGranted 0 (pos 5)
      skrum_msg_t_init (record { unread = 0 ∷ 0 ∷ []; written = [] })
      (record { unread = []; written = [] }) 0 (0 ∷ []) refl (omega arith) refl

abbrev large : List ℕ
large = replicate 32769 0

receive_too_large_example :
    skrum_receive_msg pipe little recv_granted 0
      (pos 5)
      skrum_msg_t_init
      (record { unread = wire32 32769 ++ (large ++ []); written = [] })
    ≡ fault null_dereference
receive_too_large_example =
    receive_too_large pipe little recv_granted recv_granted-IsAllGranted 0 (pos 5) skrum_msg_t_init
      (pipe-IsPrompt little) 32769 large []
      (record { unread = wire32 32769 ++ (large ++ []); written = [] }) (omega arith) (omega arith)
      (length-replicate {A = ℕ} 32769 0) refl
