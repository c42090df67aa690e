-- ===== src/Tests/Joining.antt =====
-- A daemon that registers with a controller over a pair of connections.
use deamon.Common.{ℕ, ◌≡◌, ◌⊎◌, refl, sym, ap, ◌∙◌, false, List, [], arith}
use deamon.Common.Int.{pos, minus_one}
use deamon.Common.Outcome.{Outcome, ok, ok_injective, fault, indeterminate}
use deamon.Host.{little, big}
use deamon.Protocol.{request_register}
use deamon.Buf.{
  init_buf, alloc_buf, create_buf, pack16, pack32, pack_sockaddr, packmem, remaining_buf, unpack16,
  unpack32, unpack_sockaddr, unpackmem,
}
use deamon.Protocol.{
  pack_msg, pack_body, pack_request_registration_msg, pack_response_registration_msg, unpack_msg,
  unpack_body, unpack_request_registration_msg, skrum_free_msg_members, skrum_free_msg_data,
}
use deamon.Socket.{
  skrum_msg_sendto, skrum_send, send_loop, skrum_msg_recvfrom, skrum_recv, recv_loop,
}
use deamon.Api.{skrum_send_msg, skrum_receive_msg}
use deamon.Api.Send.{frame}
use deamon.Nodes.Sample.{sample}
use deamon.Controller.{skrumctld_req, req_register, register_cluster_node}
use deamon.Controller.Registry.{IsRegistry}
use deamon.Controller.Service.{Serviced, service_connection}
use deamon.Deamon.{register_request}
use deamon.Handshake.{
  Server, Client, serve, answer_for, joined, Unanswered, RequestSent, heard, IsLinked, registered,
}
use deamon.Handshake.Joined.{handshake}
use deamon.Tests.Streams.{Stream, pipe, pipe-IsPrompt}
use deamon.Tests.Messages.{
  granted, granted-IsGranted, recv_granted, recv_granted-IsAllGranted, loopback,
  loopback-IsSockaddr, info_msg, stack_msg,
}
use deamon.Tests.Cluster.{cluster, cells, cluster-IsRegistry}

-- A big-endian controller.
abbrev server : Server
server = record {
  lib = sample;
  conn = pipe;
  endian = big;
  recv_malloc = recv_granted;
  malloc = granted;
  junk_addr = 3;
  junk = stack_msg;
  ip = loopback;
  now = 130;
  fd = 5;
  prompt = pipe-IsPrompt big;
  recv_granted = recv_granted-IsAllGranted;
  granted = granted-IsGranted;
  addr = loopback-IsSockaddr;
  size = omega arith;
}

-- A little-endian daemon.
abbrev client : Client
client = record {
  conn = pipe;
  endian = little;
  malloc = granted;
  recv_malloc = recv_granted;
  junk = 3;
  stack = stack_msg;
  msg = info_msg;
  dmsg = record { ctrlr_port = 3434; ctrlr_startup_ts = 1600000000 };
  conf = record {
    port = 10001;
    controller_ip = loopback;
    cont_port = 0;
    cluster_id = 0;
    ctrlr_ts = 0;
  };
  prompt = pipe-IsPrompt little;
  granted = granted-IsGranted;
  recv_granted = recv_granted-IsAllGranted;
  changed = λ h. omega (arith, h);
  points = refl;
  unset = refl;
  sized = refl;
  port = omega arith;
}

abbrev request_bytes : List ℕ
request_bytes = frame (register_request client.conf) (request_register (record { my_port = 10001 }))

abbrev daemon_end : Stream
daemon_end = record { unread = answer_for server cluster; written = [] }

abbrev controller_end : Stream
controller_end = record { unread = request_bytes; written = [] }

daemon_sends :
    skrum_send_msg pipe little granted (register_request client.conf) daemon_end
    ≡ ok (pos 28, record daemon_end { written = request_bytes })
unfolding skrum_send_msg init_buf alloc_buf pack_msg pack_body pack16 pack32 pack_sockaddr packmem
    remaining_buf pack_request_registration_msg skrum_msg_sendto skrum_send send_loop
daemon_sends = refl

abbrev written_by : Outcome (Serviced sample pipe) → List ℕ
written_by (ok v) = v.socket.written
written_by (fault f) = []

controller_writes : written_by (serve server cluster controller_end) ≡ answer_for server cluster
unfolding service_connection skrumctld_req req_register register_cluster_node skrum_receive_msg
    skrum_msg_recvfrom skrum_recv recv_loop create_buf alloc_buf unpack_msg unpack_body
    unpack_sockaddr unpack16 unpack32 unpackmem unpack_request_registration_msg remaining_buf
    skrum_free_msg_members skrum_free_msg_data skrum_send_msg init_buf pack_msg pack_body pack16
    pack32 pack_sockaddr packmem pack_response_registration_msg skrum_msg_sendto skrum_send
    send_loop
controller_writes = refl

linked : IsLinked client server daemon_end cluster controller_end
linked = record {
  forth = λ j s1 bs sent out. ap (λ x. x.1.written) (ok_injective (sym daemon_sends ∙ sent)) ∙ out;
  back = λ j s1 v bs sent run out.
      ap (λ x. x.1.unread) (ok_injective (sym sent ∙ daemon_sends))
      ∙ sym controller_writes
      ∙ ap written_by run
      ∙ out;
}

handshake_example :
    ((s1 : Stream) × RequestSent client server daemon_end minus_one s1
      × (heard client server 4 daemon_end ≡ fault indeterminate))
    ⊎ (v : Serviced sample pipe) × (serve server cluster controller_end ≡ ok v)
      × IsRegistry sample v.cluster (joined server client.conf cluster cells)
      × (Unanswered server cluster controller_end
          ⊎ (s2 : Stream) × (heard client server 4 daemon_end
              ≡ ok (pos 0, registered client server cluster, s2, false)))
handshake_example =
    handshake client server 4 daemon_end cluster cells controller_end linked cluster-IsRegistry
