-- ===== src/Lib.antt =====
-- The deamon: a controller (skrumctld) and the daemons of its nodes (skrumd), which find one another
-- by multicast and talk over TCP in length-prefixed messages.
--
-- A controller multicasts its address, port and start time every second. A daemon that hears of a
-- new start time sends a registration over TCP and takes over the id of the answer; otherwise it
-- sends a pong with its id. The controller keeps a list of nodes, refreshes a node at its pong and
-- takes it off the list when it has been silent for more than ten seconds. Both programs serve each
-- connection in a thread of its own, at most four threads at once.
--
-- The parts, in the order in which they build on one another:
--   Common      tests, lists and integers on the native numbers; `Outcome`, a value or the undefined
--               behaviour that the code runs into; bits
--   Host        src/common/pack.c: the 64-bit conversions, over the byte order of the host, which is
--               an argument; bytes of numbers in memory. Host/Lost has the values that they lose
--   Buf         src/common/pack.c, pack.h: `create_buf`, `init_buf`, `pack16` ... `unpack_time`. A
--               buffer is its bytes, its size and a position. Buf/Write and Buf/Read show what the
--               functions append and take off, Buf/Alloc what the allocations give
--   Protocol    src/common/skrum_protocol_defs.c, skrum_protocol_pack.c: the messages. `data` is null,
--               wild (never set) or points to one of the four structures; reading it as another one
--               is a fault
--   Socket      src/common/skrum_protocol_socket.c: `skrum_recv`, `skrum_send`, `skrum_msg_recvfrom`,
--               `skrum_msg_sendto` over a connection, the parameter `Conn`
--   Api         src/common/skrum_protocol_api.c: `skrum_send_msg`, `skrum_receive_msg`,
--               `skrum_send_recv_msg`
--   Os, Connect the opening of sockets in skrum_protocol_socket.c, and `skrum_init_msg_engine_port` of
--               skrum_protocol_api.c, over the parameter `Os`
--   Discovery   src/common/skrum_discovery_api.c: one datagram for a message
--               Discovery/Join is the socket that the multicast is received on
--   Nodes       the calls of src/common/list.c, as the parameter `ListLib`; Nodes/Sample meets it
--   Controller  src/skrumctld/skrumctld_req.c, and `_update_node_list`, `_service_connection` and
--               `_discovery_engine` of skrumctld.c. `IsRegistry` relates the list and the heap to a
--               list of nodes. Controller/Race splits the assignment of an id into its steps, for two
--               threads, Controller/Overlap a pong into its search and its write
--   Deamon      src/skrumd/skrumd_req.c, and a round of `_discovery_engine` and
--               `_service_connection` of skrumd.c
--   Handshake   the registration of a daemon with the controller, from both ends
--   Threads     the threads of skrumctld.c and skrumd.c as a step relation, the functions on the thread
--               count being one step each
--   Monitor     the same threads statement by statement: the mutex and the condition variable of the
--               count, `_increment_thread_cnt`, `_decrement_thread_cnt`, `_wait_for_all_threads`.
--               Monitor/Tally counts who is where, Monitor/Guard and Monitor/End keep the invariants,
--               Monitor/Refine maps a state to one of Threads
--   Pthread     src/common/macros.h over what the calls of the thread library return, and
--               src/common/xsignal.c
--   Start       the main functions of skrumctld.c and skrumd.c up to `_msg_engine`, with `_init_conf`,
--               `_skrumctld_init` and `_skrumd_init`; Start/Fini has `_skrumctld_fini`,
--               `_skrumd_fini` and `_destroy_conf`
--   Daemonize   src/common/deamonize.c over its system calls, which nothing calls so far.
--               Daemonize/Digits has the length of the process number, Daemonize/Taken which
--               descriptors are open, Daemonize/Detached what the process is left with
--   Engine      the loop of `_msg_engine` and the block that it hands to accept
--   Xcpuinfo    src/common/xcpuinfo.c, hwloc being a parameter
--   Logs        src/common/logs.c, skrum_errno.c; Logs/Line has `_log_msg`, `_log_printf`, `fatal`,
--               `error`, `info` and `debug`
--   Tests       concrete runs
--
-- Conventions. An int is `ℤ` where the code tests its sign; unsigned numbers are native numbers with
-- the wrap-around written out; a time is its 64-bit pattern. A function that returns through pointers
-- returns a tuple. What malloc, the stack or the system give is an argument: `Malloc` says which
-- calls succeed, `junk` and `stack` are what uninitialised memory holds. Undefined behaviour is a
-- `Fault`, not a value.
--
-- `node_cnt` is a native number, an int in the source, where registration 2^31 overflows; the ids are
-- cut to 16 bits. The connection of `discovery_round` is a parameter, what `skrum_open_msg_conn` gives
-- for the address of the controller. The members of an address are numbers: what bytes they are in
-- memory depends on the host.
--
-- Loops. The loops of `skrum_recv` and `skrum_send` run on the size as fuel, plus one: each round
-- moves at least one byte or ends. `update_loop` runs on the length of the list, plus one, and
-- `port_loop` on the 55535 ports from 10001 to 65535, plus one. The theorems show that the fuel is
-- enough, for they state a result.
--
-- `log_msg` runs on the list of what the calls of pthread_mutex_lock return, `decimal` on 10, for a
-- process number has no more digits.
--
-- Not modelled: the list itself (a copy of LSD-Tools), and two threads between one another's calls of
-- the list, beyond Controller/Race and Controller/Overlap: the other handlers are one step each.
-- vfprintf, asctime, hwloc and the results of the system and thread calls are parameters.
pub mod Common
pub mod Host
pub mod Buf
pub mod Protocol
pub mod Socket
pub mod Api
pub mod Connect
pub mod Nodes
pub mod Controller
pub mod Deamon
pub mod Handshake
pub mod Threads
pub mod Engine
pub mod Os
pub mod Discovery
pub mod Xcpuinfo
pub mod Start
pub mod Daemonize
pub mod Logs
pub mod Pthread
pub mod Monitor
pub mod Tests
