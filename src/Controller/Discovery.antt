-- ===== src/Controller/Discovery.antt =====
-- src/skrumctld/skrumctld.c: `_setup_controller_addr` and `_discovery_engine`, which multicasts the
-- controller's data and takes stale nodes off the list, round by round.
use deamon.Common.{ℕ, ◌^◌, ◌<◌, ◌≡◌, refl, ◌∙◌, Option, none, some, List, [], ◌∷◌, replicate, arith}
use deamon.Common.Int.{ℤ, pos, minus_one}
use deamon.Common.Outcome.{Outcome, ok, ◌>>=◌}
use deamon.Host.{Endian, little, big, htons}
use deamon.Buf.{Malloc, Sockaddr}
use deamon.Buf.Alloc.{IsGranted}
use deamon.Protocol.{SkrumMsg, Body, controller_info, to, mcast_controller_info, skrum_msg_t_init}
use deamon.Protocol.Wire.{IsMsg, IsSafeTime}
use deamon.Nodes.{ListLib}
use deamon.Os.{Os}
use deamon.Connect.{af_inet}
use deamon.Discovery.{skrum_send_discovery_msg}
use deamon.Discovery.Datagram.{send_discovery_datagram}
use deamon.Controller.{Cluster, update_node_list}
use deamon.Controller.Registry.{Cell, IsRegistry, alive}
use deamon.Controller.Expiry.{update_node_list-alive}

-- The port that the multicast says, whatever port the controller listens on.
abbrev pub announced_port : ℕ
announced_port = 3434

-- `found` is the address of the interface, if ioctl gives one; `junk` is what `ifr` holds.
unfoldable pub setup_controller_addr : Endian → Option ℕ → ℕ → ℕ → ℤ × Sockaddr
setup_controller_addr e found junk port = (
  elim found [ none ↦ minus_one | some a ↦ pos 0 ],
  record {
    sin_family = af_inet;
    sin_port = htons e port;
    s_addr = elim found [ none ↦ junk | some a ↦ a ];
    sin_zero = replicate 8 0;
  },
)

abbrev pub info_body : ℕ → Body
info_body ts = controller_info (record { ctrlr_port = announced_port; ctrlr_startup_ts = ts })

-- The message that `_discovery_engine` builds once; a failure of the address is not looked at.
unfoldable pub discovery_msg : Endian → Option ℕ → ℕ → ℕ → ℕ → SkrumMsg
unfolding setup_controller_addr
discovery_msg e found junk port ts = record skrum_msg_t_init {
  msg_type = mcast_controller_info;
  orig_addr = (setup_controller_addr e found junk port).1;
  data_ptr = to (info_body ts);
}

-- The loop: one round for each time at which `_update_node_list` looks at the clock, until the
-- flag of the signal handler is set. A failure to send is only logged.
unfoldable pub discovery_engine :
    (lib : ListLib) (os : Os)
    → Endian
    → Malloc
    → SkrumMsg
    → List ℕ
    → Cluster lib
    → os.World
    → Outcome (Cluster lib × os.World)
discovery_engine lib os e ma msg [] s w = ok (s, w)
discovery_engine lib os e ma msg (now ∷ times) s w = skrum_send_discovery_msg os e ma msg w >>= λ r.
    update_node_list lib now s >>= λ s'. discovery_engine lib os e ma msg times s' r.1

-- The nodes that have been heard of in time at each of the times.
abbrev pub alive_through : List ℕ → List Cell → List Cell
alive_through [] cs = cs
alive_through (now ∷ times) cs = alive_through times (alive now cs)

htons-lt : (e : Endian) (v : ℕ) → v < 2 ^ 16 → htons e v < 2 ^ 16
htons-lt little v h = omega (arith, h)
htons-lt big v h = omega (arith, h)

addr_lt :
    (found : Option ℕ) (junk : ℕ)
    → junk < 2 ^ 32
    → ((a : ℕ) → found ≡ some a → a < 2 ^ 32)
    → elim found [ none ↦ junk | some a ↦ a ] < 2 ^ 32
addr_lt none junk h g = h
addr_lt (some a) junk h g = g a refl

-- The message of the controller is well formed, if its start time is one that the 64-bit conversions
-- keep and its address and port are in the range of their types.
pub discovery_msg-IsMsg :
    (e : Endian) (found : Option ℕ) (junk port ts : ℕ)
    → junk < 2 ^ 32
    → ((a : ℕ) → found ≡ some a → a < 2 ^ 32)
    → port < 2 ^ 16
    → IsSafeTime ts
    → IsMsg (discovery_msg e found junk port ts) (info_body ts)
unfolding discovery_msg
discovery_msg-IsMsg e found junk port ts hj hf hp safe = record {
  points = refl;
  typed = refl;
  addr = record {
    family = omega arith;
    port = htons-lt e port hp;
    addr = addr_lt found junk hj hf;
    zero_size = refl;
  };
  range = (omega arith, safe);
  size = omega arith;
}

-- With a well-formed message and memory granted `_discovery_engine` goes through all its rounds,
-- whatever happens to its datagrams: the list stands for the nodes that were not stale in any of
-- them, and no descriptor is left open.
pub discovery_engine-alive :
    (lib : ListLib) (os : Os) (e : Endian) (ma : Malloc) (msg : SkrumMsg) (body : Body)
    → (times : List ℕ) (s : Cluster lib) (w : os.World) (cs : List Cell) → IsGranted ma
    → IsMsg msg body
    → IsRegistry lib s cs
    → (s' : Cluster lib) × (w' : os.World) × (discovery_engine lib os e ma msg times s w
        ≡ ok (s', w'))
      × IsRegistry lib s' (alive_through times cs)
      × (os.open_fds w' ≡ os.open_fds w)
unfolding discovery_engine
discovery_engine-alive lib os e ma msg body [] s w cs g wf r = (s, w, refl, r, refl)
discovery_engine-alive lib os e ma msg body (now ∷ times) s w cs g wf r =
    let (rc, w1, sent, held, _) = send_discovery_datagram os e ma msg body w g wf in
    let (s1, updated, r1, _, _) = update_node_list-alive lib now s cs r in
    let (s', w', rest, r', held') =
      discovery_engine-alive lib os e ma msg body times s1 w1 (alive now cs) g wf r1 in
    (s', w', rw (sent, updated) rest, r', held' ∙ held)
