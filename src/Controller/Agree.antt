-- ===== src/Controller/Agree.antt =====
-- A registration and the pongs that follow it.
use deamon.Common.{
  ==_refl, ℕ, ◌+◌, ◌%◌, ◌^◌, ◌≡◌, ◌∙◌, true, List, [], ◌∷◌, ◌++◌, ◌==◌, Bool-cases, inl, inr,
}
use deamon.Common.Int.{pos}
use deamon.Common.Outcome.{ok}
use deamon.Protocol.{SkrumMsg, to, deamon_pong, RequestRegisterMsg}
use deamon.Nodes.{ListLib}
use deamon.Controller.{Cluster, register_cluster_node, resp_pong}
use deamon.Controller.Registry.{Cell, IsRegistry, touch, has_id}
use deamon.Controller.Register.{new_node, register_cluster_node-IsRegistry}
use deamon.Controller.Pong.{resp_pong-touch}

has_id-snoc :
    (fresh now : ℕ) (req : RequestRegisterMsg) (cnt : ℕ) (cs : List Cell)
    → has_id ((cnt + 1) % 2 ^ 16) (cs ++ ((fresh, new_node now req cnt) ∷ [])) ≡ true
unfolding has_id
has_id-snoc fresh now req cnt [] = rw (==_refl ((cnt + 1) % 2 ^ 16))
has_id-snoc fresh now req cnt (c ∷ cs) =
    elim (Bool-cases (c.1.cluster_node_id == (cnt + 1) % 2 ^ 16)) [
      | inl here ↦ rw here
      | inr away ↦ rw away (has_id-snoc fresh now req cnt cs)
    ]

-- A node that pongs with the id that its registration was answered with is known to the
-- controller: the handler returns 0 and the first node with that id is refreshed.
pub resp_pong-register :
    (lib : ListLib) (now later : ℕ) (req : RequestRegisterMsg) (msg : SkrumMsg) (s : Cluster lib)
    → (cs : List Cell)
    → msg.data_ptr ≡ to (deamon_pong (record { my_id = (register_cluster_node lib now req s).0 }))
    → IsRegistry lib s cs
    → (s' : Cluster lib) × (resp_pong lib later msg (register_cluster_node lib now req s).1
        ≡ ok (pos 0, s'))
      × IsRegistry lib s' (
          touch later
            ((s.node_cnt + 1) % 2 ^ 16)
            (cs ++ ((s.fresh, new_node now req s.node_cnt) ∷ [])))
unfolding register_cluster_node
resp_pong-register lib now later req msg s cs p r =
    let (_, r', _) = register_cluster_node-IsRegistry lib now req s cs r in
    let (s', run, g, _) =
      resp_pong-touch lib later msg (record { my_id = (s.node_cnt + 1) % 2 ^ 16 })
        (register_cluster_node lib now req s).1 _ p r' in
    (s', run ∙ rw (has_id-snoc s.fresh now req s.node_cnt cs), g)
