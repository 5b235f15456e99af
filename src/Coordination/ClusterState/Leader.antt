-- ===== src/Coordination/ClusterState/Leader.antt =====
-- cluster_state.py: `set_leader`, `get_leader` and `mark_dead` together.
use mathlib.Core.Option
use g_io_t_edge_gateway.Prelude.{String, [], arith, nat_eq, none, refl, string_eq, ◌∷◌, ◌≡◌}
use g_io_t_edge_gateway.Dict.{Dict, lookup, modify, values}
use g_io_t_edge_gateway.Coordination.ClusterState.{
  ClusterNode, ClusterState, first_leader, flag_leader, get_leader, get_node, mark_dead, set_dead,
  set_leader,
}
use g_io_t_edge_gateway.Coordination.ClusterState.Nodes.{Indexed, flagged, lookup-flag_leader}

first-flag_leader :
    (id : String) (m : Dict String ClusterNode)
    → Indexed m
    → first_leader (values (flag_leader id m)) ≡ Option.map (flagged id) (lookup id m)
unfolding first_leader flag_leader lookup
first-flag_leader id [] h = refl
first-flag_leader id ((k, n) ∷ m) h =
    ground
      (arith, first-flag_leader id m h.2, string_eq.beq_iff k id, string_eq.beq_iff n.node_id id)

-- After `set_leader id` the leader that `get_leader` finds is the node `id`, with its flag set, and
-- no node at all when `id` is unknown: every earlier leader has lost its flag.
pub get_leader-set_leader :
    (s : ClusterState) (id : String)
    → Indexed s.nodes
    → get_leader (set_leader s id) ≡ Option.map (flagged id) (get_node s id)
unfolding get_leader set_leader get_node
get_leader-set_leader s id h = first-flag_leader id s.nodes h

first-dead :
    (id : String) (m : Dict String ClusterNode)
    → Indexed m
    → first_leader (values (modify id set_dead (flag_leader id m))) ≡ none
unfolding first_leader flag_leader modify
first-dead id [] h = refl
first-dead id ((k, n) ∷ m) h = ground (
  arith,
  first-dead id m h.2,
  first-flag_leader id m h.2,
  string_eq.beq_iff k id,
  string_eq.beq_iff n.node_id id,
)

-- A leader that is marked dead leaves the cluster without a leader.
pub get_leader-mark_dead :
    (s : ClusterState) (id : String)
    → Indexed s.nodes
    → get_leader (mark_dead (set_leader s id) id) ≡ none
unfolding get_leader set_leader mark_dead
get_leader-mark_dead s id h = ground (
  arith,
  first-dead id s.nodes h,
  first-flag_leader id s.nodes h,
  lookup-flag_leader id id s.nodes,
)
