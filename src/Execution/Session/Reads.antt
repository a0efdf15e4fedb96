-- ===== src/Execution/Session/Reads.antt =====
-- crates/execution/src/session_binding.rs: reading a binding or a turn changes nothing.
use fleetd.Base.{ℕ, String, Bool}
use fleetd.Db.Keeps.{Relation, Keeps, keeping}
use fleetd.Model.{BindingState, AcquireSessionBinding}
use fleetd.Kernel.Delivery.{ensure_agent}
use fleetd.Execution.Session.{Binding}
use fleetd.Execution.Session.Acquire.{validate_acquisition, next_number, acquisition_for_owned}
use fleetd.Execution.Session.Rows.{
  SessionBinding, exact_binding_row, binding_by_identity, current_binding_row, latest_binding_row,
  bound_turn_row, validate_current_turn, validate_bound_turn,
}

module _ {r : Relation} where
  pub exact_reads :
      (agent_id : String) (binding : Binding) → Keeps r (exact_binding_row agent_id binding)
  unfolding exact_binding_row
  exact_reads agent_id binding = search (keeping)

  pub identity_reads :
      (agent_id : String) (binding : Binding) → Keeps r (binding_by_identity agent_id binding)
  unfolding binding_by_identity
  identity_reads agent_id binding = search (keeping, exact_reads)

  pub current_reads :
      (agent_id lane_policy lane_key : String)
      → Keeps r (current_binding_row agent_id lane_policy lane_key)
  unfolding current_binding_row
  current_reads agent_id lane_policy lane_key = search (keeping)

  pub latest_reads :
      (agent_id lane_policy lane_key : String)
      → Keeps r (latest_binding_row agent_id lane_policy lane_key)
  unfolding latest_binding_row
  latest_reads agent_id lane_policy lane_key = search (keeping)

  pub turn_reads : (invocation_id : String) → Keeps r (bound_turn_row invocation_id)
  unfolding bound_turn_row
  turn_reads invocation_id = search (keeping)

  current_turn_reads :
      (agent_id invocation_id : String) (binding : Binding)
      → Keeps r (validate_current_turn agent_id invocation_id binding)
  unfolding validate_current_turn
  current_turn_reads agent_id invocation_id binding = search (keeping, exact_reads)

  pub bound_turn_reads :
      (agent_id invocation_id : String) (binding : Binding) (replay : Bool)
      → Keeps r (validate_bound_turn agent_id invocation_id binding replay)
  unfolding validate_bound_turn
  bound_turn_reads agent_id invocation_id binding replay =
      search (keeping, turn_reads, current_turn_reads)

-- What an acquisition reads.
module _ {r : Relation} where
  pub agent_reads : (agent_id : String) → Keeps r (ensure_agent agent_id)
  unfolding ensure_agent
  agent_reads agent_id = search (keeping)

  pub acquisition_reads :
      (agent_id : String) (input : AcquireSessionBinding)
      → Keeps r (validate_acquisition agent_id input)
  unfolding validate_acquisition
  acquisition_reads agent_id input = search (keeping) depth 11

  pub number_reads : (label : String) (value : ℕ) → Keeps r (next_number label value)
  unfolding next_number
  number_reads label value = search (keeping)

  pub owned_reads :
      (state : BindingState) (existing : SessionBinding)
      → Keeps r (acquisition_for_owned state existing)
  unfolding acquisition_for_owned
  owned_reads BindingState.opening existing = search (keeping)
  owned_reads BindingState.ready existing = search (keeping)
  owned_reads BindingState.active existing = search (keeping)
  owned_reads BindingState.uncertain existing = search (keeping)
  owned_reads BindingState.retired existing = search (keeping)

pub ruleset reading =
    (exact_reads, identity_reads, current_reads, latest_reads, turn_reads, bound_turn_reads)
