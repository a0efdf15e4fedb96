-- ===== src/Execution/Observation/Seats.antt =====
-- crates/execution/src/operations.rs: the state of an agent's seat, and the evidence for it.
use fleetd.Base.{◌≡◌, ◌↔◌, arith, Bool, true, false, Option, none, some, if◌then◌else◌}
use fleetd.Model.{BindingState, InvocationState}
use fleetd.Execution.Observation.Generations.{GenerationHealth}

pub data AgentSeatState : Type 0 where
  unmanaged idle working interrupted recovery_required offline : AgentSeatState

pub data AgentSeatReason : Type 0 where
  no_worker_observed ready ready_session opening_session reserved_invocation active_invocation :
      AgentSeatReason
  reserved_generation_unavailable armed_generation_unavailable armed_lease_expired : AgentSeatReason
  uncertain_session session_without_worker generation_stale generation_stopped : AgentSeatReason

abbrev pub is_working : Option GenerationHealth → Bool
is_working (some GenerationHealth.active) = true
is_working _ = false

-- An active generation's seat, by its session.
abbrev pub idle_state : Option BindingState → AgentSeatState × AgentSeatReason
idle_state (some BindingState.opening) = (working, opening_session)
idle_state (some BindingState.active) = (idle, ready_session)
idle_state _ = (idle, ready)

abbrev pub is_live_session : Option BindingState → Bool
is_live_session none = false
is_live_session (some BindingState.retired) = false
is_live_session _ = true

-- The last arm: no open invocation.
abbrev pub quiet_state :
    Option BindingState → Option GenerationHealth → AgentSeatState × AgentSeatReason
quiet_state session (some GenerationHealth.active) = idle_state session
quiet_state session (some GenerationHealth.stale) = (offline, generation_stale)
quiet_state session (some GenerationHealth.stopped) = (offline, generation_stopped)
quiet_state session none =
    if is_live_session session
    then (interrupted, session_without_worker)
    else (unmanaged, no_worker_observed)

unfoldable pub seat_state :
    Option BindingState
    → Option InvocationState
    → Option GenerationHealth
    → Bool
    → AgentSeatState × AgentSeatReason
seat_state (some BindingState.uncertain) invocation health expired =
    (recovery_required, uncertain_session)
seat_state session (some InvocationState.dispatch_armed) health true =
    (interrupted, armed_lease_expired)
seat_state session (some InvocationState.dispatch_armed) health false =
    if is_working health
    then (working, active_invocation)
    else (interrupted, armed_generation_unavailable)
seat_state session (some InvocationState.reserved) health expired =
    if is_working health
    then (working, reserved_invocation)
    else (interrupted, reserved_generation_unavailable)
seat_state session _ health expired = quiet_state session health

abbrev pub is_open_invocation : Option InvocationState → Bool
is_open_invocation (some InvocationState.reserved) = true
is_open_invocation (some InvocationState.dispatch_armed) = true
is_open_invocation _ = false

abbrev pub is_uncertain_session : Option BindingState → Bool
is_uncertain_session (some BindingState.uncertain) = true
is_uncertain_session _ = false

-- A seat requires recovery exactly when its session is uncertain; it is working only under an
-- active generation; it is idle only under an active generation, with no open invocation and no
-- uncertain session; and it is offline only without an active generation and without an open
-- invocation.
pub seat_state-trusted :
    (session : Option BindingState) (invocation : Option InvocationState)
    (health : Option GenerationHealth) (expired : Bool)
    → (((seat_state session invocation health expired).0 ≡ recovery_required)
        ↔ (is_uncertain_session session ≡ true))
      × ((seat_state session invocation health expired).0 ≡ working → is_working health ≡ true)
      × ((seat_state session invocation health expired).0 ≡ idle
          → (is_working health ≡ true)
            × (is_open_invocation invocation ≡ false)
            × (is_uncertain_session session ≡ false))
      × ((seat_state session invocation health expired).0 ≡ offline
          → (is_working health ≡ false) × (is_open_invocation invocation ≡ false))
unfolding seat_state
seat_state-trusted session invocation health expired = (
  (λ h. ground arith, λ h. ground arith),
  λ h. ground arith,
  λ h. (ground arith, ground arith, ground arith),
  λ h. (ground arith, ground arith),
)
