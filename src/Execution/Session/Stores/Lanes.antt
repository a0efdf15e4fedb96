-- ===== src/Execution/Session/Stores/Lanes.antt =====
-- crates/execution/src/session_binding.rs: acquiring, opening and retiring a session keep what
-- their statements keep.
use fleetd.Base.{ℕ, ◌+◌, ◌≡◌, String, arith}
use fleetd.Model.{BindingState, AcquireSessionBinding}
use fleetd.Db.{BindingRow}
use fleetd.Db.Keeps.{
  Relation, Keeps, Returns, keeping, bind, bind_result, option, lifts, guards, expects, pures,
}
use fleetd.Execution.Session.{Binding}
use fleetd.Execution.Session.Rows.{SessionBinding}
use fleetd.Execution.Session.Reads.{
  reading, agent_reads, acquisition_reads, current_reads, latest_reads, identity_reads,
  number_reads, owned_reads,
}
use fleetd.Execution.Session.Acquire.{
  acquire_session_binding, insert_after_latest_retired, acquire_existing, take_over, rotate_binding,
  adopt_binding, insert_binding, next_number,
}
use fleetd.Execution.Session.Open.{record_session_opened, open_as}
use fleetd.Execution.Session.Retire.{retire_session_binding, retire_as}
use fleetd.Execution.Session.Stores.{Stores}

next_value : (label : String) (value n : ℕ) → Returns (next_number label value) n → n ≡ value + 1
unfolding next_number
next_value label value n h = let e = h.returned in ground arith

module _ {r : Relation} (st : Stores r) where
  adopts :
      (existing : SessionBinding) (owner : String) (now : ℕ)
      → Keeps r (adopt_binding existing owner now)
  unfolding adopt_binding
  adopts existing owner now = bind (lifts _) λ _.
      bind_result (number_reads "owner epoch" existing.binding.owner_epoch) λ owner_epoch next.
        bind (lifts _) λ _.
          bind (st.adopted existing owner_epoch owner now (next_value _ _ _ next)) λ rows.
            bind (guards _ _)
              λ _. bind (identity_reads _ _) λ session. bind (expects _ _) λ _. pures _

  module _ (agent_id : String) (input : AcquireSessionBinding) (now : ℕ) where
    inserts :
        (binding_id : String) (generation : ℕ)
        → Keeps r (insert_binding binding_id generation agent_id input now)
    unfolding insert_binding
    inserts binding_id generation = search (keeping, reading, st.inserted)

    latest_inserts : (id : String) → Keeps r (insert_after_latest_retired id agent_id input now)
    unfolding insert_after_latest_retired
    latest_inserts id =
        bind (latest_reads agent_id input.lane_policy input.lane_key)
          λ latest. option latest (inserts id 1) λ s. search (keeping, number_reads, inserts)

    rotates :
        (existing : SessionBinding) (reason : String)
        → Keeps r (rotate_binding existing agent_id input now reason)
    unfolding rotate_binding
    rotates existing reason = search (keeping, number_reads, st.rotated, inserts) depth 9

    takes_over :
        (state : BindingState) (existing : SessionBinding)
        → Keeps r (take_over state existing agent_id input now)
    unfolding take_over
    takes_over BindingState.opening existing = search (rotates)
    takes_over BindingState.ready existing = search (keeping, rotates, adopts)
    takes_over BindingState.active existing = search (keeping)
    takes_over BindingState.uncertain existing = search (keeping)
    takes_over BindingState.retired existing = search (keeping)

    existing_keeps : (row : BindingRow) → Keeps r (acquire_existing row agent_id input now)
    unfolding acquire_existing
    existing_keeps row = search (keeping, owned_reads, takes_over)

    pub acquire_keeps : (id : String) → Keeps r (acquire_session_binding id agent_id input now)
    unfolding acquire_session_binding
    acquire_keeps id = bind (acquisition_reads agent_id input) λ _. bind (agent_reads agent_id) λ _.
        bind (current_reads agent_id input.lane_policy input.lane_key)
          λ current. option current (latest_inserts id) existing_keeps

  module _ (agent_id : String) (binding : Binding) (now : ℕ) where
    opens :
        (state : BindingState) (row : BindingRow) (session_ref : String)
        → Keeps r (open_as state row agent_id binding session_ref now)
    unfolding open_as
    opens BindingState.opening row session_ref = search (keeping, st.opened)
    opens BindingState.ready row session_ref = search (keeping)
    opens BindingState.active row session_ref = search (keeping)
    opens BindingState.uncertain row session_ref = search (keeping)
    opens BindingState.retired row session_ref = search (keeping)

    pub open_keeps :
        (session_ref : String) → Keeps r (record_session_opened agent_id binding session_ref now)
    unfolding record_session_opened
    open_keeps session_ref = search (keeping, reading, opens) depth 9

    retires :
        (state : BindingState) (row : BindingRow) (reason : String)
        → Keeps r (retire_as state row agent_id binding reason now)
    unfolding retire_as
    retires BindingState.opening row reason = search (keeping, st.retired)
    retires BindingState.ready row reason = search (keeping, st.retired)
    retires BindingState.active row reason = search (keeping)
    retires BindingState.uncertain row reason = search (keeping, st.retired)
    retires BindingState.retired row reason = search (keeping)

    pub retire_keeps :
        (reason : String) → Keeps r (retire_session_binding agent_id binding reason now)
    unfolding retire_session_binding
    retire_keeps reason = search (keeping, reading, retires) depth 9
