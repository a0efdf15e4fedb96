-- ===== src/Execution/Session/Bound/Finish.antt =====
-- crates/execution/src/session_binding.rs: the statements that end a turn.
use fleetd.Base.{ℕ, ◌≡◌, ◌≢◌, refl, true, String, arith}
use fleetd.Error.{ok}
use fleetd.Table.{update, count}
use fleetd.Model.{SessionPersistence}
use fleetd.Db.{Db, BindingRow}
use fleetd.Db.Statements.{update_bindings, update_turns}
use fleetd.Db.Keeps.{Keeps}
use fleetd.Execution.Session.{Binding}
use fleetd.Execution.Session.Turn.{
  active_turn, running_binding, mark_turn_uncertain, set_turn_uncertain, set_binding_uncertain,
}
use fleetd.Execution.Session.Dispatch.{finish_turn, set_turn_quiescent, set_binding_ready}
use fleetd.Execution.Session.Bound.{is_well_formed, binding}
use fleetd.Execution.Session.Bound.Ends.{ended-IsBound}

module _ (agent_id invocation_id : String) (owner : Binding) (now : ℕ) where
  finish-effect :
      (persistence : SessionPersistence) (db after : Db)
      → finish_turn agent_id invocation_id owner persistence now db ≡ ok (tt, after)
      → (count (running_binding agent_id owner invocation_id) db.bindings ≢ 0)
        × (after.bindings
            ≡ update
                (running_binding agent_id owner invocation_id)
                (set_binding_ready invocation_id persistence now)
                db.bindings)
        × (after.turns
            ≡ update (active_turn invocation_id) (set_turn_quiescent persistence now) db.turns)
  unfolding finish_turn update_bindings update_turns
  finish-effect persistence db after e = ground arith

  mark-effect :
      (reason : String) (db after : Db)
      → mark_turn_uncertain agent_id invocation_id owner reason now db ≡ ok (tt, after)
      → (count (running_binding agent_id owner invocation_id) db.bindings ≢ 0)
        × (after.bindings
            ≡ update
                (running_binding agent_id owner invocation_id)
                (set_binding_uncertain reason now)
                db.bindings)
        × (after.turns
            ≡ update (active_turn invocation_id) (set_turn_uncertain reason now) db.turns)
  unfolding mark_turn_uncertain update_bindings update_turns
  mark-effect reason db after e = ground arith

  ready-formed :
      (persistence : SessionPersistence) (s : BindingRow)
      → is_well_formed s ≡ true
      → running_binding agent_id owner invocation_id s ≡ true
      → is_well_formed (set_binding_ready invocation_id persistence now s) ≡ true
  unfolding is_well_formed set_binding_ready
  ready-formed persistence s k e = ground arith

  uncertain-formed :
      (reason : String) (s : BindingRow)
      → is_well_formed s ≡ true
      → running_binding agent_id owner invocation_id s ≡ true
      → is_well_formed (set_binding_uncertain reason now s) ≡ true
  unfolding is_well_formed set_binding_uncertain
  uncertain-formed reason s k e = ground arith

  pub finish_binds :
      (persistence : SessionPersistence)
      → Keeps binding (finish_turn agent_id invocation_id owner persistence now)
  unfolding set_turn_quiescent set_binding_ready
  finish_binds persistence = record {
    kept = λ db after u e v.
        let (found, bs, ts) = finish-effect persistence db after e in
        rw (bs, ts)
          (ended-IsBound agent_id invocation_id owner _ _ (λ _. refl) (λ _. refl) (λ _. refl)
            (λ _. refl) (λ _. refl) (ready-formed persistence) db.bindings db.turns v found);
  }

  pub mark_binds :
      (reason : String)
      → Keeps binding (mark_turn_uncertain agent_id invocation_id owner reason now)
  unfolding set_turn_uncertain set_binding_uncertain
  mark_binds reason = record {
    kept = λ db after u e v.
        let (found, bs, ts) = mark-effect reason db after e in
        rw (bs, ts)
          (ended-IsBound agent_id invocation_id owner _ _ (λ _. refl) (λ _. refl) (λ _. refl)
            (λ _. refl) (λ _. refl) (uncertain-formed reason) db.bindings db.turns v found);
  }
