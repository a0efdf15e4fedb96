-- ===== src/Execution/Fence/Complete/Transaction.antt =====
-- crates/execution/src/invocation.rs: the invocation fence under a
-- whole completion.
use fleetd.Base.{
  ℕ, Bool, true, false, ◌&&◌, ◌≡◌, refl, some, String, arith, str_eq, subst, sym, ◌∙◌,
  if◌then◌else◌,
}
use fleetd.Error.{ok}
use fleetd.Table.{find}
use fleetd.Model.{CompleteInvocation, CreateMessage, InvocationState}
use fleetd.Db.{Db}
use fleetd.Db.Tx.{bind_ok, pure}
use fleetd.Execution.Session.Turn.{ensure_invocation_not_active_on_session}
use fleetd.Execution.Invocation.{
  by_id, Fenced, invocation_with_delivery, validate_static_fence, invocation_by_id,
}
use fleetd.Execution.Invocation.Complete.{
  InvocationCompletion, validate_completion, publish_result, complete_as, completed_replay,
  complete_invocation_transaction, result_input, message_by_seq,
}
use fleetd.Execution.Fence.{IsFenced}
use fleetd.Execution.Fence.Complete.{publish-IsFenced}

module _ (agent_id invocation_id token : String) (now : ℕ) where
  -- What the lookup of a completion returns is the attempt of that id.
  pub fenced_row-effect :
      (db after : Db) (row : Fenced)
      → invocation_with_delivery agent_id invocation_id db ≡ ok (row, after)
      → (after ≡ db)
        × (find (λ i. by_id invocation_id i && str_eq i.agent_id agent_id) db.invocations
            ≡ some row.invocation)
  unfolding invocation_with_delivery
  fenced_row-effect db after row h = ground arith

  replay-same :
      (row : Fenced) (expected : CreateMessage) (db after : Db) (result : InvocationCompletion)
      → completed_replay invocation_id row expected db ≡ ok (result, after)
      → after ≡ db
  unfolding completed_replay message_by_seq invocation_by_id
  replay-same row expected db after result h = ground arith

  complete_as-IsFenced :
      (id : String) (created_at : ℕ) (row : Fenced) (expected : CreateMessage) (db after : Db)
      (result : InvocationCompletion × Bool) (state : InvocationState)
      → IsFenced db
      → find (λ i. by_id invocation_id i && str_eq i.agent_id agent_id) db.invocations
        ≡ some row.invocation
      → row.invocation.state ≡ state
      → complete_as state id created_at agent_id invocation_id row expected token now db
        ≡ ok (result, after)
      → IsFenced after
  unfolding complete_as
  complete_as-IsFenced id created_at row expected db after result InvocationState.reserved v at e
        h =
      absurd (ground arith)
  complete_as-IsFenced id created_at row expected db after result InvocationState.terminal v at e
        h =
      bind_ok (completed_replay invocation_id row expected) _ db h λ completion db1 e1 k1.
        let end : after ≡ db1 = ground arith in
        subst IsFenced (sym (end ∙ replay-same row expected db db1 completion e1)) v
  complete_as-IsFenced id created_at row expected db after result InvocationState.dispatch_armed v
        at e h =
      bind_ok (publish_result id created_at agent_id invocation_id row expected token now) _ db h
        λ completion db1 e1 k1.
          let end : db1 ≡ after = ground arith in
          subst IsFenced end (
            publish-IsFenced agent_id invocation_id token now id created_at row expected db db1
              completion v at (rw e refl) e1)

module _ (id : String) (created_at : ℕ) (agent_id invocation_id : String) (now : ℕ) where
  pub completion_checks-same :
      (input : CompleteInvocation) (db after : Db)
      → validate_completion invocation_id input db ≡ ok (tt, after)
      → after ≡ db
  unfolding validate_completion
  completion_checks-same input db after h = ground arith

  pub session_check-same :
      (allow_active : Bool) (db after : Db)
      → (if allow_active then pure tt else ensure_invocation_not_active_on_session invocation_id) db
        ≡ ok (tt, after)
      → after ≡ db
  unfolding ensure_invocation_not_active_on_session
  session_check-same true db after h = ground arith
  session_check-same false db after h = ground arith

  pub static-same :
      (row : Fenced) (input : CompleteInvocation) (db after : Db)
      → validate_static_fence row.invocation input.lease_token input.fence_token db ≡ ok (tt, after)
      → after ≡ db
  unfolding validate_static_fence
  static-same row input db after h = ground arith

  -- A completion that commits, new or replayed, keeps the invocation fence.
  pub complete-IsFenced :
      (input : CompleteInvocation) (allow_active : Bool) (db after : Db)
      (result : InvocationCompletion × Bool)
      → IsFenced db
      → complete_invocation_transaction id created_at agent_id invocation_id input now allow_active
          db
        ≡ ok (result, after)
      → IsFenced after
  unfolding complete_invocation_transaction
  complete-IsFenced input allow_active db after result v h =
      bind_ok (validate_completion invocation_id input) _ db h λ u0 db0 e0 k0.
        bind_ok
          (if allow_active then pure tt else ensure_invocation_not_active_on_session invocation_id)
          _ db0 k0
          λ u1 db1 e1 k1.
            bind_ok (invocation_with_delivery agent_id invocation_id) _ db1 k1 λ row db2 e2 k2.
              bind_ok (validate_static_fence row.invocation input.lease_token input.fence_token) _
                db2 k2
                λ u3 db3 e3 k3.
                  let start : db1 ≡ db =
                    session_check-same allow_active db0 db1 e1
                    ∙ completion_checks-same input db db0 e0 in
                  let (same, at) =
                    fenced_row-effect agent_id invocation_id input.lease_token now db1 db2 row e2 in
                  let end : db3 ≡ db = static-same row input db2 db3 e3 ∙ same ∙ start in
                  complete_as-IsFenced agent_id invocation_id input.lease_token now id created_at
                    row (result_input agent_id invocation_id row input) db3 after result
                    row.invocation.state (subst IsFenced (sym end) v) (rw (end ∙ sym start) at) refl
                    k3
