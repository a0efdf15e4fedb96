-- ===== src/Execution/Fence/Complete/Publish.antt =====
-- crates/execution/src/invocation.rs: what a new completion writes.
use fleetd.Base.{
  str_eq_iff, ℕ, ◌+◌, Bool, true, ◌≡◌, some, String, [], ◌∷◌, ◌++◌, arith, ◌∙◌, sym, subst,
  if◌then◌else◌,
}
use fleetd.Error.{ok}
use fleetd.Table.{update, find}
use fleetd.Model.{CompleteInvocation, CreateMessage, InvocationState}
use fleetd.Table.Laws.{find-holds}
use fleetd.Db.{Db, InvocationRow, message_from_row, delivery_key}
use fleetd.Execution.Answers.{is_live, acknowledged_row}
use fleetd.Execution.Fence.Arm.Outcome.{is_own, read-effect}
use fleetd.Db.Tx.{bind_ok, pure}
use fleetd.Kernel.Message.{message_row}
use fleetd.Execution.Session.Turn.{is_armed, ensure_invocation_not_active_on_session}
use fleetd.Execution.Invocation.{
  Fenced, invocation_with_delivery, validate_static_fence, invocation_by_id,
}
use fleetd.Execution.Invocation.Complete.{
  InvocationCompletion, validate_completion, armed_row, set_completed, publish_result, complete_as,
  complete_invocation_transaction, result_input,
}
use fleetd.Execution.Fence.{IsFenced}
use fleetd.Execution.Fence.Complete.Transaction.{
  completion_checks-same, session_check-same, static-same,
}
use fleetd.Execution.Fence.Complete.Effects.{publish-effect}

-- What a new completion writes, by the rows that the code has read.
pub record Writes (id : String) (created_at : ℕ) (agent_id invocation_id : String)
    (input : CompleteInvocation) (now : ℕ) (db after : Db) (completion : InvocationCompletion)
    : Type 0 where
  pub row : Fenced
  pub read : invocation_with_delivery agent_id invocation_id db ≡ ok (row, db)
  pub lease : row.invocation.lease_token ≡ input.lease_token
  pub fence : row.invocation.fence_token ≡ input.fence_token
  pub armed : is_armed row.invocation.state ≡ true
  pub live : is_live input.lease_token now row.delivery ≡ true
  pub result :
      completion.result
      ≡ message_from_row (
          message_row
            (db.last_message_seq + 1)
            id
            created_at
            row.input.channel_id
            (result_input agent_id invocation_id row input))
  pub messages :
      after.messages
      ≡ db.messages
        ++ message_row
            (db.last_message_seq + 1)
            id
            created_at
            row.input.channel_id
            (result_input agent_id invocation_id row input)
          ∷ []
  pub invocations :
      after.invocations
      ≡ update
          (armed_row agent_id invocation_id)
          (set_completed now completion.result.seq)
          db.invocations
  pub delivery :
      find (delivery_key row.invocation.message_seq row.invocation.agent_id) after.deliveries
      ≡ some (acknowledged_row input.lease_token now row.delivery)
  -- What is returned is read after the end.
  pub reread : invocation_by_id invocation_id after ≡ ok (completion.invocation, after)

module _ (id : String) (created_at : ℕ) (agent_id invocation_id : String) (now : ℕ) where
  static-effect :
      (own : InvocationRow) (input : CompleteInvocation) (db after : Db)
      → validate_static_fence own input.lease_token input.fence_token db ≡ ok (tt, after)
      → (own.lease_token ≡ input.lease_token) × (own.fence_token ≡ input.fence_token)
  unfolding validate_static_fence
  static-effect own input db after h = ground (
    arith,
    str_eq_iff own.lease_token input.lease_token,
    str_eq_iff own.fence_token input.fence_token,
  )

  completes-new :
      (row : Fenced) (expected : CreateMessage) (token : String) (state : InvocationState)
      (db after : Db) (completion : InvocationCompletion)
      → complete_as state id created_at agent_id invocation_id row expected token now db
        ≡ ok ((completion, true), after)
      → (is_armed state ≡ true)
        × (publish_result id created_at agent_id invocation_id row expected token now db
            ≡ ok (completion, after))
  unfolding complete_as
  completes-new row expected token state db after completion h = ground arith

  pub complete-Writes :
      (input : CompleteInvocation) (allow_active : Bool) (db after : Db)
      (completion : InvocationCompletion)
      → IsFenced db
      → complete_invocation_transaction id created_at agent_id invocation_id input now allow_active
          db
        ≡ ok ((completion, true), after)
      → Writes id created_at agent_id invocation_id input now db after completion
  unfolding complete_invocation_transaction
  complete-Writes input allow_active db after completion v h =
      bind_ok (validate_completion invocation_id input) _ db h λ u0 db0 e0 k0.
        bind_ok
          (if allow_active then pure tt else ensure_invocation_not_active_on_session invocation_id)
          _ db0 k0
          λ u1 db1 e1 k1.
            bind_ok (invocation_with_delivery agent_id invocation_id) _ db1 k1 λ row db2 e2 k2.
              bind_ok (validate_static_fence row.invocation input.lease_token input.fence_token) _
                db2 k2
                λ u3 db3 e3 k3.
                  let start : db1 ≡ db =
                    session_check-same id created_at agent_id invocation_id now allow_active db0 db1
                      e1
                    ∙ completion_checks-same id created_at agent_id invocation_id now input db db0
                        e0 in
                  let (same, own, at) =
                    read-effect agent_id invocation_id
                      (record { lease_token = input.lease_token; fence_token = input.fence_token })
                      now db1 db2 row e2 in
                  let on =
                    find-holds (is_own agent_id invocation_id) db1.invocations row.invocation own in
                  let (lease, fence) = static-effect row.invocation input db2 db3 e3 in
                  let end : db3 ≡ db =
                    static-same id created_at agent_id invocation_id now row input db2 db3 e3
                    ∙ same
                    ∙ start in
                  let (armed, published) =
                    completes-new row (result_input agent_id invocation_id row input)
                      input.lease_token row.invocation.state db3 after completion k3 in
                  let (live, reread, delivery, result, messages, invocations) =
                    publish-effect agent_id invocation_id input.lease_token now id created_at row
                      (result_input agent_id invocation_id row input) db3 after completion
                      (subst IsFenced (sym end) v) (ground (arith, on)) (rw (end ∙ sym start) at)
                      published in
                  record {
                    row = row;
                    read = ground (arith, e2, same, start);
                    lease = lease;
                    fence = fence;
                    armed = armed;
                    live = live;
                    delivery = delivery;
                    reread = reread;
                    result = ground (arith, result, end);
                    messages = ground (arith, messages, end);
                    invocations = ground (arith, invocations, end);
                  }
