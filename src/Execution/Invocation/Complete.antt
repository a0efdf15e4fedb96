-- ===== src/Execution/Invocation/Complete.antt =====
-- crates/execution/src/invocation.rs: publishing the result and acknowledging the input at once,
-- and the other ways in which an invocation becomes terminal with its delivery.
use fleetd.Base.{
  ℕ, Bool, true, false, ◌&&◌, not, none, some, String, [], ◌∷◌, ◌==◌, str_eq, holds_text,
  if◌then◌else◌, concat, decimal,
}
use fleetd.Error.{not_found, conflict, lease_conflict}
use fleetd.Table.{find, count}
use fleetd.Model.{InvocationState, ExecutionCertainty, CompleteInvocation, CreateMessage}
use fleetd.Db.{InvocationRow, Message, message_at, message_from_row}
use fleetd.Db.Statements.{update_invocations}
use fleetd.Db.Tx.{Tx, ◌>>=◌, ◌>>◌, pure, fail, fail_if, get, expect}
use fleetd.Kernel.Delivery.{acknowledge_leased_seq}
use fleetd.Kernel.Message.{insert_message, message_matches_input, has_key}
use fleetd.Execution.Session.Turn.{
  ensure_invocation_not_active_on_session, ensure_bound_turn_allows_delivery_settlement,
  open_under_lease, is_armed,
}
use fleetd.Execution.Invocation.{
  Invocation, Fenced, by_id, invocation_by_id, invocation_with_delivery, validate_static_fence,
  validate_live_lease, require_text,
}

pub record InvocationCompletion : Type 0 where
  pub invocation : Invocation
  pub result : Message

unfoldable pub validate_completion : String → CompleteInvocation → Tx (Unit {0})
validate_completion invocation_id input = do
  require_text "invocation ID" invocation_id
  require_text "lease token" input.lease_token
  require_text "fence token" input.fence_token
  require_text "result kind" input.kind

unfoldable pub result_key : String → String
result_key invocation_id = concat ("invocation/" ∷ invocation_id ∷ "/result" ∷ [])

-- The result goes back to the sender of the input, under the input's correlation.
unfoldable pub result_input : String → String → Fenced → CompleteInvocation → CreateMessage
result_input agent_id invocation_id row input = record {
  sender_id = agent_id;
  idempotency_key = some (result_key invocation_id);
  recipient_id = some row.input.sender_id;
  kind = input.kind;
  payload = input.payload;
  correlation_id = row.input.correlation_id;
  causation_id = some row.input.id;
}

unfoldable pub message_by_seq : ℕ → Tx Message
message_by_seq seq = do
  db ← get
  m ← expect (message_at db.messages seq) (not_found "message" (decimal seq))
  pure (message_from_row m)

unfoldable pub completed_replay : String → Fenced → CreateMessage → Tx InvocationCompletion
completed_replay invocation_id row expected = do
  seq ←
      expect row.invocation.result_message_seq
        (conflict "terminal invocation was not completed with a result")
  fail_if (not (holds_text row.invocation.terminal_reason "completed"))
      (conflict "terminal invocation was not completed with a result")
  result ← message_by_seq seq
  fail_if (not (message_matches_input result row.input.channel_id expected))
      (conflict "invocation was already completed with a different result")
  invocation ← invocation_by_id invocation_id
  pure (record { invocation = invocation; result = result })

unfoldable pub ensure_result_key_unused : String → String → Tx (Unit {0})
ensure_result_key_unused agent_id invocation_id = do
  db ← get
  fail_if (not (count (has_key agent_id (result_key invocation_id)) db.messages == 0))
      (conflict "invocation result key was already used outside completion")

unfoldable pub acknowledge_invocation_delivery : Fenced → String → String → ℕ → Tx (Unit {0})
acknowledge_invocation_delivery row agent_id lease_token now = do
  moved ← acknowledge_leased_seq agent_id row.invocation.message_seq lease_token now
  fail_if (not moved) (lease_conflict "invocation no longer owns its input delivery")

abbrev pub armed_row : String → String → InvocationRow → Bool
armed_row agent_id invocation_id i =
    by_id invocation_id i && str_eq i.agent_id agent_id && is_armed i.state

unfoldable pub set_completed : ℕ → ℕ → InvocationRow → InvocationRow
set_completed now result_seq i = record i {
  state = InvocationState.terminal;
  terminal_at_ms = some now;
  execution_certainty = some ExecutionCertainty.outcome_known;
  terminal_reason = some "completed";
  result_message_seq = some result_seq;
}

-- The rest of a completion that is no replay; `id` and `created_at` are the result message's.
unfoldable pub publish_result :
    String → ℕ → String → String → Fenced → CreateMessage → String → ℕ → Tx InvocationCompletion
publish_result id created_at agent_id invocation_id row expected lease_token now = do
  validate_live_lease row lease_token now
  ensure_result_key_unused agent_id invocation_id
  result ← insert_message id created_at row.input.channel_id expected
  acknowledge_invocation_delivery row agent_id lease_token now
  affected ← update_invocations (armed_row agent_id invocation_id) (set_completed now result.seq)
  fail_if (not (affected == 1)) (conflict "invocation changed during completion")
  invocation ← invocation_by_id invocation_id
  pure (record { invocation = invocation; result = result })

-- With whether the completion is new.
unfoldable pub complete_as :
    InvocationState
    → String
    → ℕ
    → String
    → String
    → Fenced
    → CreateMessage
    → String
    → ℕ
    → Tx (InvocationCompletion × Bool)
complete_as InvocationState.terminal id created_at agent_id invocation_id row expected token now =
    do completion ← completed_replay invocation_id row expected; pure (completion, false)
complete_as InvocationState.dispatch_armed id created_at agent_id invocation_id row expected token
      now =
    do
      completion ← publish_result id created_at agent_id invocation_id row expected token now
      pure (completion, true)
complete_as InvocationState.reserved id created_at agent_id invocation_id row expected token now =
    fail (conflict "invocation must be armed before completion")

unfoldable pub complete_invocation_transaction :
    String → ℕ → String → String → CompleteInvocation → ℕ → Bool → Tx (InvocationCompletion × Bool)
complete_invocation_transaction id created_at agent_id invocation_id input now allow_active = do
  validate_completion invocation_id input
  if allow_active then pure tt else ensure_invocation_not_active_on_session invocation_id
  row ← invocation_with_delivery agent_id invocation_id
  validate_static_fence row.invocation input.lease_token input.fence_token
  complete_as row.invocation.state id created_at agent_id invocation_id row
      (result_input agent_id invocation_id row input) input.lease_token now

-- An armed attempt may have had its effect, so it is never released for another one.
unfoldable pub ensure_retry_is_safe : String → String → String → Tx (Unit {0})
ensure_retry_is_safe agent_id message_id lease_token = do
  db ← get
  elim (find (open_under_lease db.messages agent_id message_id lease_token) db.invocations) [
    | none ↦ pure tt
    | some i ↦
        fail_if (is_armed i.state)
          (conflict "dispatch-armed invocation must be blocked or acknowledged")
  ]

abbrev pub is_outcome_unknown : ExecutionCertainty → Bool
is_outcome_unknown ExecutionCertainty.outcome_unknown = true
is_outcome_unknown _ = false

unfoldable pub set_terminal : ExecutionCertainty → String → ℕ → InvocationRow → InvocationRow
set_terminal certainty reason now i = record i {
  state = InvocationState.terminal;
  terminal_at_ms = some now;
  execution_certainty = some certainty;
  terminal_reason = some reason;
}

unfoldable pub terminalize_invocation :
    String → String → String → ExecutionCertainty → String → ℕ → Tx (Unit {0})
terminalize_invocation agent_id message_id lease_token certainty reason now = do
  ensure_bound_turn_allows_delivery_settlement agent_id message_id lease_token
      (is_outcome_unknown certainty && str_eq reason "blocked")
  db ← get
  affected ←
      update_invocations (open_under_lease db.messages agent_id message_id lease_token)
        (set_terminal certainty reason now)
  pure tt
