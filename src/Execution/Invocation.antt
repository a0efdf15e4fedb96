-- ===== src/Execution/Invocation.antt =====
-- crates/execution/src/invocation.rs: the invocation record, its fence, and how both are read.
pub mod Arm
pub mod Complete
pub mod Recover
pub mod Reserve
use fleetd.Base.{
  ℕ, Bool, true, false, ◌&&◌, ◌||◌, not, Option, none, some, String, [], ◌∷◌, leb, str_eq,
  holds_text, is_blank, concat,
}
use fleetd.Error.{invalid, not_found, lease_conflict}
use fleetd.Table.{find}
use fleetd.Model.{InvocationState, ExecutionCertainty, ArmInvocation}
use fleetd.Db.{
  Db, DeliveryRow, MessageRow, InvocationRow, Message, message_from_row, message_at, delivery_key,
}
use fleetd.Db.Tx.{Tx, ◌>>=◌, ◌>>◌, pure, fail_if, get, expect}
use fleetd.Kernel.Delivery.{is_leased, in_window, live}

pub record Invocation : Type 0 where
  pub id : String
  pub agent_id : String
  pub message : Message
  pub delivery_attempt : ℕ
  pub lease_token : String
  pub lease_expires_at_ms : ℕ
  pub fence_token : String
  pub state : InvocationState
  pub reserved_at_ms : ℕ
  pub dispatch_armed_at_ms : Option ℕ
  pub terminal_at_ms : Option ℕ
  pub execution_certainty : Option ExecutionCertainty
  pub terminal_reason : Option String
  pub result_message_id : Option String

abbrev pub by_id : String → InvocationRow → Bool
by_id invocation_id i = str_eq i.id invocation_id

-- LEFT JOIN messages r ON r.seq = i.result_message_seq.
abbrev result_id : Db → Option ℕ → Option String
result_id db none = none
result_id db (some seq) = elim (message_at db.messages seq) [ none ↦ none | some r ↦ some r.id ]

unfoldable pub invocation_from_row : Db → InvocationRow → MessageRow → Invocation
invocation_from_row db i m = record {
  id = i.id;
  agent_id = i.agent_id;
  message = message_from_row m;
  delivery_attempt = i.delivery_attempt;
  lease_token = i.lease_token;
  lease_expires_at_ms = i.lease_expires_at_ms;
  fence_token = i.fence_token;
  state = i.state;
  reserved_at_ms = i.reserved_at_ms;
  dispatch_armed_at_ms = i.dispatch_armed_at_ms;
  terminal_at_ms = i.terminal_at_ms;
  execution_certainty = i.execution_certainty;
  terminal_reason = i.terminal_reason;
  result_message_id = result_id db i.result_message_seq;
}

-- Also `get_invocation`, which reads the same query outside a transaction.
unfoldable pub invocation_by_id : String → Tx Invocation
invocation_by_id invocation_id = do
  db ← get
  i ← expect (find (by_id invocation_id) db.invocations) (not_found "invocation" invocation_id)
  m ← expect (message_at db.messages i.message_seq) (not_found "invocation" invocation_id)
  pure (invocation_from_row db i m)

-- An invocation with the delivery that it fences and the message that it answers.
pub record Fenced : Type 0 where
  pub invocation : InvocationRow
  pub delivery : DeliveryRow
  pub input : MessageRow

unfoldable pub invocation_with_delivery : String → String → Tx Fenced
invocation_with_delivery agent_id invocation_id = do
  db ← get
  i ←
      expect (find (λ i. by_id invocation_id i && str_eq i.agent_id agent_id) db.invocations)
        (not_found "invocation" invocation_id)
  d ←
      expect (find (delivery_key i.message_seq i.agent_id) db.deliveries)
        (not_found "invocation" invocation_id)
  m ← expect (message_at db.messages i.message_seq) (not_found "invocation" invocation_id)
  pure (record { invocation = i; delivery = d; input = m })

unfoldable pub validate_static_fence : InvocationRow → String → String → Tx (Unit {0})
validate_static_fence i lease_token fence_token =
    fail_if (not (str_eq i.lease_token lease_token) || not (str_eq i.fence_token fence_token))
      (lease_conflict "invocation lease or fence token is invalid")

unfoldable pub validate_live_lease : Fenced → String → ℕ → Tx (Unit {0})
validate_live_lease row lease_token now =
    fail_if
      (leb row.invocation.lease_expires_at_ms now
        || not (in_window live now row.delivery.lease_expires_at_ms)
        || not (is_leased row.delivery.state)
        || not (holds_text row.delivery.lease_token lease_token))
      (lease_conflict "invocation lease is expired or no longer owns the delivery")

unfoldable pub validate_invocation_fence : Fenced → ArmInvocation → ℕ → Tx (Unit {0})
validate_invocation_fence row input now = do
  validate_static_fence row.invocation input.lease_token input.fence_token
  validate_live_lease row input.lease_token now

-- One round of the loop over labelled values that must not be blank.
abbrev pub require_text : String → String → Tx (Unit {0})
require_text label value =
    fail_if (is_blank value) (invalid (concat (label ∷ " must not be empty" ∷ [])))

abbrev pub is_reserved : InvocationState → Bool
is_reserved InvocationState.reserved = true
is_reserved _ = false
