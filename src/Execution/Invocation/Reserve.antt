-- ===== src/Execution/Invocation/Reserve.antt =====
-- crates/execution/src/invocation.rs: leasing deliveries together with their invocation records.
-- `uuid` is the sequence of values that `Uuid::new_v4` returns during the call.
use fleetd.Base.{
  ℕ, suc, ◌+◌, ◌*◌, Bool, true, false, ◌&&◌, ◌||◌, not, Option, none, some, String, List, [], ◌∷◌,
  ◌++◌, ◌==◌, str_eq,
}
use fleetd.Error.{invalid, database}
use fleetd.Table.{count}
use fleetd.Model.{InvocationState, ClaimDeliveries}
use fleetd.Db.{DeliveryRow, MessageRow, InvocationRow}
use fleetd.Db.Tx.{Tx, ◌>>=◌, ◌>>◌, pure, fail_if, get, put, lift, to_i64, checked_add}
use fleetd.Kernel.Delivery.{ensure_agent}
use fleetd.Kernel.Delivery.Validate.{validate_claim}
use fleetd.Kernel.Delivery.Claim.{lease_claimable, held, with_messages}
use fleetd.Execution.Invocation.{Invocation, invocation_from_row}
use fleetd.Execution.Invocation.Recover.{recover_expired_invocations_transaction}

unfoldable pub new_invocation :
    String → String → DeliveryRow → String → String → ℕ → ℕ → InvocationRow
new_invocation id fence_token d agent_id lease_token lease_expires_at_ms reserved_at_ms = record {
  id = id;
  message_seq = d.message_seq;
  agent_id = agent_id;
  delivery_attempt = d.attempt;
  lease_token = lease_token;
  lease_expires_at_ms = lease_expires_at_ms;
  fence_token = fence_token;
  state = InvocationState.reserved;
  reserved_at_ms = reserved_at_ms;
  dispatch_armed_at_ms = none;
  terminal_at_ms = none;
  execution_certainty = none;
  terminal_reason = none;
  result_message_seq = none;
}

-- PRIMARY KEY (id), UNIQUE (fence_token), UNIQUE (message_seq, agent_id, delivery_attempt).
abbrev pub clashes : InvocationRow → InvocationRow → Bool
clashes new i =
    str_eq i.id new.id
    || str_eq i.fence_token new.fence_token
    || (i.message_seq == new.message_seq
        && str_eq i.agent_id new.agent_id
        && i.delivery_attempt == new.delivery_attempt)

unfoldable pub insert_invocation : InvocationRow → Tx (Unit {0})
insert_invocation new = do
  db ← get
  fail_if (not (count (clashes new) db.invocations == 0))
      (database "UNIQUE constraint failed: invocations")
  put (record db { invocations = db.invocations ++ new ∷ [] })

unfoldable pub reserve_row :
    String → String → DeliveryRow × MessageRow → String → String → ℕ → ℕ → Tx Invocation
reserve_row id fence_token (d, m) agent_id lease_token lease_expires_at_ms reserved_at_ms = do
  let new = new_invocation id fence_token d agent_id lease_token lease_expires_at_ms reserved_at_ms
  insert_invocation new
  db ← get
  pure (invocation_from_row db new m)

-- The loop; the k-th row draws the identifiers 2 k + 1 and 2 k + 2.
unfoldable pub reserve_rows :
    (ℕ → String)
    → ℕ
    → List (DeliveryRow × MessageRow)
    → String
    → String
    → ℕ
    → ℕ
    → Tx (List Invocation)
reserve_rows uuid k [] agent_id lease_token lease_expires_at_ms now = pure []
reserve_rows uuid k (row ∷ rows) agent_id lease_token lease_expires_at_ms now = do
  invocation ←
      reserve_row (uuid (2 * k + 1)) (uuid (2 * k + 2)) row agent_id lease_token lease_expires_at_ms
        now
  rest ← reserve_rows uuid (suc k) rows agent_id lease_token lease_expires_at_ms now
  pure (invocation ∷ rest)

abbrev pub pair_up : DeliveryRow → MessageRow → DeliveryRow × MessageRow
pair_up d m = (d, m)

-- The body of the transaction.
unfoldable pub reserve_leased :
    (ℕ → String) → String → ℕ → Option (List String) → ℕ → ℕ → Tx (List Invocation)
reserve_leased uuid agent_id limit kinds lease_expires_at_ms now = do
  recovered ← recover_expired_invocations_transaction agent_id now
  lease_claimable agent_id (uuid 0) lease_expires_at_ms now limit kinds
  db ← get
  reserve_rows uuid 0 (with_messages db.messages pair_up (held db agent_id (uuid 0))) agent_id
      (uuid 0) lease_expires_at_ms now

unfoldable pub reserve_invocations_filtered :
    (ℕ → String) → String → ClaimDeliveries → Option (List String) → ℕ → Tx (List Invocation)
reserve_invocations_filtered uuid agent_id input kinds now = do
  lift (validate_claim input)
  ensure_agent agent_id
  lease_duration ← to_i64 "lease duration is too large" input.lease_duration_ms
  lease_expires_at_ms ← checked_add "lease expiry overflowed" now lease_duration
  reserve_leased uuid agent_id input.limit kinds lease_expires_at_ms now

abbrev is_empty {ℓ} : {A : Type ℓ} → List A → Bool
is_empty [] = true
is_empty (x ∷ xs) = false

unfoldable pub reserve_invocations :
    (ℕ → String) → String → ClaimDeliveries → ℕ → Tx (List Invocation)
reserve_invocations uuid agent_id input now =
    reserve_invocations_filtered uuid agent_id input none now

unfoldable pub reserve_invocations_by_kind :
    (ℕ → String) → String → ClaimDeliveries → List String → ℕ → Tx (List Invocation)
reserve_invocations_by_kind uuid agent_id input message_kinds now = do
  fail_if (is_empty message_kinds) (invalid "invocation message-kind selector must not be empty")
  reserve_invocations_filtered uuid agent_id input (some message_kinds) now
