-- ===== src/Execution/Invocation/Recover.antt =====
-- crates/execution/src/invocation.rs: reconciling expired attempts. A reservation that was never
-- armed is proven not started; an armed attempt is parked.
use Prim.Native.String.{compare}
use Prim.Native.Nat.{Ordering}
use fleetd.Base.{
  ℕ, ◌+◌, Bool, true, false, ◌&&◌, ◌||◌, not, Option, none, some, String, List, [], ◌∷◌, ◌==◌, leb,
  ltb, str_eq, holds_text, concat, if◌then◌else◌,
}
use fleetd.Error.{conflict}
use fleetd.Table.{find, select, order_by}
use fleetd.Model.{ExecutionCertainty}
use fleetd.Db.{Db, DeliveryRow, InvocationRow, delivery_key}
use fleetd.Db.Statements.{update_invocations}
use fleetd.Db.Tx.{Tx, ◌>>=◌, ◌>>◌, pure, fail_if, get}
use fleetd.Kernel.Delivery.{is_leased, in_window, expired, block_expired_lease}
use fleetd.Kernel.Delivery.Block.{record_block}
use fleetd.Execution.Session.Turn.{mark_expired_session_turn_uncertain, is_armed, is_terminal}
use fleetd.Execution.Invocation.{by_id, is_reserved}
use fleetd.Execution.Invocation.Complete.{set_terminal}

abbrev pub u64_max : ℕ
u64_max = 18446744073709551615

-- `saturating_add` on `u64`.
abbrev pub saturating_add : ℕ → ℕ → ℕ
saturating_add a b = if leb (a + b) u64_max then a + b else u64_max

-- The delivery that an invocation still holds, though its lease has run out.
unfoldable pub lapsed : ℕ → InvocationRow → DeliveryRow → Bool
unfolding in_window
lapsed now i d =
    delivery_key i.message_seq i.agent_id d
    && is_leased d.state
    && holds_text d.lease_token i.lease_token
    && in_window expired now d.lease_expires_at_ms

unfoldable pub lapsed_delivery : Db → ℕ → InvocationRow → Option DeliveryRow
lapsed_delivery db now i = find (lapsed now i) db.deliveries

abbrev pub has_lapsed : Db → ℕ → InvocationRow → Bool
has_lapsed db now i = elim (lapsed_delivery db now i) [ none ↦ false | some d ↦ true ]

unfoldable pub expired_reservation : Db → String → ℕ → InvocationRow → Bool
expired_reservation db agent_id now i =
    str_eq i.agent_id agent_id
    && is_reserved i.state
    && leb i.lease_expires_at_ms now
    && has_lapsed db now i

unfoldable pub terminalize_expired_reservations : String → ℕ → Tx ℕ
terminalize_expired_reservations agent_id now = do
  db ← get
  update_invocations (expired_reservation db agent_id now)
      (set_terminal ExecutionCertainty.not_started "reservation_expired_before_dispatch" now)

unfoldable pub expired_armed : Db → String → ℕ → InvocationRow → Bool
expired_armed db agent_id now i =
    str_eq i.agent_id agent_id
    && is_armed i.state
    && leb i.lease_expires_at_ms now
    && has_lapsed db now i

-- ORDER BY reserved_at_ms, id.
abbrev pub text_le : String → String → Bool
text_le a b = elim (compare a b) [ Ordering.gt ↦ false | _ ↦ true ]

abbrev pub reserved_le : InvocationRow → InvocationRow → Bool
reserved_le a b =
    ltb a.reserved_at_ms b.reserved_at_ms
    || (a.reserved_at_ms == b.reserved_at_ms && text_le a.id b.id)

-- What the loop reads of an expired armed invocation.
pub record Lapse : Type 0 where
  pub id : String
  pub message_seq : ℕ
  pub lease_token : String
  pub attempt : ℕ

unfoldable pub lapses : Db → ℕ → List InvocationRow → List Lapse
lapses db now [] = []
lapses db now (i ∷ is) =
    let more = lapses db now is in
    elim (lapsed_delivery db now i) [
      | none ↦ more
      | some d ↦
          record {
            id = i.id;
            message_seq = i.message_seq;
            lease_token = i.lease_token;
            attempt = d.attempt;
          }
          ∷ more
    ]

unfoldable pub expiry_reason : String → String
expiry_reason invocation_id =
    concat ("invocation " ∷ invocation_id ∷ " lease expired after dispatch was armed" ∷ [])

abbrev pub armed_by_id : String → InvocationRow → Bool
armed_by_id invocation_id i = by_id invocation_id i && is_armed i.state

unfoldable pub park_expired_armed_invocation : Lapse → String → ℕ → Tx (Unit {0})
park_expired_armed_invocation row agent_id now = do
  let reason = expiry_reason row.id
  moved ← block_expired_lease agent_id row.message_seq row.lease_token reason now
  fail_if (not moved) (conflict "expired invocation delivery changed during recovery")
  record_block row.message_seq agent_id row.attempt row.lease_token reason now
  affected ←
      update_invocations (armed_by_id row.id)
        (set_terminal ExecutionCertainty.outcome_unknown "lease_expired_after_dispatch_armed" now)
  fail_if (not (affected == 1)) (conflict "expired invocation changed during recovery")
  mark_expired_session_turn_uncertain row.id reason now

unfoldable pub park_all : String → ℕ → List Lapse → ℕ → Tx ℕ
park_all agent_id now [] recovered = pure recovered
park_all agent_id now (row ∷ rows) recovered = do
  park_expired_armed_invocation row agent_id now
  park_all agent_id now rows (saturating_add recovered 1)

unfoldable pub recover_expired_invocations_transaction : String → ℕ → Tx ℕ
recover_expired_invocations_transaction agent_id now = do
  recovered ← terminalize_expired_reservations agent_id now
  db ← get
  park_all agent_id now
      (lapses db now (order_by reserved_le (select (expired_armed db agent_id now) db.invocations)))
      recovered

-- SELECT DISTINCT i.agent_id … ORDER BY i.agent_id.
unfoldable pub insert_distinct : String → List String → List String
insert_distinct a [] = a ∷ []
insert_distinct a (b ∷ bs) =
    if str_eq a b then b ∷ bs else if text_le a b then a ∷ b ∷ bs else b ∷ insert_distinct a bs

unfoldable pub expired_agents : Db → ℕ → List InvocationRow → List String
unfolding insert_distinct
expired_agents db now [] = []
expired_agents db now (i ∷ is) =
    let more = expired_agents db now is in
    if not (is_terminal i.state) && leb i.lease_expires_at_ms now && has_lapsed db now i
    then insert_distinct i.agent_id more
    else more

unfoldable pub recover_agents : ℕ → List String → ℕ → Tx ℕ
recover_agents now [] recovered = pure recovered
recover_agents now (agent_id ∷ agents) recovered = do
  more ← recover_expired_invocations_transaction agent_id now
  recover_agents now agents (saturating_add recovered more)

-- The agents are read from the pool before the transaction begins: `listed` is the database that
-- they are read from, and other transactions may have committed since. Without an agent there is
-- no transaction, and no change.
unfoldable pub recover_all_expired_invocations : Db → ℕ → Tx ℕ
recover_all_expired_invocations listed now =
    recover_agents now (expired_agents listed now listed.invocations) 0
