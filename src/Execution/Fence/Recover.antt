-- ===== src/Execution/Fence/Recover.antt =====
-- crates/execution/src/invocation.rs: what parking one expired armed attempt does to the tables.
pub mod Sweep
pub mod Listing
pub mod Survive
pub mod Agents
use fleetd.Base.{
  ℕ, Bool, true, false, ◌&&◌, ◌||◌, not, ◌≡◌, refl, ◌∙◌, none, some, String, List, [], ◌∷◌, arith,
  All, ◌==◌, str_eq, leb, if◌then◌else◌,
}
use fleetd.Error.{ok, conflict}
use fleetd.Table.{update, count, find, any}
use fleetd.Model.{ExecutionCertainty}
use fleetd.Db.{Db, DeliveryRow, InvocationRow}
use fleetd.Db.Tx.{bind_ok, fail_if}
use fleetd.Db.Statements.{update_deliveries, update_invocations, update_turns, update_bindings}
use fleetd.Kernel.Delivery.{
  LeasedRow, DeliveryKey, LeaseWindow, leased_row, settle, set_blocked, block_expired_lease,
}
use fleetd.Kernel.Delivery.Block.{record_block}
use fleetd.Execution.Session.Turn.{
  is_terminal, is_armed, mark_expired_session_turn_uncertain, fence_expired_turn,
  mark_turn_uncertain,
}
use fleetd.Execution.Invocation.{by_id}
use fleetd.Execution.Invocation.Complete.{set_terminal}
use fleetd.Execution.Invocation.Recover.{
  Lapse, armed_by_id, expiry_reason, park_expired_armed_invocation,
}
use fleetd.Execution.Fence.Update.{updated}

-- The delivery row that parking an attempt settles.
abbrev pub lapse_row : String → ℕ → Lapse → LeasedRow
lapse_row agent_id now row = record {
  key = DeliveryKey.seq row.message_seq;
  agent_id = agent_id;
  lease_token = row.lease_token;
  window = LeaseWindow.expired;
  now = now;
}

abbrev pub lapse_set : Lapse → DeliveryRow → DeliveryRow
lapse_set row = set_blocked (expiry_reason row.id) row.lease_token

abbrev pub lapse_end : ℕ → InvocationRow → InvocationRow
lapse_end now =
    set_terminal ExecutionCertainty.outcome_unknown "lease_expired_after_dispatch_armed" now

-- What a database keeps of another one.
pub record Parks (agent_id : String) (now : ℕ) (row : Lapse) (db after : Db) : Type 0 where
  pub deliveries :
      after.deliveries
      ≡ update (leased_row db.messages (lapse_row agent_id now row)) (lapse_set row) db.deliveries
  pub invocations : after.invocations ≡ update (armed_by_id row.id) (lapse_end now) db.invocations
  pub messages : after.messages ≡ db.messages
  pub moved : count (leased_row db.messages (lapse_row agent_id now row)) db.deliveries ≡ 1

-- Fencing the session touches turns and bindings only.
expired_turn-frame :
    (invocation_id reason : String) (now : ℕ) (db after : Db)
    → mark_expired_session_turn_uncertain invocation_id reason now db ≡ ok (tt, after)
    → (after.deliveries ≡ db.deliveries)
      × (after.invocations ≡ db.invocations)
      × (after.messages ≡ db.messages)
unfolding mark_expired_session_turn_uncertain fence_expired_turn mark_turn_uncertain update_turns
    update_bindings
expired_turn-frame invocation_id reason now db after h = ground arith

block_expired-effect :
    (agent_id : String) (row : Lapse) (now : ℕ) (db after : Db) (moved : Bool)
    → block_expired_lease agent_id row.message_seq row.lease_token (expiry_reason row.id) now db
      ≡ ok (moved, after)
    → (after ≡ record db {
      deliveries =
          update
            (leased_row db.messages (lapse_row agent_id now row))
            (lapse_set row)
            db.deliveries;
    })
      × (moved ≡ (count (leased_row db.messages (lapse_row agent_id now row)) db.deliveries == 1))
unfolding block_expired_lease settle update_deliveries
block_expired-effect agent_id row now db after moved h = ground arith

record_block-frame :
    (seq : ℕ) (agent_id : String) (attempt : ℕ) (token reason : String) (now : ℕ) (db after : Db)
    → record_block seq agent_id attempt token reason now db ≡ ok (tt, after)
    → (after.deliveries ≡ db.deliveries)
      × (after.invocations ≡ db.invocations)
      × (after.messages ≡ db.messages)
unfolding record_block
record_block-frame seq agent_id attempt token reason now db after h = ground arith

pub park-Parks :
    (row : Lapse) (agent_id : String) (now : ℕ) (db after : Db)
    → park_expired_armed_invocation row agent_id now db ≡ ok (tt, after)
    → Parks agent_id now row db after
unfolding park_expired_armed_invocation update_invocations
park-Parks row agent_id now db after h =
    bind_ok
      (block_expired_lease agent_id row.message_seq row.lease_token (expiry_reason row.id) now) _ db
      h
      λ moved db1 e1 k1.
        bind_ok
          (fail_if (not moved) (conflict "expired invocation delivery changed during recovery")) _
          db1 k1
          λ u db2 e2 k2.
            bind_ok
              (record_block row.message_seq agent_id row.attempt row.lease_token
                (expiry_reason row.id) now)
              _ db2 k2
              λ v db3 e3 k3.
                bind_ok (update_invocations (armed_by_id row.id) (lapse_end now)) _ db3 k3
                  λ affected db4 e4 k4.
                    bind_ok
                      (fail_if (not (affected == 1))
                        (conflict "expired invocation changed during recovery"))
                      _ db4 k4
                      λ w db5 e5 k5.
                        (let blocked = block_expired-effect agent_id row now db db1 moved e1 in
                          let kept =
                            record_block-frame row.message_seq agent_id row.attempt row.lease_token
                              (expiry_reason row.id) now db2 db3 e3 in
                          let fenced =
                            expired_turn-frame row.id (expiry_reason row.id) now db5 after k5 in
                          record {
                            deliveries = ground (arith, blocked, kept, fenced);
                            invocations = ground (arith, blocked, kept, fenced);
                            messages = ground (arith, blocked, kept, fenced);
                            moved = ground (arith, blocked);
                          })
