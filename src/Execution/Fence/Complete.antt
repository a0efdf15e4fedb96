-- ===== src/Execution/Fence/Complete.antt =====
-- crates/execution/src/invocation.rs: the invocation fence under `publish_result`.
pub mod Transaction
pub mod Effects
pub mod Publish
pub mod Outcome
pub mod Reread
pub mod Again
use fleetd.Base.{
  ℕ, Bool, true, false, ◌&&◌, not, ◌≡◌, refl, none, some, String, arith, All, All-map, str_eq,
  str_eq_iff, ◌==◌, inl, inr, Bool-cases, subst, sym, ◌∙◌, if◌then◌else◌, ◌⊎◌,
}
use fleetd.Error.{ok, conflict, lease_conflict}
use fleetd.Table.{update, count, find}
use fleetd.Table.Laws.{Distinct, Distinct-equal, All-find, find-holds}
use fleetd.Model.{CompleteInvocation, CreateMessage, InvocationState}
use fleetd.Db.{Db, DeliveryRow, InvocationRow}
use fleetd.Db.Tx.{bind_ok, fail_if, pure}
use fleetd.Db.Statements.{update_deliveries, update_invocations}
use fleetd.Kernel.Delivery.{
  LeasedRow, DeliveryKey, LeaseWindow, leased_row, key_matches, settle, set_acknowledged,
  acknowledge_leased_seq,
}
use fleetd.Kernel.Message.{insert_message}
use fleetd.Execution.Session.Turn.{is_terminal, is_armed, ensure_invocation_not_active_on_session}
use fleetd.Execution.Invocation.{
  Invocation, by_id, Fenced, invocation_with_delivery, validate_static_fence, validate_live_lease,
  invocation_by_id,
}
use fleetd.Execution.Invocation.Complete.{
  InvocationCompletion, validate_completion, armed_row, set_completed, publish_result, complete_as,
  completed_replay, complete_invocation_transaction, ensure_result_key_unused,
  acknowledge_invocation_delivery, result_input, message_by_seq,
}
use fleetd.Execution.Fence.{delivery_of, holds_lease, rivals, IsFenced}
use fleetd.Execution.Fence.Update.{KeepsFence, updated, updated-IsFenced}
use fleetd.Execution.Fence.Settle.{leased_row-open, acknowledged-KeepsKey}
use fleetd.Execution.Fence.Settle.Preserve.{IsFenced-tables}
use fleetd.Execution.Fence.Append.{insert_message-IsFenced}
use fleetd.Execution.Fence.Recover.Listing.{rivals-symmetric}

completed-KeepsFence : (now seq : ℕ) → KeepsFence (set_completed now seq)
unfolding set_completed
completed-KeepsFence now seq = record { seq = λ i. refl; agent = λ i. refl; ends = λ i. refl }

abbrev input_row : String → String → ℕ → InvocationRow → LeasedRow
input_row agent_id token now i = record {
  key = DeliveryKey.seq i.message_seq;
  agent_id = agent_id;
  lease_token = token;
  window = LeaseWindow.live;
  now = now;
}

module _ (agent_id invocation_id token : String) (now : ℕ) where
  -- The only open attempt on a delivery is the one that completes.
  abbrev sole : InvocationRow → InvocationRow → Bool
  sole own i =
      if not (is_terminal i.state) && i.message_seq == own.message_seq && str_eq i.agent_id agent_id
      then armed_row agent_id invocation_id i
      else true

  own_sole :
      (own i : InvocationRow)
      → armed_row agent_id invocation_id own ≡ true
      → (rivals own i ≡ true → own ≡ i)
      → sole own i ≡ true
  own_sole own i e same = elim (Bool-cases (rivals own i)) [
    | inl r ↦ subst (λ j. sole own j ≡ true) (same r) (ground arith)
    | inr r ↦ ground (
      arith,
      str_eq_iff i.agent_id agent_id,
      str_eq_iff own.agent_id agent_id,
      str_eq_iff own.agent_id i.agent_id,
    )
  ]

  end-IsFenced :
      (own : InvocationRow) (seq : ℕ) (db : Db)
      → IsFenced db
      → find (λ i. by_id invocation_id i && str_eq i.agent_id agent_id) db.invocations ≡ some own
      → is_armed own.state ≡ true
      → IsFenced (
          updated db
            (leased_row db.messages (input_row agent_id token now own))
            (set_acknowledged token now)
            (armed_row agent_id invocation_id)
            (set_completed now seq))
  end-IsFenced own seq db v at armed =
      updated-IsFenced db (leased_row db.messages (input_row agent_id token now own))
        (set_acknowledged token now) (armed_row agent_id invocation_id) (set_completed now seq)
        (acknowledged-KeepsKey token now) (completed-KeepsFence now seq) (sole own) passes
        (All-map (λ i same. own_sole own i own_armed same) db.invocations
          (All-find (λ i. by_id invocation_id i && str_eq i.agent_id agent_id) _ db.invocations own
            (Distinct-equal rivals rivals-symmetric db.invocations v.single) at))
        v
    where
      own_armed : armed_row agent_id invocation_id own ≡ true
      own_armed = ground (
        arith,
        find-holds (λ i. by_id invocation_id i && str_eq i.agent_id agent_id) db.invocations own at,
      )

      passes :
          (i : InvocationRow) (d : DeliveryRow)
          → sole own i ≡ true
          → armed_row agent_id invocation_id i ≡ false
          → is_terminal i.state ≡ false
          → delivery_of db.deliveries i ≡ some d
          → holds_lease i d ≡ true
          → leased_row db.messages (input_row agent_id token now own) d ≡ false
      passes i d good apart going at held =
          elim (Bool-cases (leased_row db.messages (input_row agent_id token now own) d)) [
            | inr e ↦ e
            | inl e ↦
                unfold key_matches in
                (ground (
                  arith,
                  leased_row-open db.messages (input_row agent_id token now own) db.deliveries i d e
                      at held,
                  str_eq_iff i.agent_id agent_id,
                ))
          ]

  -- What the acknowledgement and the end of the attempt do together.
  acknowledge_input-effect :
      (row : Fenced) (db after : Db)
      → acknowledge_invocation_delivery row agent_id token now db ≡ ok (tt, after)
      → after ≡ record db {
        deliveries =
            update
              (leased_row db.messages (input_row agent_id token now row.invocation))
              (set_acknowledged token now)
              db.deliveries;
      }
  unfolding acknowledge_invocation_delivery acknowledge_leased_seq settle update_deliveries
  acknowledge_input-effect row db after h = ground arith

  live-same :
      (row : Fenced) (db after : Db)
      → validate_live_lease row token now db ≡ ok (tt, after)
      → after ≡ db
  unfolding validate_live_lease
  live-same row db after h = ground arith

  unused-same :
      (db after : Db)
      → ensure_result_key_unused agent_id invocation_id db ≡ ok (tt, after)
      → after ≡ db
  unfolding ensure_result_key_unused
  unused-same db after h = ground arith

  invocation_by_id-same :
      (db after : Db) (i : Invocation)
      → invocation_by_id invocation_id db ≡ ok (i, after)
      → after ≡ db
  unfolding invocation_by_id
  invocation_by_id-same db after i h = ground arith

  end_row-effect :
      (seq affected : ℕ) (db after : Db)
      → update_invocations (armed_row agent_id invocation_id) (set_completed now seq) db
        ≡ ok (affected, after)
      → after ≡ record db {
        invocations =
            update (armed_row agent_id invocation_id) (set_completed now seq) db.invocations;
      }
  unfolding update_invocations
  end_row-effect seq affected db after h = ground arith

  pub publish-IsFenced :
      (id : String) (created_at : ℕ) (row : Fenced) (expected : CreateMessage) (db after : Db)
      (result : InvocationCompletion)
      → IsFenced db
      → find (λ i. by_id invocation_id i && str_eq i.agent_id agent_id) db.invocations
        ≡ some row.invocation
      → is_armed row.invocation.state ≡ true
      → publish_result id created_at agent_id invocation_id row expected token now db
        ≡ ok (result, after)
      → IsFenced after
  unfolding publish_result
  publish-IsFenced id created_at row expected db after result v at armed h =
      bind_ok (validate_live_lease row token now) _ db h λ u0 db0 e0 k0.
        bind_ok (ensure_result_key_unused agent_id invocation_id) _ db0 k0 λ u1 db1 e1 k1.
          bind_ok (insert_message id created_at row.input.channel_id expected) _ db1 k1
            λ message db2 e2 k2.
              bind_ok (acknowledge_invocation_delivery row agent_id token now) _ db2 k2
                λ u3 db3 e3 k3.
                  bind_ok
                    (update_invocations (armed_row agent_id invocation_id)
                      (set_completed now message.seq))
                    _ db3 k3
                    λ affected db4 e4 k4.
                      bind_ok
                        (fail_if (not (affected == 1))
                          (conflict "invocation changed during completion"))
                        _ db4 k4
                        λ u5 db5 e5 k5.
                          bind_ok (invocation_by_id invocation_id) _ db5 k5 λ invocation db6 e6 k6.
                            let start : db1 ≡ db =
                              unused-same db0 db1 e1 ∙ live-same row db db0 e0 in
                            let (v2, is) =
                              insert_message-IsFenced id created_at row.input.channel_id expected
                                db1 db2 message (subst IsFenced (sym start) v) e2 in
                            let acknowledged = acknowledge_input-effect row db2 db3 e3 in
                            let ended = end_row-effect message.seq affected db3 db4 e4 in
                            let last = invocation_by_id-same db5 db6 invocation e6 in
                            IsFenced-tables _ after (ground (arith, acknowledged, ended, last))
                              (ground (arith, acknowledged, ended, last))
                              (end-IsFenced row.invocation message.seq db2 v2 (rw (is, start) at)
                                armed)
