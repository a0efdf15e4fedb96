-- ===== src/Execution/Fence/Complete/Effects.antt =====
-- crates/execution/src/invocation.rs: what `publish_result` writes.
use mathlib.Core.Option
use fleetd.Base.{
  List, refl, ap, str_eq, str_eq_iff, ℕ, ◌+◌, true, not, ◌≡◌, some, String, [], ◌∷◌, ◌++◌, arith,
  ◌∙◌, ◌==◌, sym, subst,
}
use fleetd.Error.{ok, conflict}
use fleetd.Table.{update, find}
use fleetd.Model.{CreateMessage}
use fleetd.Table.Laws.{find-update, find-holds}
use fleetd.Db.{Db, InvocationRow, DeliveryRow, MessageRow, message_from_row, delivery_key}
use fleetd.Kernel.Delivery.{leased_row, key_matches, in_window, set_acknowledged}
use fleetd.Kernel.Message.Keep.{insert_message-keeps}
use fleetd.Execution.Answers.{is_live, acknowledged_row}
use fleetd.Db.Tx.{bind_ok, fail_if}
use fleetd.Db.Statements.{update_invocations}
use fleetd.Kernel.Message.{insert_message, message_row}
use fleetd.Kernel.Message.Append.{insert_message-effect}
use fleetd.Execution.Invocation.{Fenced, validate_live_lease, invocation_by_id}
use fleetd.Execution.Invocation.Complete.{
  InvocationCompletion, armed_row, set_completed, publish_result, ensure_result_key_unused,
  acknowledge_invocation_delivery,
}
use fleetd.Execution.Fence.{IsFenced}
use fleetd.Execution.Fence.Append.{insert_message-IsFenced}
use fleetd.Execution.Fence.Complete.{
  input_row, acknowledge_input-effect, end_row-effect, live-same, unused-same,
  invocation_by_id-same,
}

module _ (agent_id invocation_id token : String) (now : ℕ) where
  live_lem :
      (row : Fenced) (db after : Db)
      → validate_live_lease row token now db ≡ ok (tt, after)
      → is_live token now row.delivery ≡ true
  unfolding validate_live_lease in_window
  live_lem row db after h = ground arith

  -- The live delivery of the attempt is the one that the acknowledgement settles.
  acknowledged_found :
      (own : InvocationRow) (ms : List MessageRow) (ds : List DeliveryRow) (d : DeliveryRow)
      → str_eq own.agent_id agent_id ≡ true
      → is_live token now d ≡ true
      → find (delivery_key own.message_seq own.agent_id) ds ≡ some d
      → find (delivery_key own.message_seq own.agent_id) (
          update (leased_row ms (input_row agent_id token now own)) (set_acknowledged token now) ds)
        ≡ some (acknowledged_row token now d)
  unfolding leased_row key_matches in_window set_acknowledged
  acknowledged_found own ms ds d mine live at =
      let on = find-holds (delivery_key own.message_seq own.agent_id) ds d at in
      let hit : leased_row ms (input_row agent_id token now own) d ≡ true = ground (
        arith,
        on,
        str_eq_iff own.agent_id agent_id,
        str_eq_iff d.agent_id own.agent_id,
        str_eq_iff d.agent_id agent_id,
      ) in
      find-update (leased_row ms (input_row agent_id token now own)) (set_acknowledged token now)
        (delivery_key own.message_seq own.agent_id) (λ r. refl) ds
      ∙ ap (Option.map _) at
      ∙ rw hit refl

  pub publish-effect :
      (id : String) (created_at : ℕ) (row : Fenced) (expected : CreateMessage) (db after : Db)
      (completion : InvocationCompletion)
      → IsFenced db
      → str_eq row.invocation.agent_id agent_id ≡ true
      → find (delivery_key row.invocation.message_seq row.invocation.agent_id) db.deliveries
        ≡ some row.delivery
      → publish_result id created_at agent_id invocation_id row expected token now db
        ≡ ok (completion, after)
      → (is_live token now row.delivery ≡ true)
        × (invocation_by_id invocation_id after ≡ ok (completion.invocation, after))
        × (find (delivery_key row.invocation.message_seq row.invocation.agent_id) after.deliveries
            ≡ some (acknowledged_row token now row.delivery))
        × (completion.result
            ≡ message_from_row
                (message_row (db.last_message_seq + 1) id created_at row.input.channel_id expected))
        × (after.messages
            ≡ db.messages
              ++ message_row (db.last_message_seq + 1) id created_at row.input.channel_id expected
                ∷ [])
        × (after.invocations
            ≡ update
                (armed_row agent_id invocation_id)
                (set_completed now completion.result.seq)
                db.invocations)
  unfolding publish_result
  publish-effect id created_at row expected db after completion v mine at h =
      bind_ok (validate_live_lease row token now) _ db h λ u0 db0 e0 k0.
        bind_ok (ensure_result_key_unused agent_id invocation_id) _ db0 k0 λ u1 db1 e1 k1.
          bind_ok (insert_message id created_at row.input.channel_id expected) _ db1 k1
            λ message db2 e2 k2.
              bind_ok (acknowledge_invocation_delivery row agent_id token now) _ db2 k2
                λ u3 db3 e3 k3.
                  bind_ok
                    (update_invocations (armed_row agent_id invocation_id)
                      (set_completed now message.seq))
                    _ db3 k3
                    λ affected db4 e4 k4.
                      bind_ok
                        (fail_if (not (affected == 1))
                          (conflict "invocation changed during completion"))
                        _ db4 k4
                        λ u5 db5 e5 k5.
                          bind_ok (invocation_by_id invocation_id) _ db5 k5 λ invocation db6 e6 k6.
                            let start : db1 ≡ db =
                              unused-same agent_id invocation_id token now db0 db1 e1
                              ∙ live-same agent_id invocation_id token now row db db0 e0 in
                            let (same, ms) =
                              insert_message-effect id created_at row.input.channel_id expected db1
                                db2 message e2 in
                            let (_, is) =
                              insert_message-IsFenced id created_at row.input.channel_id expected
                                db1 db2 message (subst IsFenced (sym start) v) e2 in
                            let acknowledged =
                              acknowledge_input-effect agent_id invocation_id token now row db2 db3
                                e3 in
                            let ended =
                              end_row-effect agent_id invocation_id token now message.seq affected
                                db3 db4 e4 in
                            let last =
                              invocation_by_id-same agent_id invocation_id token now db5 db6
                                invocation e6 in
                            let live = live_lem row db db0 e0 in
                            let kept =
                              insert_message-keeps
                                (delivery_key row.invocation.message_seq row.invocation.agent_id)
                                row.delivery id created_at row.input.channel_id expected db1 db2
                                message (rw start at) e2 in
                            let found =
                              acknowledged_found row.invocation db2.messages db2.deliveries
                                row.delivery mine live kept in
                            ground
                              (arith, start, same, ms, is, acknowledged, ended, last, live, found)
