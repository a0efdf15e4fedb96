-- ===== src/Execution/Replay.antt =====
-- crates/execution/src/settlement.rs: repeating a settlement whose response was lost.
use fleetd.Base.{
  ℕ, ◌≤◌, true, false, ◌&&◌, ◌≡◌, some, String, arith, inl, inr, Bool-cases, Option-cases, str_eq,
  holds_text, holds_text_refl,
}
use fleetd.Error.{ok}
use fleetd.Table.{find, update}
use fleetd.Table.Laws.{Distinct, find-same, update-count_zero}
use fleetd.Db.Statements.{update_deliveries, update_invocations}
use fleetd.Execution.Invocation.Complete.{terminalize_invocation}
use fleetd.Model.{Settlement, ExecutionCertainty}
use fleetd.Db.{Db, DeliveryRow, same_delivery, of_message}
use fleetd.Db.Tx.{lift, lift-same, bind_ok}
use fleetd.Kernel.Delivery.Validate.{validate_token}
use fleetd.Kernel.Delivery.{
  LeaseWindow, leased_row, key_matches, in_window, settle, mark_acknowledged, settle_miss,
  same_settlement, set_acknowledged,
}
use fleetd.Kernel.Delivery.Settling.{
  settle_lem, found_after, after-eq, spent_count, addressed, acknowledged-Settles,
}
use fleetd.Execution.Settlement.{acknowledge_delivery}
use fleetd.Execution.Fence.Settle.{by_message}
use fleetd.Execution.Fence.Settle.Effects.{settle_miss-Reads, bound_turn-Reads}

module _ (agent_id message_id token : String) where
  -- A miss reads the row that the settlement addressed.
  miss_eq :
      (now : ℕ) (expected : Settlement) (db : Db) (d : DeliveryRow)
      → find (addressed db.messages (by_message agent_id message_id token now)) db.deliveries
        ≡ some d
      → holds_text d.last_settled_lease_token token && same_settlement d.last_settlement expected
        ≡ true
      → settle_miss agent_id message_id token expected db ≡ ok (tt, db)
  unfolding settle_miss key_matches
  miss_eq now expected db d e h = ground (
    arith,
    find-same (λ d. str_eq d.agent_id agent_id && of_message db.messages message_id d.message_seq)
        (addressed db.messages (by_message agent_id message_id token now)) (λ r. ground arith)
        db.deliveries,
  )

  -- A database with the deliveries that a moved row leaves answers the repeat with success.
  moved_again :
      (now later : ℕ) (db db1 after : Db)
      → Distinct same_delivery db.deliveries
      → mark_acknowledged agent_id message_id token now db ≡ ok (true, db1)
      → after.deliveries ≡ db1.deliveries
      → after.messages ≡ db1.messages
      → (mark_acknowledged agent_id message_id token later after ≡ ok (false, after))
        × (settle_miss agent_id message_id token Settlement.acknowledged after ≡ ok (tt, after))
  unfolding mark_acknowledged settle update_deliveries
  moved_again now later db db1 after distinct h ds ms =
      let row = by_message agent_id message_id token now in
      let set = set_acknowledged token now in
      let v = acknowledged-Settles token now in
      let (d, e) = found_after db db1 row set v distinct h in
      let same = after-eq db db1 row set v distinct h in
      let spent = spent_count db db1 row set v distinct h LeaseWindow.live later in
      let kept =
        update-count_zero (leased_row db.messages (by_message agent_id message_id token later))
          (set_acknowledged token later) (update (leased_row db.messages row) set db.deliveries)
          spent in
      (
        ground (arith, spent, kept, same),
        miss_eq now Settlement.acknowledged after (set d) (ground (arith, same, e))
            (unfold set_acknowledged in (ground (arith, holds_text_refl token))),
      )

  -- A row that was not live under the token is not live under it later.
  leased_row-later :
      (now later : ℕ) (db : Db) (d : DeliveryRow)
      → now ≤ later
      → leased_row db.messages (by_message agent_id message_id token now) d ≡ false
      → leased_row db.messages (by_message agent_id message_id token later) d ≡ false
  unfolding leased_row in_window
  leased_row-later now later db d le h = ground arith

  unmoved_again :
      (now later : ℕ) (db db1 : Db)
      → now ≤ later
      → Distinct same_delivery db.deliveries
      → mark_acknowledged agent_id message_id token now db ≡ ok (false, db1)
      → mark_acknowledged agent_id message_id token later db
        ≡ ok (
          false,
          record db {
            deliveries =
                update
                  (leased_row db.messages (by_message agent_id message_id token later))
                  (set_acknowledged token later)
                  db.deliveries;
          },
        )
  unfolding mark_acknowledged
  unmoved_again now later db db1 le distinct h =
      let before =
        settle_lem db (by_message agent_id message_id token now) (set_acknowledged token now)
          distinct in
      let after =
        settle_lem db (by_message agent_id message_id token later) (set_acknowledged token later)
          distinct in
      elim (Option-cases
        (find (addressed db.messages (by_message agent_id message_id token now)) db.deliveries)) [
          | inl e ↦ ground (arith, after, e)
          | inr (d, e) ↦
              let miss : leased_row db.messages (by_message agent_id message_id token now) d
                  ≡ false =
                ground (arith, before, e) in
              ground (arith, after, e, leased_row-later now later db d le miss)
        ]

  validated :
      (db after : Db)
      → lift (validate_token token) db ≡ ok (tt, after)
      → validate_token token ≡ ok tt
  validated db after h = ground arith

  terminalize-keeps :
      (now : ℕ) (db after : Db)
      → terminalize_invocation agent_id message_id token ExecutionCertainty.outcome_known
          "acknowledged" now db
        ≡ ok (tt, after)
      → (after.deliveries ≡ db.deliveries) × (after.messages ≡ db.messages)
  unfolding terminalize_invocation update_invocations
  terminalize-keeps now db after h =
      ground (arith, bound_turn-Reads agent_id message_id token false db)

  repeat_ok :
      (now : ℕ) (db db1 : Db)
      → validate_token token ≡ ok tt
      → mark_acknowledged agent_id message_id token now db ≡ ok (false, db1)
      → settle_miss agent_id message_id token Settlement.acknowledged db ≡ ok (tt, db)
      → acknowledge_delivery agent_id message_id token now db ≡ ok (tt, db)
  unfolding acknowledge_delivery
  repeat_ok now db db1 valid miss repeat = ground (arith, valid, miss, repeat)

  -- Where deliveries have distinct keys, an acknowledgement that succeeded can be repeated at the
  -- same time or later: the repeat succeeds and changes nothing.
  pub acknowledge-again :
      (now later : ℕ) (db after : Db)
      → Distinct same_delivery db.deliveries
      → now ≤ later
      → acknowledge_delivery agent_id message_id token now db ≡ ok (tt, after)
      → acknowledge_delivery agent_id message_id token later after ≡ ok (tt, after)
  unfolding acknowledge_delivery
  acknowledge-again now later db after distinct le h =
      bind_ok (lift (validate_token token)) _ db h λ u0 db0 e0 k0.
        bind_ok (mark_acknowledged agent_id message_id token now) _ db0 k0 λ moved db1 e1 k1.
          elim (Bool-cases moved) [
            | inl e ↦
                let start = lift-same (validate_token token) db e0 in
                let (ds, ms) = terminalize-keeps now db1 after (ground arith) in
                let (miss, repeat) =
                  moved_again now later db db1 after distinct (ground arith) ds ms in
                repeat_ok later after after (validated db db0 e0) miss repeat
            | inr e ↦
                let start = lift-same (validate_token token) db e0 in
                let missed : settle_miss agent_id message_id token Settlement.acknowledged db
                    ≡ ok (tt, after) =
                  ground arith in
                let same : after ≡ db =
                  ground (
                    arith,
                    settle_miss-Reads agent_id message_id token Settlement.acknowledged db,
                  ) in
                let miss = unmoved_again now later db db1 le distinct (ground arith) in
                rw same (repeat_ok later db _ (validated db db0 e0) miss (ground arith))
          ]
