-- ===== src/Execution/Fence/Append.antt =====
-- crates/kernel/src/store/message.rs: the invocation fence under new messages and deliveries.
use fleetd.Base.{
  ℕ, true, not, ◌≡◌, refl, String, List, [], ◌∷◌, ◌++◌, arith, All-map, inl, inr, Bool-cases,
  Option-cases, subst, sym, ◌∙◌, ◌⊎◌, concat,
}
use fleetd.Error.{ok}
use fleetd.Table.Laws.{Distinct-append, any-none, find-append_some}
use fleetd.Model.{CreateMessage}
use fleetd.Db.{Db, DeliveryRow, MessageRow, Message, InvocationRow, delivery_key, same_delivery}
use fleetd.Db.Tx.{bind_ok, fail_if}
use fleetd.Error.{conflict}
use fleetd.Kernel.Delivery.Claim.{is_among}
use fleetd.Kernel.Delivery.Block.{is_unset}
use fleetd.Kernel.Message.{
  channel_row, ensure_member, ensure_recipient, snapshot, insert_delivery_snapshot,
  insert_deliveries, insert_message_row, insert_message, AppendMessageResult, append_new, recognise,
  validate_idempotency_key, append_message_in_transaction,
}
use fleetd.Kernel.Message.Append.{member-same, recipient-same, channel-same}
use fleetd.Execution.Fence.{delivery_of, is_fenced, IsFenced}
use fleetd.Execution.Fence.Settle.Preserve.{IsFenced-tables}

still_fenced :
    (ds : List DeliveryRow) (d : DeliveryRow) (i : InvocationRow)
    → is_fenced ds i ≡ true
    → is_fenced (ds ++ d ∷ []) i ≡ true
unfolding is_fenced
still_fenced ds d i f = elim (Option-cases (delivery_of ds i)) [
  | inl e ↦ ground arith
  | inr (c, e) ↦
      ground (arith, find-append_some (delivery_key i.message_seq i.agent_id) ds (d ∷ []) c e)
]

-- New deliveries are held by nobody, and the primary key keeps them apart from the old ones.
insert_deliveries-IsFenced :
    (rows : List DeliveryRow) (db after : Db)
    → IsFenced db
    → insert_deliveries rows db ≡ ok (tt, after)
    → IsFenced after × (after.invocations ≡ db.invocations)
unfolding insert_deliveries
insert_deliveries-IsFenced [] db after v h =
    (let same : db ≡ after = ground arith in (subst IsFenced same v, rw same refl))
insert_deliveries-IsFenced (d ∷ ds) db after v h = elim (Bool-cases (is_among db.deliveries d)) [
  | inl e ↦ absurd (ground arith)
  | inr e ↦
      insert_deliveries-IsFenced ds (record db { deliveries = db.deliveries ++ d ∷ [] }) after
        (record {
          fenced = All-map (still_fenced db.deliveries d) db.invocations v.fenced;
          single = v.single;
          distinct =
              Distinct-append same_delivery db.deliveries d v.distinct
                (any-none (λ c. same_delivery c d) db.deliveries e);
        })
        (ground arith)
]

-- Inserting the message row itself touches no delivery.
insert_row-frame :
    (id : String) (created_at : ℕ) (channel_id : String) (input : CreateMessage) (db after : Db)
    (row : MessageRow)
    → insert_message_row id created_at channel_id input db ≡ ok (row, after)
    → (after.deliveries ≡ db.deliveries) × (after.invocations ≡ db.invocations)
unfolding insert_message_row
insert_row-frame id created_at channel_id input db after row h = ground arith

module _ (id : String) (created_at : ℕ) (channel_id : String) (input : CreateMessage) where
  pub insert_message-IsFenced :
      (db after : Db) (message : Message)
      → IsFenced db
      → insert_message id created_at channel_id input db ≡ ok (message, after)
      → IsFenced after × (after.invocations ≡ db.invocations)
  unfolding insert_message insert_delivery_snapshot
  insert_message-IsFenced db after message v h =
      bind_ok (channel_row channel_id) _ db h λ channel db0 e0 k0.
        bind_ok
          (fail_if (not (is_unset channel.archived_at_ms))
            (conflict (concat ("channel is archived: " ∷ channel_id ∷ []))))
          _ db0 k0
          λ u1 db1 e1 k1.
            bind_ok (ensure_member channel_id input.sender_id) _ db1 k1 λ u2 db2 e2 k2.
              bind_ok (ensure_recipient channel_id input.recipient_id) _ db2 k2 λ u3 db3 e3 k3.
                bind_ok (insert_message_row id created_at channel_id input) _ db3 k3
                  λ row db4 e4 k4.
                    bind_ok
                      (insert_delivery_snapshot channel_id input.sender_id input.recipient_id
                        row.seq created_at)
                      _ db4 k4
                      λ u5 db5 e5 k5.
                        let open_channel : db1 ≡ db0 = ground arith in
                        let start : db3 ≡ db =
                          recipient-same channel_id input.recipient_id db2 db3 e3
                          ∙ member-same channel_id input.sender_id db1 db2 e2
                          ∙ open_channel
                          ∙ channel-same channel_id db db0 channel e0 in
                        let (ds, is) =
                          insert_row-frame id created_at channel_id input db3 db4 row e4 in
                        let end : db5 ≡ after = ground arith in
                        let (v5, kept) =
                          insert_deliveries-IsFenced
                            (snapshot db4 channel_id input.sender_id input.recipient_id row.seq
                              created_at)
                            db4 db5
                            (IsFenced-tables db db4 (rw (ds, start) refl) (rw (is, start) refl) v)
                            e5 in
                        (subst IsFenced end v5, rw (sym end, kept, is, start) refl)

  append-effect :
      (db after : Db) (result : AppendMessageResult)
      → append_message_in_transaction id created_at channel_id input db ≡ ok (result, after)
      → (after ≡ db)
        ⊎ (insert_message id created_at channel_id input db ≡ ok (result.message, after))
  unfolding append_message_in_transaction append_new recognise validate_idempotency_key
  append-effect db after result h = elim (Option-cases input.idempotency_key) [
    | inl e ↦ ground arith
    | inr (key, e) ↦ ground arith
  ]

  -- Appending a message, when it commits, keeps the invocation fence: the deliveries that it adds
  -- have keys of their own, and nobody holds them.
  pub append-IsFenced :
      (db after : Db) (result : AppendMessageResult)
      → IsFenced db
      → append_message_in_transaction id created_at channel_id input db ≡ ok (result, after)
      → IsFenced after
  append-IsFenced db after result v h = elim (append-effect db after result h) [
    | inl e ↦ subst IsFenced (sym e) v
    | inr e ↦ (insert_message-IsFenced db after result.message v e).0
  ]
