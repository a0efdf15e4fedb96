-- ===== src/Kernel/Message/Keep.antt =====
-- crates/kernel/src/store/message.rs: what an insert leaves of the deliveries.
use fleetd.Base.{
  ℕ, Bool, not, ◌≡◌, some, String, List, [], ◌∷◌, ◌++◌, arith, inl, inr, Bool-cases, ◌∙◌, sym,
  concat,
}
use fleetd.Error.{ok, conflict}
use fleetd.Table.{find}
use fleetd.Table.Laws.{find-append_some}
use fleetd.Model.{CreateMessage}
use fleetd.Db.{Db, DeliveryRow, MessageRow, Message}
use fleetd.Db.Tx.{bind_ok, fail_if}
use fleetd.Kernel.Delivery.Block.{is_unset}
use fleetd.Kernel.Delivery.Claim.{is_among}
use fleetd.Kernel.Message.{
  channel_row, ensure_member, ensure_recipient, snapshot, insert_deliveries,
  insert_delivery_snapshot, insert_message_row, insert_message,
}
use fleetd.Kernel.Message.Append.{member-same, recipient-same, channel-same}

module _ (k : DeliveryRow → Bool) (found : DeliveryRow) where
  keeps_found :
      (rows : List DeliveryRow) (db after : Db)
      → find k db.deliveries ≡ some found
      → insert_deliveries rows db ≡ ok (tt, after)
      → find k after.deliveries ≡ some found
  unfolding insert_deliveries
  keeps_found [] db after e h = (let same : db ≡ after = ground arith in rw (sym same) e)
  keeps_found (d ∷ ds) db after e h = elim (Bool-cases (is_among db.deliveries d)) [
    | inl a ↦ absurd (ground arith)
    | inr a ↦
        keeps_found ds (record db { deliveries = db.deliveries ++ d ∷ [] }) after
          (find-append_some k db.deliveries (d ∷ []) found e) (ground arith)
  ]

  insert_row-deliveries :
      (id : String) (created_at : ℕ) (channel_id : String) (input : CreateMessage) (db after : Db)
      (row : MessageRow)
      → insert_message_row id created_at channel_id input db ≡ ok (row, after)
      → after.deliveries ≡ db.deliveries
  unfolding insert_message_row
  insert_row-deliveries id created_at channel_id input db after row h = ground arith

  -- A delivery that is found before a message is inserted is found unchanged afterwards.
  pub insert_message-keeps :
      (id : String) (created_at : ℕ) (channel_id : String) (input : CreateMessage) (db after : Db)
      (message : Message)
      → find k db.deliveries ≡ some found
      → insert_message id created_at channel_id input db ≡ ok (message, after)
      → find k after.deliveries ≡ some found
  unfolding insert_message insert_delivery_snapshot
  insert_message-keeps id created_at channel_id input db after message e h =
      bind_ok (channel_row channel_id) _ db h λ channel db0 e0 k0.
        bind_ok
          (fail_if (not (is_unset channel.archived_at_ms))
            (conflict (concat ("channel is archived: " ∷ channel_id ∷ []))))
          _ db0 k0
          λ u1 db1 e1 k1.
            bind_ok (ensure_member channel_id input.sender_id) _ db1 k1 λ u2 db2 e2 k2.
              bind_ok (ensure_recipient channel_id input.recipient_id) _ db2 k2 λ u3 db3 e3 k3.
                bind_ok (insert_message_row id created_at channel_id input) _ db3 k3
                  λ row db4 e4 k4.
                    bind_ok
                      (insert_delivery_snapshot channel_id input.sender_id input.recipient_id
                        row.seq created_at)
                      _ db4 k4
                      λ u5 db5 e5 k5.
                        let open_channel : db1 ≡ db0 = ground arith in
                        let start : db3 ≡ db =
                          recipient-same channel_id input.recipient_id db2 db3 e3
                          ∙ member-same channel_id input.sender_id db1 db2 e2
                          ∙ open_channel
                          ∙ channel-same channel_id db db0 channel e0 in
                        let ds =
                          insert_row-deliveries id created_at channel_id input db3 db4 row e4 in
                        let end : db5 ≡ after = ground arith in
                        rw (sym end) (
                          keeps_found
                            (snapshot db4 channel_id input.sender_id input.recipient_id row.seq
                              created_at)
                            db4 db5 (rw (ds, start) e) e5)
