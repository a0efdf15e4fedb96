-- ===== src/Kernel/Delivery/Deciding.antt =====
-- crates/kernel/src/delivery.rs: what the operator's decision leaves of a block.
pub mod Repeat
use fleetd.Base.{
  ℕ, ◌+◌, ◌≤◌, true, false, ◌≡◌, refl, none, some, String, arith, ◌⊎◌, inl, inr, ◌∙◌, ◌==◌,
  if◌then◌else◌, same_text_refl,
}
use fleetd.Error.{ok, err, conflict}
use fleetd.Table.{update, find}
use fleetd.Table.Laws.{find-update, find-holds}
use fleetd.Model.{ResolveDeliveryBlock, BlockResolution}
use fleetd.Db.{Db, DeliveryRow, BlockRow, delivery_key}
use fleetd.Db.Tx.{bind_ok, lift, to_i64, to_i64-same, checked_add}
use fleetd.Db.Statements.{update_deliveries}
use fleetd.Kernel.Delivery.Validate.{validate_resolution}
use fleetd.Kernel.Delivery.Bounds.{validate_resolution-ok}
use fleetd.Kernel.Delivery.Block.{
  blocked_row, set_requeued, set_dead, resolution_row, resolution_is_replay, same_resolution,
  resolve_row_as, resolve_delivery_row, unresolved_block, set_resolved, mark_block_resolved,
  apply_resolution, resolve_delivery_block_transaction,
}

same_resolution_refl : (r : BlockResolution) → same_resolution (some r) r ≡ true
same_resolution_refl BlockResolution.requeue = refl
same_resolution_refl BlockResolution.abandon = refl

module _ (block_id : ℕ) (input : ResolveDeliveryBlock) where
  -- A row that holds the decision makes it a replay.
  decided-replay :
      (delay now : ℕ) (b : BlockRow) (db : Db)
      → resolution_is_replay (set_resolved input delay now b) input delay db ≡ ok (true, db)
  unfolding resolution_is_replay set_resolved
  decided-replay delay now b db =
      ground (arith, same_resolution_refl input.resolution, same_text_refl input.note)

  replay-applies :
      (now delay : ℕ) (b : BlockRow) (d : DeliveryRow) (db : Db)
      → resolution_is_replay b input delay db ≡ ok (true, db)
      → apply_resolution block_id input delay now (b, d) db ≡ ok (tt, db)
  unfolding apply_resolution
  replay-applies now delay b d db h = ground arith

  apply-cases :
      (now delay : ℕ) (b : BlockRow) (d : DeliveryRow) (db after : Db)
      → apply_resolution block_id input delay now (b, d) db ≡ ok (tt, after)
      → ((after ≡ db) × (resolution_is_replay b input delay db ≡ ok (true, db)))
        ⊎ ((b.resolved_at_ms ≡ none)
            × (after.blocks
                ≡ update (unresolved_block block_id) (set_resolved input delay now) db.blocks)
            × ((after.deliveries
                  ≡ update
                      (blocked_row b.message_seq b.agent_id)
                      (set_requeued (now + delay) input.note)
                      db.deliveries)
                ⊎ (after.deliveries
                    ≡ update
                        (blocked_row b.message_seq b.agent_id)
                        (set_dead input.note)
                        db.deliveries)))
  unfolding apply_resolution resolution_is_replay resolve_delivery_row resolve_row_as
      mark_block_resolved update_deliveries checked_add
  apply-cases now delay b d db after h = ground arith

  -- What `resolution_row` reads.
  row-reads :
      (db after : Db) (b : BlockRow) (d : DeliveryRow)
      → resolution_row block_id db ≡ ok ((b, d), after)
      → (after ≡ db)
        × (find (λ b. b.id == block_id) db.blocks ≡ some b)
        × (find (delivery_key b.message_seq b.agent_id) db.deliveries ≡ some d)
  unfolding resolution_row
  row-reads db after b d h = ground arith

  row-found :
      (db : Db) (b : BlockRow) (d : DeliveryRow)
      → find (λ b. b.id == block_id) db.blocks ≡ some b
      → find (delivery_key b.message_seq b.agent_id) db.deliveries ≡ some d
      → resolution_row block_id db ≡ ok ((b, d), db)
  unfolding resolution_row
  row-found db b d e f = ground arith

  -- The block and its delivery as the first decision leaves them.
  block-after :
      (now delay : ℕ) (b : BlockRow) (db after : Db)
      → b.resolved_at_ms ≡ none
      → find (λ b. b.id == block_id) db.blocks ≡ some b
      → after.blocks ≡ update (unresolved_block block_id) (set_resolved input delay now) db.blocks
      → find (λ b. b.id == block_id) after.blocks ≡ some (set_resolved input delay now b)
  unfolding set_resolved
  block-after now delay b db after unset at e = ground (
    arith,
    find-update (unresolved_block block_id) (set_resolved input delay now) (λ b. b.id == block_id)
        (λ r. refl) db.blocks,
    find-holds (λ b. b.id == block_id) db.blocks b at,
  )

  delivery-after :
      (b : BlockRow) (set : DeliveryRow → DeliveryRow) (d : DeliveryRow) (db after : Db)
      → ((r : DeliveryRow)
          → delivery_key b.message_seq b.agent_id (set r) ≡ delivery_key b.message_seq b.agent_id r)
      → find (delivery_key b.message_seq b.agent_id) db.deliveries ≡ some d
      → after.deliveries ≡ update (blocked_row b.message_seq b.agent_id) set db.deliveries
      → (d' : DeliveryRow) × (find (delivery_key b.message_seq b.agent_id) after.deliveries
          ≡ some d')
  delivery-after b set d db after keeps at e = (
    (if blocked_row b.message_seq b.agent_id d then set d else d),
    rw e (
        find-update (blocked_row b.message_seq b.agent_id) set
          (delivery_key b.message_seq b.agent_id) keeps db.deliveries
        ∙ rw at refl),
  )

  requeued-key :
      (at seq : ℕ) (agent_id : String) (d : DeliveryRow)
      → delivery_key seq agent_id (set_requeued at input.note d) ≡ delivery_key seq agent_id d
  unfolding set_requeued
  requeued-key at seq agent_id d = refl

  dead-key :
      (seq : ℕ) (agent_id : String) (d : DeliveryRow)
      → delivery_key seq agent_id (set_dead input.note d) ≡ delivery_key seq agent_id d
  unfolding set_dead
  dead-key seq agent_id d = refl

  -- The row that a later decision reads, after this one.
  abbrev Rereads : BlockRow → ℕ → ℕ → Db → Type 0
  Rereads b delay now after =
      (d : DeliveryRow) × (resolution_row block_id after
        ≡ ok ((set_resolved input delay now b, d), after))

  rereads :
      (now delay : ℕ) (b : BlockRow) (d' : DeliveryRow) (after : Db)
      → find (λ b. b.id == block_id) after.blocks ≡ some (set_resolved input delay now b)
      → find (delivery_key b.message_seq b.agent_id) after.deliveries ≡ some d'
      → Rereads b delay now after
  unfolding set_resolved
  rereads now delay b d' after at held =
      (d', row-found after (set_resolved input delay now b) d' at held)

  first-decision :
      (now delay : ℕ) (b : BlockRow) (d : DeliveryRow) (db after : Db)
      → find (λ b. b.id == block_id) db.blocks ≡ some b
      → find (delivery_key b.message_seq b.agent_id) db.deliveries ≡ some d
      → apply_resolution block_id input delay now (b, d) db ≡ ok (tt, after)
      → ((after ≡ db) × (resolution_is_replay b input delay db ≡ ok (true, db)))
        ⊎ Rereads b delay now after
  first-decision now delay b d db after at held h = elim (apply-cases now delay b d db after h) [
    | inl same ↦ inl same
    | inr (unset, blocks, inl moved) ↦
        let (d', e) =
          delivery-after b (set_requeued (now + delay) input.note) d db after
            (requeued-key (now + delay) b.message_seq b.agent_id) held moved in
        inr (rereads now delay b d' after (block-after now delay b db after unset at blocks) e)
    | inr (unset, blocks, inr moved) ↦
        let (d', e) =
          delivery-after b (set_dead input.note) d db after (dead-key b.message_seq b.agent_id) held
            moved in
        inr (rereads now delay b d' after (block-after now delay b db after unset at blocks) e)
  ]

  decided-again :
      (now later delay : ℕ) (b : BlockRow) (d : DeliveryRow) (db after : Db)
      → find (λ b. b.id == block_id) db.blocks ≡ some b
      → find (delivery_key b.message_seq b.agent_id) db.deliveries ≡ some d
      → apply_resolution block_id input delay now (b, d) db ≡ ok (tt, after)
      → (row : BlockRow × DeliveryRow) × (resolution_row block_id after ≡ ok (row, after))
        × (apply_resolution block_id input delay later row after ≡ ok (tt, after))
  decided-again now later delay b d db after at held h =
      elim (first-decision now delay b d db after at held h) [
        | inl (same, replay) ↦ (
          (b, d),
          rw same (row-found db b d at held),
          rw same (replay-applies later delay b d db replay),
        )
        | inr (d', e) ↦ (
          (set_resolved input delay now b, d'),
          e,
          replay-applies later delay (set_resolved input delay now b) d' after
              (decided-replay delay now b after),
        )
      ]
