-- ===== src/Kernel/Delivery/Deciding/Repeat.antt =====
-- crates/kernel/src/delivery.rs: a second decision on a decided block.
use fleetd.Base.{ℕ, ◌≤◌, true, false, ◌≡◌, some, arith, inl, inr}
use fleetd.Error.{ok, err, conflict}
use fleetd.Model.{ResolveDeliveryBlock}
use fleetd.Db.{Db, DeliveryRow, BlockRow}
use fleetd.Db.Tx.{bind_ok, lift, to_i64, to_i64-same}
use fleetd.Kernel.Delivery.Validate.{validate_resolution}
use fleetd.Kernel.Delivery.Bounds.{validate_resolution-ok}
use fleetd.Kernel.Delivery.Block.{
  resolution_row, resolution_is_replay, same_resolution, set_resolved, apply_resolution,
  resolve_delivery_block_transaction,
}
use fleetd.Kernel.Delivery.Deciding.{
  row-reads, row-found, decided-again, first-decision, decided-replay,
}

module _ (block_id : ℕ) (input : ResolveDeliveryBlock) where
  valid :
      (db after : Db)
      → lift (validate_resolution block_id input) db ≡ ok (tt, after)
      → validate_resolution block_id input ≡ ok tt
  valid db after h = ground arith

  -- An operator's decision on a block, once it has succeeded, can be repeated at any time: the
  -- repeat succeeds and changes nothing.
  pub resolve-again :
      (now later : ℕ) (db after : Db)
      → resolve_delivery_block_transaction block_id input now db ≡ ok (tt, after)
      → resolve_delivery_block_transaction block_id input later after ≡ ok (tt, after)
  unfolding resolve_delivery_block_transaction to_i64
  resolve-again now later db after h =
      bind_ok (lift (validate_resolution block_id input)) _ db h λ checked db0 e0 k0.
        bind_ok (to_i64 "retry delay is too large" input.retry_after_ms) _ db0 k0 λ delay db1 e1 k1.
          bind_ok (resolution_row block_id) _ db1 k1 λ (b, d) db2 e2 k2.
            let (same2, at, held) = row-reads block_id input db1 db2 b d e2 in
            let (row, reread, again) =
              decided-again block_id input now later delay b d db2 after (rw same2 at)
                (rw same2 held) k2 in
            let (same, _) = to_i64-same "retry delay is too large" input.retry_after_ms db0 e1 in
            ground (arith, valid db db0 e0, e1, reread, again, same)

  -- A decided row refuses another decision.
  other-conflicts :
      (other : ResolveDeliveryBlock) (delay delay' later : ℕ) (b : BlockRow) (d : DeliveryRow)
      (db db' : Db)
      → resolution_is_replay b input delay db ≡ ok (true, db)
      → same_resolution (some input.resolution) other.resolution ≡ false
      → apply_resolution block_id other delay' later (b, d) db'
        ≡ err (conflict "delivery block was already resolved differently")
  unfolding apply_resolution resolution_is_replay
  other-conflicts other delay delay' later b d db db' h apart = ground arith

  delay-fits :
      (n : ℕ) (db : Db) → n ≤ 86400000 → to_i64 "retry delay is too large" n db ≡ ok (n, db)
  unfolding to_i64
  delay-fits n db h = ground arith

  -- Once a block has been decided, a valid decision that resolves it the other way is refused as a
  -- conflict.
  pub resolve-conflict :
      (other : ResolveDeliveryBlock) (now later : ℕ) (db after : Db)
      → resolve_delivery_block_transaction block_id input now db ≡ ok (tt, after)
      → validate_resolution block_id other ≡ ok tt
      → same_resolution (some input.resolution) other.resolution ≡ false
      → resolve_delivery_block_transaction block_id other later after
        ≡ err (conflict "delivery block was already resolved differently")
  unfolding resolve_delivery_block_transaction
  resolve-conflict other now later db after h checked apart =
      bind_ok (lift (validate_resolution block_id input)) _ db h λ u0 db0 e0 k0.
        bind_ok (to_i64 "retry delay is too large" input.retry_after_ms) _ db0 k0 λ delay db1 e1 k1.
          bind_ok (resolution_row block_id) _ db1 k1 λ (b, d) db2 e2 k2.
            let (same2, at, held) = row-reads block_id input db1 db2 b d e2 in
            let short =
              delay-fits other.retry_after_ms after
                ((validate_resolution-ok block_id other).0 checked).1 in
            elim (first-decision block_id input now delay b d db2 after (rw same2 at)
              (rw same2 held) k2) [
                | inl (same, replay) ↦
                    let reread : resolution_row block_id after ≡ ok ((b, d), after) =
                      rw (same, same2) (row-found block_id input db1 b d at held) in
                    ground (
                      arith,
                      checked,
                      short,
                      reread,
                      other-conflicts other delay other.retry_after_ms later b d db2 after replay
                          apart,
                    )
                | inr (d', reread) ↦ ground (
                  arith,
                  checked,
                  short,
                  reread,
                  other-conflicts other delay other.retry_after_ms later
                      (set_resolved input delay now b) d' after after
                      (decided-replay block_id input delay now b after) apart,
                )
              ]
