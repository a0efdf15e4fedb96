-- ===== src/Execution/Fence/Reserve.antt =====
-- crates/execution/src/invocation.rs: reserving invocations for freshly leased deliveries.
pub mod Fresh
use fleetd.Base.{
  ℕ, suc, ◌+◌, ◌*◌, Bool, true, false, ◌&&◌, ◌||◌, not, ◌≡◌, refl, none, some, Option, String, List,
  [], ◌∷◌, ◌++◌, arith, All, All-map, All-append, str_eq, str_eq_iff, str_eq_refl, holds_text,
  holds_text-eq, leb, ◌==◌, inl, inr, Bool-cases, Option-cases, subst, sym, ◌∙◌,
}
use fleetd.Error.{ok}
use fleetd.Table.{update, count, find}
use fleetd.Table.Laws.{
  All-select, All-order_by, All-both, All-update, select-holds, Distinct-append, Distinct-find,
  count-zero_All,
}
use fleetd.Db.{Db, DeliveryRow, MessageRow, InvocationRow, delivery_key, same_delivery, message_at}
use fleetd.Db.Tx.{bind_ok}
use fleetd.Kernel.Delivery.{is_leased}
use fleetd.Kernel.Delivery.Block.{holds_number}
use fleetd.Kernel.Delivery.Claim.{held, with_messages}
use fleetd.Execution.Session.Turn.{is_terminal}
use fleetd.Execution.Invocation.{Invocation}
use fleetd.Execution.Invocation.Reserve.{
  new_invocation, clashes, insert_invocation, reserve_row, reserve_rows, pair_up,
}
use fleetd.Execution.Fence.{delivery_of, holds_lease, is_fenced, rivals, IsFenced}

module _ (agent_id token : String) (expires now : ℕ) where
  -- A row that is ready to be reserved: it is the delivery of its key, leased to the new attempt.
  pub record Ready (ds : List DeliveryRow) (d : DeliveryRow) : Type 0 where
    pub at : find (delivery_key d.message_seq agent_id) ds ≡ some d
    pub leased : is_leased d.state ≡ true
    pub owned : holds_text d.lease_token token ≡ true
    pub until : holds_number d.lease_expires_at_ms expires ≡ true

  abbrev reservation : String → String → DeliveryRow → InvocationRow
  reservation id fence_token d = new_invocation id fence_token d agent_id token expires now

  new-is_fenced :
      (ds : List DeliveryRow) (id fence_token : String) (d : DeliveryRow)
      → Ready ds d
      → is_fenced ds (reservation id fence_token d) ≡ true
  unfolding is_fenced new_invocation holds_lease
  new-is_fenced ds id fence_token d r = ground (arith, r.at, r.leased, r.owned, r.until)

  -- The UNIQUE key of an attempt keeps a second open invocation off the delivery.
  new-apart :
      (ds : List DeliveryRow) (id fence_token : String) (d : DeliveryRow) (i : InvocationRow)
      → Ready ds d
      → is_fenced ds i ≡ true
      → clashes (reservation id fence_token d) i ≡ false
      → rivals i (reservation id fence_token d) ≡ false
  unfolding is_fenced new_invocation holds_lease
  new-apart ds id fence_token d i r f apart =
      elim (Bool-cases (rivals i (reservation id fence_token d))) [
        | inr e ↦ e
        | inl e ↦
            (let agent : i.agent_id ≡ agent_id = ground (arith, str_eq_iff i.agent_id agent_id) in
              let seq : i.message_seq ≡ d.message_seq = ground arith in
              let same : delivery_of ds i ≡ some d = rw (agent, seq) r.at in ground arith)
      ]

  insert-IsFenced :
      (id fence_token : String) (d : DeliveryRow) (db after : Db)
      → IsFenced db
      → Ready db.deliveries d
      → insert_invocation (reservation id fence_token d) db ≡ ok (tt, after)
      → IsFenced after × (after.deliveries ≡ db.deliveries)
  unfolding insert_invocation
  insert-IsFenced id fence_token d db after v r h =
      (let none_clash : count (clashes (reservation id fence_token d)) db.invocations ≡ 0 =
          ground arith in
        let end : after
            ≡ record db { invocations = db.invocations ++ reservation id fence_token d ∷ [] } =
          ground arith in
        (
          subst IsFenced (sym end) (record {
            fenced =
                All-append _ db.invocations (reservation id fence_token d ∷ []) v.fenced
                  (new-is_fenced db.deliveries id fence_token d r, tt);
            single = Distinct-append rivals db.invocations (reservation id fence_token d) v.single (
                All-map (λ i (f, e). new-apart db.deliveries id fence_token d i r f e)
                  db.invocations
                  (All-both _ _ db.invocations v.fenced (
                    count-zero_All (clashes (reservation id fence_token d)) db.invocations
                      none_clash)));
            distinct = v.distinct;
          }),
          rw end refl,
        ))

  pub reserve_rows-IsFenced :
      (uuid : ℕ → String) (k : ℕ) (rows : List (DeliveryRow × MessageRow)) (db after : Db)
      (result : List Invocation)
      → IsFenced db
      → All (λ row. Ready db.deliveries row.0) rows
      → reserve_rows uuid k rows agent_id token expires now db ≡ ok (result, after)
      → IsFenced after
  unfolding reserve_rows reserve_row
  reserve_rows-IsFenced uuid k [] db after result v r h =
      (let same : db ≡ after = ground arith in subst IsFenced same v)
  reserve_rows-IsFenced uuid k ((d, m) ∷ rows) db after result v r h =
      bind_ok (reserve_row (uuid (2 * k + 1)) (uuid (2 * k + 2)) (d, m) agent_id token expires now)
        _ db h
        λ invocation db1 e1 k1.
          bind_ok (reserve_rows uuid (suc k) rows agent_id token expires now) _ db1 k1
            λ rest db2 e2 k2.
              bind_ok (insert_invocation (reservation (uuid (2 * k + 1)) (uuid (2 * k + 2)) d)) _ db
                e1
                λ u db3 e3 k3.
                  let (v3, ds) =
                    insert-IsFenced (uuid (2 * k + 1)) (uuid (2 * k + 2)) d db db3 v r.0 e3 in
                  let same : db3 ≡ db1 = ground arith in
                  let end : db2 ≡ after = ground arith in
                  subst IsFenced end (
                    reserve_rows-IsFenced uuid (suc k) rows db1 db2 rest (subst IsFenced same v3)
                      (rw (sym same, ds) r.1) e2)
