-- ===== src/Execution/Fence/Arm.antt =====
-- crates/execution/src/invocation.rs: the invocation fence under `arm_invocation_transaction`.
pub mod Outcome
pub mod Retry
use fleetd.Base.{ℕ, true, false, ◌≡◌, String, List, arith, ◌⊎◌, inl, inr, subst, sym}
use fleetd.Error.{ok}
use fleetd.Table.{update}
use fleetd.Table.Laws.{Distinct-update, All-update}
use fleetd.Model.{ArmInvocation}
use fleetd.Db.{Db, DeliveryRow, InvocationRow}
use fleetd.Db.Statements.{update_invocations}
use fleetd.Execution.Invocation.{
  Invocation, invocation_with_delivery, invocation_by_id, validate_invocation_fence,
  validate_static_fence, validate_live_lease,
}
use fleetd.Execution.Invocation.Arm.{
  arm_invocation_transaction, arm_as, arm_reserved, reserved_row, set_armed, validate_arm,
}
use fleetd.Execution.Fence.{holds_lease, is_fenced, rivals, IsFenced}

-- Arming marks the reserved invocation, or finds it armed and changes nothing.
pub arm-effect :
    (agent_id invocation_id : String) (input : ArmInvocation) (now : ℕ) (db after : Db)
    (result : Invocation)
    → arm_invocation_transaction agent_id invocation_id input now db ≡ ok (result, after)
    → (after ≡ db)
      ⊎ (after ≡ record db {
        invocations = update (reserved_row agent_id invocation_id) (set_armed now) db.invocations;
      })
unfolding arm_invocation_transaction arm_as arm_reserved update_invocations invocation_with_delivery
    invocation_by_id validate_invocation_fence validate_static_fence validate_live_lease
    validate_arm
arm-effect agent_id invocation_id input now db after result h = ground arith

module _ (agent_id invocation_id : String) (now : ℕ) where
  armed_fenced :
      (ds : List DeliveryRow) (i : InvocationRow)
      → is_fenced ds i ≡ true
      → reserved_row agent_id invocation_id i ≡ true
      → is_fenced ds (set_armed now i) ≡ true
  unfolding is_fenced set_armed holds_lease
  armed_fenced ds i f e = ground arith

  armed_rivals :
      (r s : InvocationRow)
      → reserved_row agent_id invocation_id s ≡ true
      → rivals r s ≡ false
      → rivals r (set_armed now s) ≡ false
  unfolding set_armed
  armed_rivals r s e h = ground arith

  armed_rivals_left :
      (r s : InvocationRow)
      → reserved_row agent_id invocation_id r ≡ true
      → rivals r s ≡ false
      → rivals (set_armed now r) s ≡ false
  unfolding set_armed
  armed_rivals_left r s e h = ground arith

  armed-IsFenced :
      (db : Db)
      → IsFenced db
      → IsFenced (record db {
        invocations = update (reserved_row agent_id invocation_id) (set_armed now) db.invocations;
      })
  armed-IsFenced db v = record {
    fenced =
        All-update (reserved_row agent_id invocation_id) (set_armed now)
          (armed_fenced db.deliveries) (λ i f _. f) db.invocations v.fenced;
    single =
        Distinct-update rivals (reserved_row agent_id invocation_id) (set_armed now) armed_rivals
          armed_rivals_left db.invocations v.single;
    distinct = v.distinct;
  }

  -- Arming an invocation, when it commits, keeps the invocation fence.
  pub arm-IsFenced :
      (input : ArmInvocation) (db after : Db) (result : Invocation)
      → IsFenced db
      → arm_invocation_transaction agent_id invocation_id input now db ≡ ok (result, after)
      → IsFenced after
  arm-IsFenced input db after result v h =
      elim (arm-effect agent_id invocation_id input now db after result h) [
        | inl e ↦ subst IsFenced (sym e) v
        | inr e ↦ subst IsFenced (sym e) (armed-IsFenced db v)
      ]
