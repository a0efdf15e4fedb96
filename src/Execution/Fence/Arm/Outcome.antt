-- ===== src/Execution/Fence/Arm/Outcome.antt =====
-- crates/execution/src/invocation.rs: what arming an invocation asks for, and what it leaves.
use fleetd.Base.{
  ℕ, ◌<◌, true, false, ◌&&◌, ◌≡◌, refl, ◌∙◌, ap, subst, String, List, arith, ◌==◌, str_eq,
  str_eq_iff, some, inl, inr, Bool-cases, Bool, if◌then◌else◌,
}
use mathlib.Core.Option
use fleetd.Error.{ok}
use fleetd.Table.{update, find}
use fleetd.Table.Laws.{find-update, find-holds}
use fleetd.Model.{ArmInvocation, InvocationState}
use fleetd.Db.{Db, DeliveryRow, InvocationRow}
use fleetd.Db.Statements.{update_invocations}
use fleetd.Db.Tx.{bind_ok}
use fleetd.Kernel.Delivery.{in_window}
use fleetd.Execution.Answers.{is_live}
use fleetd.Execution.Invocation.{
  Invocation, Fenced, invocation_with_delivery, invocation_by_id, validate_invocation_fence,
  validate_static_fence, validate_live_lease,
}
use fleetd.Execution.Invocation.Arm.{
  arm_invocation_transaction, arm_as, arm_reserved, set_armed, validate_arm,
}

-- The attempt of that id, of that agent.
abbrev pub is_own : String → String → InvocationRow → Bool
is_own agent_id invocation_id i = str_eq i.id invocation_id && str_eq i.agent_id agent_id

abbrev pub is_waiting : InvocationRow → Bool
is_waiting i = elim i.state [ InvocationState.reserved ↦ true | _ ↦ false ]

abbrev pub is_dispatched : InvocationRow → Bool
is_dispatched i = elim i.state [ InvocationState.dispatch_armed ↦ true | _ ↦ false ]

abbrev pub dispatched : ℕ → InvocationRow → InvocationRow
dispatched now i = record i {
  state = InvocationState.dispatch_armed;
  dispatch_armed_at_ms = some now;
}

-- A reserved attempt is armed now; an armed one stays as it was.
abbrev pub armed_own : ℕ → InvocationRow → InvocationRow
armed_own now i = if is_waiting i then dispatched now i else i

pub record Arms (agent_id invocation_id : String) (input : ArmInvocation) (now : ℕ) (db after : Db)
    : Type 0 where
  pub own : InvocationRow
  pub found : find (is_own agent_id invocation_id) db.invocations ≡ some own
  -- The caller has the attempt's tokens, and both leases are live.
  pub lease : own.lease_token ≡ input.lease_token
  pub fence : own.fence_token ≡ input.fence_token
  pub unexpired : now < own.lease_expires_at_ms
  pub delivery : DeliveryRow
  pub at :
      find (λ d. d.message_seq == own.message_seq && str_eq d.agent_id own.agent_id) db.deliveries
      ≡ some delivery
  pub live : is_live input.lease_token now delivery ≡ true
  -- The attempt is armed afterwards, and nothing else has changed.
  pub armed : find (is_own agent_id invocation_id) after.invocations ≡ some (armed_own now own)
  pub is_armed : is_dispatched (armed_own now own) ≡ true
  pub rest : after ≡ record db {
    invocations =
        if is_waiting own
        then update
            (λ i. is_own agent_id invocation_id i && is_waiting i)
            (dispatched now)
            db.invocations
        else db.invocations;
  }

module _ (agent_id invocation_id : String) (input : ArmInvocation) (now : ℕ) where
  pub read-effect :
      (db after : Db) (row : Fenced)
      → invocation_with_delivery agent_id invocation_id db ≡ ok (row, after)
      → (after ≡ db)
        × (find (is_own agent_id invocation_id) db.invocations ≡ some row.invocation)
        × (find
              (λ d.
                d.message_seq == row.invocation.message_seq
                && str_eq d.agent_id row.invocation.agent_id)
              db.deliveries
            ≡ some row.delivery)
  unfolding invocation_with_delivery
  read-effect db after row h = ground arith

  fence-effect :
      (db after : Db) (row : Fenced)
      → validate_invocation_fence row input now db ≡ ok (tt, after)
      → (after ≡ db)
        × (row.invocation.lease_token ≡ input.lease_token)
        × (row.invocation.fence_token ≡ input.fence_token)
        × (now < row.invocation.lease_expires_at_ms)
        × (is_live input.lease_token now row.delivery ≡ true)
  unfolding validate_invocation_fence validate_static_fence validate_live_lease in_window
  fence-effect db after row h = ground (
    arith,
    str_eq_iff row.invocation.lease_token input.lease_token,
    str_eq_iff row.invocation.fence_token input.fence_token,
  )

  abbrev armed_db : Db → InvocationRow → Db
  armed_db db own = record db {
    invocations =
        if is_waiting own
        then update (λ i. is_own agent_id invocation_id i && is_waiting i) (dispatched now)
            db.invocations
        else db.invocations;
  }

  arm-changes :
      (db after : Db) (own : InvocationRow)
      → arm_as own.state agent_id invocation_id now db ≡ ok (tt, after)
      → (is_dispatched (armed_own now own) ≡ true) × (after ≡ armed_db db own)
  unfolding arm_as arm_reserved set_armed update_invocations
  arm-changes db after own h = ground arith

  own_after :
      (rs : List InvocationRow) (own : InvocationRow)
      → find (is_own agent_id invocation_id) rs ≡ some own
      → find (is_own agent_id invocation_id) (
          if is_waiting own
          then update (λ i. is_own agent_id invocation_id i && is_waiting i) (dispatched now) rs
          else rs)
        ≡ some (armed_own now own)
  own_after rs own e =
      (let on = find-holds (is_own agent_id invocation_id) rs own e in
        elim (Bool-cases (is_waiting own)) [
          | inr w ↦ rw w e
          | inl w ↦ rw w (
              find-update (λ i. is_own agent_id invocation_id i && is_waiting i) (dispatched now)
                (is_own agent_id invocation_id) (λ i. refl) rs
              ∙ ap (Option.map _) e
              ∙ rw (on, w) refl)
        ])

  checks_same : (db after : Db) → validate_arm invocation_id input db ≡ ok (tt, after) → after ≡ db
  unfolding validate_arm
  checks_same db after h = ground arith

  reread_same :
      (db after : Db) (i : Invocation)
      → invocation_by_id invocation_id db ≡ ok (i, after)
      → after ≡ db
  unfolding invocation_by_id
  reread_same db after i h = ground arith

  -- Arming an invocation, when it commits, was asked with the lease and fence tokens of the
  -- invocation of that id and agent, before the expiry of its lease, and while its delivery was
  -- leased under that token with a live lease. Afterwards that invocation is armed: a reserved one
  -- since now, one that was armed already as it was. Nothing else has changed.
  pub arm-Arms :
      (db after : Db) (result : Invocation)
      → arm_invocation_transaction agent_id invocation_id input now db ≡ ok (result, after)
      → Arms agent_id invocation_id input now db after
  unfolding arm_invocation_transaction
  arm-Arms db after result h = bind_ok (validate_arm invocation_id input) _ db h λ u0 db0 e0 k0.
      bind_ok (invocation_with_delivery agent_id invocation_id) _ db0 k0 λ row db1 e1 k1.
        bind_ok (validate_invocation_fence row input now) _ db1 k1 λ u2 db2 e2 k2.
          bind_ok (arm_as row.invocation.state agent_id invocation_id now) _ db2 k2 λ u3 db3 e3 k3.
            let start : db0 ≡ db = checks_same db db0 e0 in
            let (read, found, at) = read-effect db0 db1 row e1 in
            let (kept, lease, fence, unexpired, live) = fence-effect db1 db2 row e2 in
            let (armed, rest) = arm-changes db2 db3 row.invocation e3 in
            let from : db2 ≡ db = kept ∙ read ∙ start in
            let last : after ≡ db3 = reread_same db3 after result k3 in
            let changes = last ∙ subst (λ x. db3 ≡ armed_db x row.invocation) from rest in
            let own =
              subst (λ x. find (is_own agent_id invocation_id) x.invocations ≡ some row.invocation)
                start found in
            record {
              own = row.invocation;
              found = own;
              lease = lease;
              fence = fence;
              unexpired = unexpired;
              delivery = row.delivery;
              at =
                  subst
                    (λ x.
                      find
                        (λ d.
                          d.message_seq == row.invocation.message_seq
                          && str_eq d.agent_id row.invocation.agent_id)
                        x.deliveries
                      ≡ some row.delivery)
                    start at;
              live = live;
              armed =
                  ap (λ x. find (is_own agent_id invocation_id) x.invocations) changes
                  ∙ own_after db.invocations row.invocation own;
              is_armed = armed;
              rest = changes;
            }
