-- ===== src/Execution/Fence/Arm/Retry.antt =====
-- crates/execution/src/settlement.rs and invocation.rs: an armed attempt is not released for another.
use fleetd.Base.{
  ℕ, Bool, not, true, ◌≡◌, ◌∙◌, ap, sym, subst, String, List, arith, str_eq, str_eq_iff, some, none,
  inl, inr, Option-cases, All,
}
use fleetd.Error.{ok}
use fleetd.Table.{find}
use fleetd.Table.Laws.{find-holds, find-some, Distinct-equal, All-find}
use fleetd.Model.{ArmInvocation, RetryDelivery}
use fleetd.Db.{Db, InvocationRow, MessageRow, of_message}
use fleetd.Db.Tx.{to_i64, checked_add}
use fleetd.Db.Demands.{Demands, Refuses, refuses}
use fleetd.Execution.Settlement.{retry_delivery}
use fleetd.Execution.Invocation.{Invocation}
use fleetd.Execution.Invocation.Arm.{arm_invocation_transaction}
use fleetd.Execution.Invocation.Complete.{ensure_retry_is_safe}
use fleetd.Execution.Session.Turn.{open_under_lease, is_armed}
use fleetd.Execution.Fence.{IsFenced, rivals}
use fleetd.Execution.Fence.Recover.Listing.{rivals-symmetric}
use fleetd.Execution.Fence.Arm.{arm-IsFenced}
use fleetd.Execution.Fence.Arm.Outcome.{arm-Arms, is_own, armed_own, is_dispatched}

-- A retry finds no armed attempt under its lease.
module _ (agent_id message_id : String) (input : RetryDelivery) (now : ℕ) where
  abbrev IsReleasable : Db → Type 0
  IsReleasable db =
      elim (find (open_under_lease db.messages agent_id message_id input.lease_token)
          db.invocations)
        as (λ _. Bool) [ none ↦ true | some i ↦ not (is_armed i.state) ]
      ≡ true

  retry-IsReleasable : Demands IsReleasable (retry_delivery agent_id message_id input now)
  unfolding retry_delivery ensure_retry_is_safe to_i64 checked_add
  retry-IsReleasable = record { demanded = λ db after a h. ground arith }

one_message :
    (messages : List MessageRow) (id : String) (m n : ℕ)
    → of_message messages id m ≡ true
    → of_message messages id n ≡ true
    → m ≡ n
one_message messages id m n h k = ground arith

module _ (agent_id message_id token : String) (db : Db) (own : InvocationRow)
    (v : IsFenced db) where
  -- Under the lease of an open attempt there is no other open one.
  sole_open :
      (p : InvocationRow → Bool)
      → find p db.invocations ≡ some own
      → open_under_lease db.messages agent_id message_id token own ≡ true
      → find (open_under_lease db.messages agent_id message_id token) db.invocations ≡ some own
  sole_open p e is_open =
      elim (Option-cases
        (find (open_under_lease db.messages agent_id message_id token) db.invocations)) [
          | inl q ↦ absurd (
              find-some p (open_under_lease db.messages agent_id message_id token) db.invocations
                own e is_open q)
          | inr (i, q) ↦
              let on =
                find-holds (open_under_lease db.messages agent_id message_id token) db.invocations i
                  q in
              let alone =
                All-find p (λ r. All (λ s. rivals r s ≡ true → r ≡ s) db.invocations) db.invocations
                  own (Distinct-equal rivals rivals-symmetric db.invocations v.single) e in
              let same =
                All-find (open_under_lease db.messages agent_id message_id token)
                  (λ s. rivals own s ≡ true → own ≡ s) db.invocations i alone q in
              let rival : rivals own i ≡ true = ground (
                arith,
                on,
                is_open,
                one_message db.messages message_id own.message_seq i.message_seq,
                str_eq_iff own.agent_id agent_id,
                str_eq_iff i.agent_id agent_id,
                str_eq_iff own.agent_id i.agent_id,
              ) in
              q ∙ ap some (sym (same rival))
        ]

still_open :
    (agent_id message_id token : String) (messages : List MessageRow) (now : ℕ)
    (own : InvocationRow)
    → str_eq own.agent_id agent_id ≡ true
    → of_message messages message_id own.message_seq ≡ true
    → own.lease_token ≡ token
    → is_dispatched (armed_own now own) ≡ true
    → (open_under_lease messages agent_id message_id token (armed_own now own) ≡ true)
      × (is_armed (armed_own now own).state ≡ true)
still_open agent_id message_id token messages now own a m l d =
    ground (arith, str_eq_iff own.lease_token token)

-- Where the invocation fence holds, once arming the invocation of an agent's message has
-- committed, a retry of that message by the agent under the lease token of the arming is refused,
-- at any time.
pub arm-retry :
    (agent_id invocation_id message_id : String) (input : ArmInvocation) (retry : RetryDelivery)
    (now later : ℕ) (db after : Db) (result : Invocation) (own : InvocationRow)
    → IsFenced db
    → find (is_own agent_id invocation_id) db.invocations ≡ some own
    → of_message db.messages message_id own.message_seq ≡ true
    → retry.lease_token ≡ input.lease_token
    → arm_invocation_transaction agent_id invocation_id input now db ≡ ok (result, after)
    → Refuses (retry_delivery agent_id message_id retry later) after
arm-retry agent_id invocation_id message_id input retry now later db after result own v e m token
      h =
    refuses _ after (retry-IsReleasable agent_id message_id retry later) λ released.
      let a = arm-Arms agent_id invocation_id input now db after result h in
      let same : a.own ≡ own = ground (arith, a.found, e) in
      let on = find-holds (is_own agent_id invocation_id) db.invocations a.own a.found in
      let messages : after.messages ≡ db.messages = ap (λ x. x.messages) a.rest in
      let (is_open, armed) =
        still_open agent_id message_id retry.lease_token after.messages now a.own
          (ground (arith, on))
          (rw messages
            (subst (λ i. of_message db.messages message_id i.message_seq ≡ true) (sym same) m))
          (a.lease ∙ sym token) a.is_armed in
      let found =
        sole_open agent_id message_id retry.lease_token after (armed_own now a.own)
          (arm-IsFenced agent_id invocation_id now input db after result v h)
          (is_own agent_id invocation_id) a.armed is_open in
      absurd (ground (arith, found, armed, released))
