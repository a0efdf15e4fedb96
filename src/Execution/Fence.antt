-- ===== src/Execution/Fence.antt =====
-- The invocation fence of crates/execution: while an invocation is open, it and no other open
-- invocation holds its delivery, under its own lease.
pub mod Update
pub mod Settle
pub mod Arm
pub mod Resolve
pub mod Recover
pub mod Lease
pub mod Reserve
pub mod Append
pub mod Complete
pub mod Sessions
pub mod Steps
use fleetd.Base.{
  ℕ, Bool, true, false, ◌&&◌, not, ◌≡◌, Option, none, some, List, ◌==◌, str_eq, holds_text, All,
  if◌then◌else◌,
}
use fleetd.Table.{find}
use fleetd.Table.Laws.{Distinct}
use fleetd.Db.{Db, DeliveryRow, InvocationRow, delivery_key, same_delivery}
use fleetd.Kernel.Delivery.{is_leased}
use fleetd.Kernel.Delivery.Block.{holds_number}
use fleetd.Execution.Session.Turn.{is_terminal}

abbrev pub delivery_of : List DeliveryRow → InvocationRow → Option DeliveryRow
delivery_of ds i = find (delivery_key i.message_seq i.agent_id) ds

-- The delivery is leased under the invocation's token, to the invocation's expiry, for the same
-- attempt.
unfoldable pub holds_lease : InvocationRow → DeliveryRow → Bool
holds_lease i d =
    is_leased d.state
    && holds_text d.lease_token i.lease_token
    && holds_number d.lease_expires_at_ms i.lease_expires_at_ms
    && d.attempt == i.delivery_attempt

-- An open invocation has such a delivery.
unfoldable pub is_fenced : List DeliveryRow → InvocationRow → Bool
is_fenced ds i =
    if is_terminal i.state
    then true
    else elim (delivery_of ds i) [ none ↦ false | some d ↦ holds_lease i d ]

-- Two open invocations of one delivery.
abbrev pub rivals : InvocationRow → InvocationRow → Bool
rivals i j =
    not (is_terminal i.state)
    && not (is_terminal j.state)
    && i.message_seq == j.message_seq
    && str_eq i.agent_id j.agent_id

pub record IsFenced (db : Db) : Type 0 where
  pub fenced : All (λ i. is_fenced db.deliveries i ≡ true) db.invocations
  pub single : Distinct rivals db.invocations
  pub distinct : Distinct same_delivery db.deliveries
