-- ===== src/Execution/Fence/Settle.antt =====
-- crates/execution/src/settlement.rs: the invocation fence under a settled lease.
pub mod Effects
pub mod Block
pub mod Preserve
use fleetd.Base.{
  ℕ, Bool, true, false, ◌&&◌, not, ◌≡◌, refl, none, some, String, List, arith, inl, inr, Bool-cases,
  str_eq, str_eq_iff, holds_text, holds_text-eq, ◌⊎◌, sym, subst,
}
use fleetd.Error.{ok}
use fleetd.Table.Laws.{find-holds, All-every}
use fleetd.Model.{ExecutionCertainty, RetryDelivery, BlockDelivery}
use fleetd.Db.{Db, DeliveryRow, MessageRow, InvocationRow, delivery_key, of_message}
use fleetd.Kernel.Delivery.{
  LeasedRow, DeliveryKey, LeaseWindow, key_matches, leased_row, set_acknowledged, set_retry,
  set_blocked,
}
use fleetd.Execution.Session.Turn.{is_terminal, open_under_lease}
use fleetd.Execution.Invocation.Complete.{set_terminal}
use fleetd.Execution.Fence.{delivery_of, holds_lease, IsFenced}
use fleetd.Execution.Fence.Update.{KeepsKey, KeepsFence, updated, updated-IsFenced}

pub acknowledged-KeepsKey : (token : String) (now : ℕ) → KeepsKey (set_acknowledged token now)
unfolding set_acknowledged
acknowledged-KeepsKey token now = record { seq = λ d. refl; agent = λ d. refl }

pub retry-KeepsKey : (input : RetryDelivery) (at : ℕ) → KeepsKey (set_retry input at)
unfolding set_retry
retry-KeepsKey input at = record { seq = λ d. refl; agent = λ d. refl }

pub blocked-KeepsKey : (reason token : String) → KeepsKey (set_blocked reason token)
unfolding set_blocked
blocked-KeepsKey reason token = record { seq = λ d. refl; agent = λ d. refl }

pub terminal-KeepsFence :
    (certainty : ExecutionCertainty) (reason : String) (now : ℕ)
    → KeepsFence (set_terminal certainty reason now)
unfolding set_terminal
terminal-KeepsFence certainty reason now = record {
  seq = λ i. refl;
  agent = λ i. refl;
  ends = λ i. refl;
}

-- The open invocation of a delivery that a settlement matches is the one under its lease.
pub leased_row-open :
    (messages : List MessageRow) (row : LeasedRow) (ds : List DeliveryRow) (i : InvocationRow)
    (d : DeliveryRow)
    → leased_row messages row d ≡ true
    → delivery_of ds i ≡ some d
    → holds_lease i d ≡ true
    → (key_matches messages row.key i.message_seq ≡ true)
      × (i.agent_id ≡ row.agent_id)
      × (i.lease_token ≡ row.lease_token)
unfolding leased_row holds_lease
leased_row-open messages row ds i d match at held = ground (
  arith,
  find-holds (delivery_key i.message_seq i.agent_id) ds d at,
  str_eq_iff d.agent_id i.agent_id,
  str_eq_iff d.agent_id row.agent_id,
  holds_text-eq d.lease_token i.lease_token,
  holds_text-eq d.lease_token row.lease_token,
)

-- A settlement by message id, with the end of the open invocation under the same lease.
abbrev pub by_message : String → String → String → ℕ → LeasedRow
by_message agent_id message_id lease_token now = record {
  key = DeliveryKey.message_id message_id;
  agent_id = agent_id;
  lease_token = lease_token;
  window = LeaseWindow.live;
  now = now;
}

module _ (db : Db) (agent_id message_id lease_token : String) (now : ℕ) where
  abbrev row : LeasedRow
  row = by_message agent_id message_id lease_token now

  pub settled-IsFenced :
      (set : DeliveryRow → DeliveryRow) (end : InvocationRow → InvocationRow)
      → KeepsKey set
      → KeepsFence end
      → IsFenced db
      → IsFenced (
          updated db
            (leased_row db.messages row)
            set
            (open_under_lease db.messages agent_id message_id lease_token)
            end)
  settled-IsFenced set end keeps ending v =
      updated-IsFenced db (leased_row db.messages row) set
        (open_under_lease db.messages agent_id message_id lease_token) end keeps ending (λ _. true)
        (λ i d _. passes i d) (All-every _ (λ _. refl) db.invocations) v
    where
      passes :
          (i : InvocationRow) (d : DeliveryRow)
          → open_under_lease db.messages agent_id message_id lease_token i ≡ false
          → is_terminal i.state ≡ false
          → delivery_of db.deliveries i ≡ some d
          → holds_lease i d ≡ true
          → leased_row db.messages row d ≡ false
      passes i d apart going at held = elim (Bool-cases (leased_row db.messages row d)) [
        | inr e ↦ e
        | inl e ↦
            unfold key_matches in
            (ground (
              arith,
              leased_row-open db.messages row db.deliveries i d e at held,
              str_eq_iff i.agent_id agent_id,
              str_eq_iff i.lease_token lease_token,
            ))
      ]
