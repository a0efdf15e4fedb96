-- ===== src/Kernel/Delivery.antt =====
-- crates/kernel/src/delivery.rs: the delivery row and the settlements of a lease.
pub mod Validate
pub mod Claim
pub mod Block
pub mod Bounds
pub mod Settling
pub mod Spent
pub mod Oldest
pub mod Deciding
use fleetd.Base.{
  ℕ, Bool, true, false, ◌&&◌, Option, none, some, String, List, leb, ltb, ◌==◌, str_eq, holds_text,
  if◌then◌else◌, concat, ◌∷◌, [],
}
use fleetd.Error.{not_found, lease_conflict}
use fleetd.Table.{count, find}
use fleetd.Model.{DeliveryState, Settlement, RetryDelivery, BlockDelivery}
use fleetd.Db.{Db, DeliveryRow, MessageRow, of_message}
use fleetd.Db.Statements.{update_deliveries}
use fleetd.Db.Tx.{Tx, ◌>>=◌, ◌>>◌, pure, fail, get, expect}

abbrev pub is_leased : DeliveryState → Bool
is_leased DeliveryState.leased = true
is_leased _ = false

abbrev pub is_pending : DeliveryState → Bool
is_pending DeliveryState.pending = true
is_pending _ = false

abbrev pub is_blocked : DeliveryState → Bool
is_blocked DeliveryState.blocked = true
is_blocked _ = false

-- How a settlement addresses the row that it settles.
pub data DeliveryKey : Type 0 where
  message_id : String → DeliveryKey
  seq : ℕ → DeliveryKey

unfoldable pub key_matches : List MessageRow → DeliveryKey → ℕ → Bool
unfolding find
key_matches messages (message_id id) s = of_message messages id s
key_matches messages (seq n) s = s == n

-- Which side of its expiry the lease has to be on; a NULL expiry passes neither test.
pub data LeaseWindow : Type 0 where
  live expired : LeaseWindow

unfoldable pub in_window : LeaseWindow → ℕ → Option ℕ → Bool
in_window live now none = false
in_window live now (some e) = ltb now e
in_window expired now none = false
in_window expired now (some e) = leb e now

-- The exact row that one settlement is allowed to touch.
pub record LeasedRow : Type 0 where
  pub key : DeliveryKey
  pub agent_id : String
  pub lease_token : String
  pub window : LeaseWindow
  pub now : ℕ

unfoldable pub leased_row : List MessageRow → LeasedRow → DeliveryRow → Bool
unfolding key_matches in_window
leased_row messages row d =
    key_matches messages row.key d.message_seq
    && str_eq d.agent_id row.agent_id
    && is_leased d.state
    && holds_text d.lease_token row.lease_token
    && in_window row.window row.now d.lease_expires_at_ms

unfoldable pub set_acknowledged : String → ℕ → DeliveryRow → DeliveryRow
set_acknowledged lease_token now d = record d {
  state = DeliveryState.acknowledged;
  lease_token = none;
  lease_expires_at_ms = none;
  last_settled_lease_token = some lease_token;
  last_settlement = some Settlement.acknowledged;
  acknowledged_at_ms = some now;
}

unfoldable pub set_retry : RetryDelivery → ℕ → DeliveryRow → DeliveryRow
set_retry input available_at_ms d = record d {
  state = DeliveryState.pending;
  available_at_ms = available_at_ms;
  lease_token = none;
  lease_expires_at_ms = none;
  last_error = input.error;
  last_settled_lease_token = some input.lease_token;
  last_settlement = some Settlement.retry;
  acknowledged_at_ms = none;
}

unfoldable pub set_blocked : String → String → DeliveryRow → DeliveryRow
set_blocked reason lease_token d = record d {
  state = DeliveryState.blocked;
  lease_token = none;
  lease_expires_at_ms = none;
  last_error = some reason;
  last_settled_lease_token = some lease_token;
  last_settlement = some Settlement.blocked;
  acknowledged_at_ms = none;
}

-- Runs a settlement; the result says whether the row moved.
unfoldable pub settle : LeasedRow → (DeliveryRow → DeliveryRow) → Tx Bool
settle row set = do
  db ← get
  affected ← update_deliveries (leased_row db.messages row) set
  pure (affected == 1)

unfoldable pub mark_acknowledged : String → String → String → ℕ → Tx Bool
mark_acknowledged agent_id id lease_token now =
    settle
      (record {
        key = message_id id;
        agent_id = agent_id;
        lease_token = lease_token;
        window = live;
        now = now;
      })
      (set_acknowledged lease_token now)

unfoldable pub mark_retry : String → String → RetryDelivery → ℕ → ℕ → Tx Bool
mark_retry agent_id id input available_at_ms now =
    settle
      (record {
        key = message_id id;
        agent_id = agent_id;
        lease_token = input.lease_token;
        window = live;
        now = now;
      })
      (set_retry input available_at_ms)

unfoldable pub mark_blocked : String → String → BlockDelivery → ℕ → Tx Bool
mark_blocked agent_id id input now =
    settle
      (record {
        key = message_id id;
        agent_id = agent_id;
        lease_token = input.lease_token;
        window = live;
        now = now;
      })
      (set_blocked input.reason input.lease_token)

unfoldable pub block_expired_lease : String → ℕ → String → String → ℕ → Tx Bool
block_expired_lease agent_id message_seq lease_token reason now =
    settle
      (record {
        key = seq message_seq;
        agent_id = agent_id;
        lease_token = lease_token;
        window = expired;
        now = now;
      })
      (set_blocked reason lease_token)

unfoldable pub acknowledge_leased_seq : String → ℕ → String → ℕ → Tx Bool
acknowledge_leased_seq agent_id message_seq lease_token now =
    settle
      (record {
        key = seq message_seq;
        agent_id = agent_id;
        lease_token = lease_token;
        window = live;
        now = now;
      })
      (set_acknowledged lease_token now)

abbrev pub same_settlement : Option Settlement → Settlement → Bool
same_settlement (some Settlement.acknowledged) Settlement.acknowledged = true
same_settlement (some Settlement.retry) Settlement.retry = true
same_settlement (some Settlement.blocked) Settlement.blocked = true
same_settlement _ _ = false

-- Whether a settlement that moved no row repeats the one that the row last had.
unfoldable pub settle_miss : String → String → String → Settlement → Tx (Unit {0})
settle_miss agent_id id lease_token expected = do
  db ← get
  row ←
      expect
        (find (λ d. str_eq d.agent_id agent_id && of_message db.messages id d.message_seq)
          db.deliveries)
        (not_found "delivery" (concat (agent_id ∷ "/" ∷ id ∷ [])))
  if holds_text row.last_settled_lease_token lease_token
        && same_settlement row.last_settlement expected
      then pure tt
      else fail (lease_conflict "lease is expired, invalid, or owned by another worker")

-- `ensure_agent`.
unfoldable pub ensure_agent : String → Tx (Unit {0})
ensure_agent agent_id = do
  db ← get
  if count (λ a. str_eq a.id agent_id) db.agents == 0
      then fail (not_found "agent" agent_id)
      else pure tt
