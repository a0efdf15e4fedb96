-- ===== src/Kernel/Delivery/Claim.antt =====
-- crates/kernel/src/delivery.rs: leasing the oldest eligible rows of one inbox.
use fleetd.Base.{
  ℕ, ◌+◌, Bool, true, false, ◌&&◌, ◌||◌, Option, none, some, String, List, [], ◌∷◌, leb, str_eq,
  holds_text, take,
}
use fleetd.Table.{select, order_by, any}
use fleetd.Model.{DeliveryState}
use fleetd.Db.{Db, DeliveryRow, MessageRow, Message, message_at, message_from_row, same_delivery}
use fleetd.Db.Statements.{update_deliveries}
use fleetd.Db.Tx.{Tx, ◌>>=◌, pure, get}
use fleetd.Kernel.Delivery.{is_pending, is_leased, in_window, expired}

-- What a claimant is handed.
pub record Delivery : Type 0 where
  pub message : Message
  pub attempt : ℕ
  pub lease_expires_at_ms : Option ℕ
  pub last_error : Option String

-- `m.kind IN (SELECT value FROM json_each(?))`; with no selector every kind will do.
unfoldable pub kind_accepted : Option (List String) → String → Bool
unfolding any
kind_accepted none kind = true
kind_accepted (some kinds) kind = any (str_eq kind) kinds

unfoldable pub claimable : List MessageRow → String → ℕ → Option (List String) → DeliveryRow → Bool
unfolding kind_accepted in_window
claimable messages agent_id now kinds d = elim (message_at messages d.message_seq) [
  | none ↦ false
  | some m ↦
      str_eq d.agent_id agent_id
      && leb d.available_at_ms now
      && (is_pending d.state || (is_leased d.state && in_window expired now d.lease_expires_at_ms))
      && kind_accepted kinds m.kind
]

unfoldable pub set_leased : String → ℕ → DeliveryRow → DeliveryRow
set_leased lease_token lease_expires_at_ms d = record d {
  state = DeliveryState.leased;
  attempt = d.attempt + 1;
  lease_token = some lease_token;
  lease_expires_at_ms = some lease_expires_at_ms;
}

-- ORDER BY message_seq.
abbrev pub seq_le : DeliveryRow → DeliveryRow → Bool
seq_le a b = leb a.message_seq b.message_seq

-- The subquery: the oldest claimable rows, at most `limit` of them.
unfoldable pub chosen : Db → String → ℕ → ℕ → Option (List String) → List DeliveryRow
chosen db agent_id now limit kinds =
    take limit (order_by seq_le (select (claimable db.messages agent_id now kinds) db.deliveries))

abbrev pub is_among : List DeliveryRow → DeliveryRow → Bool
is_among rows d = any (λ c. same_delivery c d) rows

unfoldable pub lease_claimable : String → String → ℕ → ℕ → ℕ → Option (List String) → Tx (Unit {0})
lease_claimable agent_id lease_token lease_expires_at_ms now limit kinds = do
  db ← get
  affected ←
      update_deliveries (is_among (chosen db agent_id now limit kinds))
        (set_leased lease_token lease_expires_at_ms)
  pure tt

-- The rows that an agent holds under one lease token, oldest first, with their messages.
unfoldable pub held : Db → String → String → List DeliveryRow
held db agent_id lease_token = order_by seq_le (
    select
      (λ d. str_eq d.agent_id agent_id && is_leased d.state && holds_text d.lease_token lease_token)
      db.deliveries)

unfoldable pub with_messages {ℓ} :
    {A : Type ℓ} → List MessageRow → (DeliveryRow → MessageRow → A) → List DeliveryRow → List A
with_messages messages f [] = []
with_messages messages f (d ∷ ds) =
    let more = with_messages messages f ds in
    elim (message_at messages d.message_seq) [ none ↦ more | some m ↦ f d m ∷ more ]

unfoldable pub delivery_from_row : DeliveryRow → MessageRow → Delivery
delivery_from_row d m = record {
  message = message_from_row m;
  attempt = d.attempt;
  lease_expires_at_ms = d.lease_expires_at_ms;
  last_error = d.last_error;
}

unfoldable pub leased_batch : String → String → Tx (List Delivery)
leased_batch agent_id lease_token = do
  db ← get
  pure (with_messages db.messages delivery_from_row (held db agent_id lease_token))
