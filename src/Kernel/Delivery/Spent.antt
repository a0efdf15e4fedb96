-- ===== src/Kernel/Delivery/Spent.antt =====
-- crates/kernel/src/delivery.rs: a lease is settled once, whichever way.
use fleetd.Base.{ℕ, Bool, ◌∙◌, ap, sym, true, false, ◌≡◌, refl, Option, String}
use fleetd.Error.{ok}
use fleetd.Table.Laws.{Distinct}
use fleetd.Db.{Db, DeliveryRow, same_delivery}
use fleetd.Db.Tx.{Tx}
use fleetd.Kernel.Delivery.{
  LeasedRow, DeliveryKey, LeaseWindow, settle, set_acknowledged, set_retry, set_blocked,
  mark_acknowledged, mark_retry, mark_blocked,
}
use fleetd.Kernel.Delivery.Settling.{
  Settles, acknowledged-Settles, retry-Settles, blocked-Settles, settle_spent,
}

-- The three ways in which a worker settles its lease.
pub data Ending : Type 0 where
  acknowledging : Ending
  retrying : (retry_after_ms available_at_ms : ℕ) (error : Option String) → Ending
  blocking : String → Ending

abbrev pub mark : Ending → String → String → String → ℕ → Tx Bool
mark acknowledging agent_id id token now = mark_acknowledged agent_id id token now
mark (retrying retry_after_ms available_at_ms error) agent_id id token now =
    mark_retry agent_id id
      (record { lease_token = token; retry_after_ms = retry_after_ms; error = error })
      available_at_ms now
mark (blocking reason) agent_id id token now =
    mark_blocked agent_id id (record { lease_token = token; reason = reason }) now

abbrev set_of : Ending → String → ℕ → DeliveryRow → DeliveryRow
set_of acknowledging token now = set_acknowledged token now
set_of (retrying retry_after_ms available_at_ms error) token now =
    set_retry (record { lease_token = token; retry_after_ms = retry_after_ms; error = error })
      available_at_ms
set_of (blocking reason) token now = set_blocked reason token

set_of-Settles : (e : Ending) (token : String) (now : ℕ) → Settles (set_of e token now)
set_of-Settles acknowledging token now = acknowledged-Settles token now
set_of-Settles (retrying retry_after_ms available_at_ms error) token now =
    retry-Settles (record { lease_token = token; retry_after_ms = retry_after_ms; error = error })
      available_at_ms
set_of-Settles (blocking reason) token now = blocked-Settles reason token

abbrev live_row : String → String → String → ℕ → LeasedRow
live_row agent_id id token now = record {
  key = DeliveryKey.message_id id;
  agent_id = agent_id;
  lease_token = token;
  window = LeaseWindow.live;
  now = now;
}

mark-settle :
    (e : Ending) (agent_id id token : String) (now : ℕ)
    → mark e agent_id id token now ≡ settle (live_row agent_id id token now) (set_of e token now)
unfolding mark_acknowledged mark_retry mark_blocked
mark-settle acknowledging agent_id id token now = refl
mark-settle (retrying retry_after_ms available_at_ms error) agent_id id token now = refl
mark-settle (blocking reason) agent_id id token now = refl

-- Where deliveries have distinct keys, an acknowledgement, a retry or a block of a delivery that
-- moved its row spends the lease: a later acknowledgement, retry or block of the same delivery by
-- the same agent under the same token, at any time, moves no row and changes nothing.
pub mark_spent :
    (first second : Ending) (agent_id id token : String) (now later : ℕ) (db after : Db)
    → Distinct same_delivery db.deliveries
    → mark first agent_id id token now db ≡ ok (true, after)
    → mark second agent_id id token later after ≡ ok (false, after)
mark_spent first second agent_id id token now later db after distinct h =
    ap (λ m. m after) (mark-settle second agent_id id token later)
    ∙ settle_spent db after (live_row agent_id id token now) (set_of first token now)
        (set_of-Settles first token now) distinct
        (sym (ap (λ m. m db) (mark-settle first agent_id id token now)) ∙ h) LeaseWindow.live later
        (set_of second token later)
