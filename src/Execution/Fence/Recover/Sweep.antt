-- ===== src/Execution/Fence/Recover/Sweep.antt =====
-- crates/execution/src/invocation.rs: the loop that parks the expired armed attempts of one agent.
use fleetd.Base.{
  ℕ, Bool, true, false, ◌&&◌, not, ◌≡◌, refl, some, String, List, [], ◌∷◌, arith, All, All-map,
  str_eq, str_eq_iff, leb, ◌==◌, if◌then◌else◌, inl, inr, Bool-cases, subst,
}
use fleetd.Error.{ok}
use fleetd.Table.{any}
use fleetd.Table.Laws.{All-update}
use fleetd.Model.{ExecutionCertainty}
use fleetd.Db.{Db, DeliveryRow, InvocationRow}
use fleetd.Db.Tx.{bind_ok}
use fleetd.Kernel.Delivery.{leased_row, key_matches}
use fleetd.Execution.Session.Turn.{is_terminal, is_armed}
use fleetd.Execution.Invocation.{by_id}
use fleetd.Execution.Invocation.Complete.{set_terminal}
use fleetd.Execution.Invocation.Recover.{
  Lapse, armed_by_id, expiry_reason, park_expired_armed_invocation, park_all, saturating_add,
}
use fleetd.Execution.Fence.{delivery_of, holds_lease, IsFenced}
use fleetd.Execution.Fence.Update.{updated-IsFenced}
use fleetd.Execution.Fence.Settle.{leased_row-open, blocked-KeepsKey, terminal-KeepsFence}
use fleetd.Execution.Fence.Settle.Preserve.{IsFenced-tables}
use fleetd.Execution.Fence.Recover.{lapse_row, lapse_set, lapse_end, Parks, park-Parks}

-- Only the attempt that a row was read from is open on its delivery.
abbrev pub covers : String → Lapse → InvocationRow → Bool
covers agent_id row i =
    if not (is_terminal i.state) && i.message_seq == row.message_seq && str_eq i.agent_id agent_id
    then armed_by_id row.id i
    else true

-- An open attempt of the agent whose lease has run out.
unfoldable pub due : String → ℕ → InvocationRow → Bool
due agent_id now i =
    not (is_terminal i.state) && str_eq i.agent_id agent_id && leb i.lease_expires_at_ms now

-- Such an attempt is armed, and the loop is still to park it.
abbrev pub listed : List Lapse → String → ℕ → InvocationRow → Bool
listed rows agent_id now i =
    if due agent_id now i then is_armed i.state && any (λ row. by_id row.id i) rows else true

-- What the loop keeps.
pub record Sweeps (agent_id : String) (now : ℕ) (rows : List Lapse) (db : Db) : Type 0 where
  pub fenced : IsFenced db
  pub covered : All (λ row. All (λ i. covers agent_id row i ≡ true) db.invocations) rows
  pub pending : All (λ i. listed rows agent_id now i ≡ true) db.invocations

module _ (agent_id : String) (now : ℕ) where
  park-IsFenced :
      (row : Lapse) (db after : Db)
      → IsFenced db
      → All (λ i. covers agent_id row i ≡ true) db.invocations
      → Parks agent_id now row db after
      → IsFenced after
  park-IsFenced row db after v covered parks =
      IsFenced-tables _ after parks.deliveries parks.invocations (
        updated-IsFenced db (leased_row db.messages (lapse_row agent_id now row)) (lapse_set row)
          (armed_by_id row.id) (lapse_end now)
          (blocked-KeepsKey (expiry_reason row.id) row.lease_token)
          (terminal-KeepsFence ExecutionCertainty.outcome_unknown
            "lease_expired_after_dispatch_armed" now)
          (covers agent_id row) passes covered v)
    where
      passes :
          (i : InvocationRow) (d : DeliveryRow)
          → covers agent_id row i ≡ true
          → armed_by_id row.id i ≡ false
          → is_terminal i.state ≡ false
          → delivery_of db.deliveries i ≡ some d
          → holds_lease i d ≡ true
          → leased_row db.messages (lapse_row agent_id now row) d ≡ false
      passes i d good apart going at held =
          elim (Bool-cases (leased_row db.messages (lapse_row agent_id now row) d)) [
            | inr e ↦ e
            | inl e ↦
                unfold key_matches in
                (ground (
                  arith,
                  leased_row-open db.messages (lapse_row agent_id now row) db.deliveries i d e at
                      held,
                  str_eq_iff i.agent_id agent_id,
                ))
          ]

  ended_covers : (row : Lapse) (i : InvocationRow) → covers agent_id row (lapse_end now i) ≡ true
  unfolding set_terminal
  ended_covers row i = refl

  ended_listed :
      (rows : List Lapse) (i : InvocationRow) → listed rows agent_id now (lapse_end now i) ≡ true
  unfolding set_terminal due
  ended_listed rows i = refl

  kept_listed :
      (row : Lapse) (rows : List Lapse) (i : InvocationRow)
      → listed (row ∷ rows) agent_id now i ≡ true
      → armed_by_id row.id i ≡ false
      → listed rows agent_id now i ≡ true
  unfolding any
  kept_listed row rows i h e = ground arith

  park-Sweeps :
      (row : Lapse) (rows : List Lapse) (db after : Db)
      → Sweeps agent_id now (row ∷ rows) db
      → Parks agent_id now row db after
      → Sweeps agent_id now rows after
  park-Sweeps row rows db after s parks = record {
    fenced = park-IsFenced row db after s.fenced s.covered.0 parks;
    covered =
        All-map
          (λ other c. rw parks.invocations (
            All-update (armed_by_id row.id) (lapse_end now) (λ i _ _. ended_covers other i)
              (λ i h _. h) db.invocations c))
          rows s.covered.1;
    pending = rw parks.invocations (
        All-update (armed_by_id row.id) (lapse_end now) (λ i _ _. ended_listed rows i)
          (λ i h e. kept_listed row rows i h e) db.invocations s.pending);
  }

  pub park_all-Sweeps :
      (rows : List Lapse) (recovered total : ℕ) (db after : Db)
      → Sweeps agent_id now rows db
      → park_all agent_id now rows recovered db ≡ ok (total, after)
      → Sweeps agent_id now [] after
  unfolding park_all
  park_all-Sweeps [] recovered total db after s h =
      (let same : db ≡ after = ground arith in subst (Sweeps agent_id now []) same s)
  park_all-Sweeps (row ∷ rows) recovered total db after s h =
      bind_ok (park_expired_armed_invocation row agent_id now) _ db h λ done db1 e1 k1.
        park_all-Sweeps rows (saturating_add recovered 1) total db1 after
          (park-Sweeps row rows db db1 s (park-Parks row agent_id now db db1 e1)) k1

  pub Sweeps-clear :
      (db : Db) → Sweeps agent_id now [] db → All (λ i. due agent_id now i ≡ false) db.invocations
  unfolding any
  Sweeps-clear db s = All-map (λ i h. ground arith) db.invocations s.pending
