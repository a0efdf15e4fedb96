-- ===== src/Execution/Session/Apart/Settlements.antt =====
-- crates/execution/src/settlement.rs and crates/kernel/src/delivery.rs: settling a delivery leaves
-- the sessions alone; recovery and an operator's decision touch them in one step each.
use fleetd.Base.{ℕ, Bool, Option, none, some, String, List, [], ◌∷◌, arith}
use fleetd.Model.{
  Settlement, BlockResolution, ExecutionCertainty, ClaimDeliveries, RetryDelivery, BlockDelivery,
  ResolveDeliveryBlock,
}
use fleetd.Db.{Db, DeliveryRow, MessageRow, InvocationRow, BlockRow}
use fleetd.Db.Keeps.{
  Relation, Keeps, KeepsFrom, keeping, going_back, bind, guards, gets, option, expects, pures,
  either, fails,
}
use fleetd.Kernel.Delivery.{
  mark_acknowledged, mark_retry, mark_blocked, block_expired_lease, settle_miss, ensure_agent,
}
use fleetd.Kernel.Delivery.Claim.{lease_claimable, leased_batch}
use fleetd.Kernel.Delivery.Block.{
  BlockedDelivery, insert_block_record, blocked_delivery_by_id, blocked_delivery_by_lease,
  resolution_row, resolution_is_replay, resolve_delivery_row, resolve_row_as, apply_resolution,
  resolve_delivery_block_transaction,
}
use fleetd.Execution.Invocation.Complete.{ensure_retry_is_safe, terminalize_invocation}
use fleetd.Execution.Session.Turn.{ensure_bound_turn_allows_delivery_settlement}
use fleetd.Table.{find}
use fleetd.Execution.Session.Turn.{
  turn_of, open_under_lease, mark_expired_session_turn_uncertain,
  retire_uncertain_session_for_delivery_block,
}
use fleetd.Execution.Invocation.Recover.{
  Lapse, terminalize_expired_reservations, park_expired_armed_invocation, park_all,
  recover_expired_invocations_transaction, recover_agents, recover_all_expired_invocations,
}
use fleetd.Execution.Invocation.Reserve.{
  insert_invocation, reserve_row, reserve_rows, reserve_leased, reserve_invocations_filtered,
}
use fleetd.Execution.Settlement.{
  claim_leased, claim_deliveries, acknowledge_delivery, retry_delivery, block_new, block_again,
  block_delivery, resolve_delivery_block,
}
use fleetd.Execution.Session.Apart.{
  IsApart, delivery_updates, invocation_updates, settles, blocks_insert, blocks_update,
}

module _ {r : Relation} (a : IsApart r) where
  settlement_reads :
      (agent_id message_id token : String) (allow : Bool)
      → Keeps r (ensure_bound_turn_allows_delivery_settlement agent_id message_id token allow)
  unfolding ensure_bound_turn_allows_delivery_settlement
  settlement_reads agent_id message_id token allow =
      bind gets λ db. option _ (pures _) λ i. option (turn_of db i.id) (pures _) λ t. guards _ _

  terminalizes :
      (agent_id message_id token : String) (certainty : ExecutionCertainty) (reason : String)
      (now : ℕ)
      → Keeps r (terminalize_invocation agent_id message_id token certainty reason now)
  unfolding terminalize_invocation
  terminalizes agent_id message_id token certainty reason now =
      search (keeping, settlement_reads, invocation_updates)

  miss_reads :
      (agent_id id token : String) (expected : Settlement)
      → Keeps r (settle_miss agent_id id token expected)
  unfolding settle_miss
  miss_reads agent_id id token expected = search (keeping)

  pub acknowledge_apart :
      (agent_id message_id token : String) (now : ℕ)
      → Keeps r (acknowledge_delivery agent_id message_id token now)
  unfolding acknowledge_delivery mark_acknowledged
  acknowledge_apart agent_id message_id token now =
      search (keeping, going_back, settles, terminalizes, miss_reads) depth 9

  retry_reads :
      (agent_id message_id token : String)
      → Keeps r (ensure_retry_is_safe agent_id message_id token)
  unfolding ensure_retry_is_safe
  retry_reads agent_id message_id token = bind gets λ db.
      option (find (open_under_lease db.messages agent_id message_id token) db.invocations)
        (pures _) λ i. guards _ _

  pub retry_apart :
      (agent_id message_id : String) (input : RetryDelivery) (now : ℕ)
      → Keeps r (retry_delivery agent_id message_id input now)
  unfolding retry_delivery mark_retry
  retry_apart agent_id message_id input now =
      search (keeping, going_back, retry_reads, settles, terminalizes, miss_reads) depth 11

  by_id_reads : (block_id : ℕ) → Keeps r (blocked_delivery_by_id block_id)
  unfolding blocked_delivery_by_id
  by_id_reads block_id = search (keeping)

  by_lease_reads :
      (agent_id message_id token : String)
      → Keeps r (blocked_delivery_by_lease agent_id message_id token)
  unfolding blocked_delivery_by_lease
  by_lease_reads agent_id message_id token = search (keeping)

  evidence_inserts :
      (agent_id message_id : String) (input : BlockDelivery) (now : ℕ)
      → Keeps r (insert_block_record agent_id message_id input now)
  unfolding insert_block_record
  evidence_inserts agent_id message_id input now =
      bind gets λ db. bind (expects _ _) λ d. bind (blocks_insert a _ _ _ _ _ _) λ _. pures _

  new_blocks :
      (agent_id message_id : String) (input : BlockDelivery) (now : ℕ)
      → Keeps r (block_new agent_id message_id input now)
  unfolding block_new
  new_blocks agent_id message_id input now =
      search (keeping, evidence_inserts, terminalizes, by_id_reads)

  block_misses :
      (before : Db) (agent_id message_id : String) (input : BlockDelivery)
      (found : Option (BlockedDelivery × String))
      → KeepsFrom r before (block_again before agent_id message_id input found)
  unfolding block_again
  block_misses before agent_id message_id input none = search (keeping, going_back, miss_reads)
  block_misses before agent_id message_id input (some (blocked, reason)) =
      search (keeping, going_back)

  pub block_apart :
      (agent_id message_id : String) (input : BlockDelivery) (now : ℕ)
      → Keeps r (block_delivery agent_id message_id input now)
  unfolding block_delivery mark_blocked
  block_apart agent_id message_id input now =
      search (keeping, going_back, settles, new_blocks, by_lease_reads, block_misses) depth 11

-- Recovery, given what the uncertainty of an expired turn does.
module _ {r : Relation} (a : IsApart r)
    (marks : (invocation_id reason : String) (now : ℕ)
      → Keeps r (mark_expired_session_turn_uncertain invocation_id reason now)) where
  expired_apart :
      (agent_id : String) (now : ℕ) → Keeps r (terminalize_expired_reservations agent_id now)
  unfolding terminalize_expired_reservations
  expired_apart agent_id now = search (keeping, invocation_updates)

  parks :
      (row : Lapse) (agent_id : String) (now : ℕ)
      → Keeps r (park_expired_armed_invocation row agent_id now)
  unfolding park_expired_armed_invocation block_expired_lease
  parks row agent_id now =
      search (keeping, settles, blocks_insert, invocation_updates, marks) depth 9

  all_parks :
      (agent_id : String) (now : ℕ) (rows : List Lapse) (n : ℕ)
      → Keeps r (park_all agent_id now rows n)
  unfolding park_all
  all_parks agent_id now [] n = search (keeping)
  all_parks agent_id now (row ∷ rows) n =
      bind (parks row agent_id now) λ _. all_parks agent_id now rows _

  pub recover_apart :
      (agent_id : String) (now : ℕ) → Keeps r (recover_expired_invocations_transaction agent_id now)
  unfolding recover_expired_invocations_transaction
  recover_apart agent_id now = search (keeping, expired_apart, all_parks)

  agents_apart : (now : ℕ) (agents : List String) (n : ℕ) → Keeps r (recover_agents now agents n)
  unfolding recover_agents
  agents_apart now [] n = search (keeping)
  agents_apart now (agent_id ∷ agents) n =
      bind (recover_apart agent_id now) λ more. agents_apart now agents _

  pub reconcile_apart :
      (listed : Db) (now : ℕ) → Keeps r (recover_all_expired_invocations listed now)
  unfolding recover_all_expired_invocations
  reconcile_apart listed now = search (keeping, agents_apart)

  lease_apart :
      (agent_id token : String) (expiry now limit : ℕ) (kinds : Option (List String))
      → Keeps r (lease_claimable agent_id token expiry now limit kinds)
  unfolding lease_claimable
  lease_apart agent_id token expiry now limit kinds = search (keeping, delivery_updates)

  batch_reads : (agent_id token : String) → Keeps r (leased_batch agent_id token)
  unfolding leased_batch
  batch_reads agent_id token = search (keeping)

  claims :
      (agent_id token : String) (expiry now limit : ℕ)
      → Keeps r (claim_leased agent_id token expiry now limit)
  unfolding claim_leased
  claims agent_id token expiry now limit = search (keeping, recover_apart, lease_apart, batch_reads)

  agent_checks : (agent_id : String) → Keeps r (ensure_agent agent_id)
  unfolding ensure_agent
  agent_checks agent_id = search (keeping)

  pub claim_apart :
      (token agent_id : String) (input : ClaimDeliveries) (now : ℕ)
      → Keeps r (claim_deliveries token agent_id input now)
  unfolding claim_deliveries
  claim_apart token agent_id input now = search (keeping, agent_checks, claims) depth 9

  invocation_inserts : (new : InvocationRow) → Keeps r (insert_invocation new)
  unfolding insert_invocation
  invocation_inserts new = record {
    kept = λ db after u e. a.apart db after (ground arith) (ground arith);
  }

  row_reserves :
      (id fence : String) (row : DeliveryRow × MessageRow) (agent_id token : String)
      (expiry now : ℕ)
      → Keeps r (reserve_row id fence row agent_id token expiry now)
  unfolding reserve_row
  row_reserves id fence (d, m) agent_id token expiry now = search (keeping, invocation_inserts)

  rows_reserve :
      (uuid : ℕ → String) (k : ℕ) (rows : List (DeliveryRow × MessageRow)) (agent_id token : String)
      (expiry now : ℕ)
      → Keeps r (reserve_rows uuid k rows agent_id token expiry now)
  unfolding reserve_rows
  rows_reserve uuid k [] agent_id token expiry now = search (keeping)
  rows_reserve uuid k (row ∷ rows) agent_id token expiry now =
      bind (row_reserves _ _ row agent_id token expiry now)
        λ i. bind (rows_reserve uuid _ rows agent_id token expiry now) λ rest. pures _

  reserves :
      (uuid : ℕ → String) (agent_id : String) (limit : ℕ) (kinds : Option (List String))
      (expiry now : ℕ)
      → Keeps r (reserve_leased uuid agent_id limit kinds expiry now)
  unfolding reserve_leased
  reserves uuid agent_id limit kinds expiry now =
      search (keeping, recover_apart, lease_apart, rows_reserve)

  pub reserve_apart :
      (uuid : ℕ → String) (agent_id : String) (input : ClaimDeliveries)
      (kinds : Option (List String)) (now : ℕ)
      → Keeps r (reserve_invocations_filtered uuid agent_id input kinds now)
  unfolding reserve_invocations_filtered
  reserve_apart uuid agent_id input kinds now = search (keeping, agent_checks, reserves) depth 9

-- An operator's decision, given what the retirement of a session does.
module _ {r : Relation} (a : IsApart r)
    (ends : (block_id : ℕ) (resolution : BlockResolution) (now : ℕ)
      → Keeps r (retire_uncertain_session_for_delivery_block block_id resolution now)) where
  resolution_reads : (block_id : ℕ) → Keeps r (resolution_row block_id)
  unfolding resolution_row
  resolution_reads block_id = search (keeping)

  replay_checks :
      (b : BlockRow) (input : ResolveDeliveryBlock) (n : ℕ)
      → Keeps r (resolution_is_replay b input n)
  unfolding resolution_is_replay
  replay_checks b input n = option b.resolved_at_ms (pures _) λ at. either _ (pures _) (fails _)

  row_resolves :
      (b : BlockRow) (input : ResolveDeliveryBlock) (n now : ℕ) (decision : BlockResolution)
      → Keeps r (resolve_row_as decision b input n now)
  unfolding resolve_row_as
  row_resolves b input n now BlockResolution.requeue = search (keeping, delivery_updates)
  row_resolves b input n now BlockResolution.abandon = search (keeping, delivery_updates)

  applies :
      (block_id : ℕ) (input : ResolveDeliveryBlock) (n now : ℕ) (row : BlockRow × DeliveryRow)
      → Keeps r (apply_resolution block_id input n now row)
  unfolding apply_resolution resolve_delivery_row
  applies block_id input n now (b, d) =
      search (keeping, replay_checks, row_resolves, blocks_update) depth 9

  pub resolve_apart :
      (block_id : ℕ) (input : ResolveDeliveryBlock) (now : ℕ)
      → Keeps r (resolve_delivery_block block_id input now)
  unfolding resolve_delivery_block resolve_delivery_block_transaction
  resolve_apart block_id input now = search (keeping, resolution_reads, applies, ends) depth 11
