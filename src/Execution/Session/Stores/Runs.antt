-- ===== src/Execution/Session/Stores/Runs.antt =====
-- A relation on the sessions that their statements keep, in every interleaving of the operations.
use fleetd.Db.{Db}
use fleetd.Db.Keeps.{Relation, run_keeps}
use fleetd.Execution.Steps.{Step, Reaches}
use fleetd.Execution.Session.Apart.{IsApart, append_apart}
use fleetd.Execution.Session.Apart.Invocations.{arm_apart, complete_apart}
use fleetd.Execution.Session.Apart.Settlements.{
  acknowledge_apart, retry_apart, block_apart, claim_apart, reserve_apart, reconcile_apart,
  resolve_apart,
}
use fleetd.Execution.Session.Stores.{Stores}
use fleetd.Execution.Session.Stores.Lanes.{acquire_keeps, open_keeps, retire_keeps}
use fleetd.Execution.Session.Stores.Turns.{
  expired_keeps, ended_keeps, mark_keeps, arm_session_keeps, complete_session_keeps,
}

module _ {r : Relation} (a : IsApart r) (st : Stores r) where
  step_keeps : (db after : Db) → Step db after → r.holds db after
  step_keeps db _ (Step.append id created_at channel_id input) =
      run_keeps _ db (append_apart a id created_at channel_id input)
  step_keeps db _ (Step.claim token agent_id input now) =
      run_keeps _ db (claim_apart a (expired_keeps st) token agent_id input now)
  step_keeps db _ (Step.reserve uuid agent_id input kinds now fresh) =
      run_keeps _ db (reserve_apart a (expired_keeps st) uuid agent_id input kinds now)
  step_keeps db _ (Step.arm agent_id invocation_id input now) =
      run_keeps _ db (arm_apart a agent_id invocation_id input now)
  step_keeps db _ (Step.complete id created_at agent_id invocation_id input now allow_active) =
      run_keeps _ db (complete_apart a id created_at agent_id invocation_id input now allow_active)
  step_keeps db _ (Step.acknowledge agent_id message_id lease_token now) =
      run_keeps _ db (acknowledge_apart a agent_id message_id lease_token now)
  step_keeps db _ (Step.retry agent_id message_id input now) =
      run_keeps _ db (retry_apart a agent_id message_id input now)
  step_keeps db _ (Step.block agent_id message_id input now) =
      run_keeps _ db (block_apart a agent_id message_id input now)
  step_keeps db _ (Step.resolve block_id input now) =
      run_keeps _ db (resolve_apart a (ended_keeps st) block_id input now)
  step_keeps db _ (Step.reconcile listed now) =
      run_keeps _ db (reconcile_apart a (expired_keeps st) listed now)
  step_keeps db _ (Step.acquire id agent_id input now) =
      run_keeps _ db (acquire_keeps st agent_id input now id)
  step_keeps db _ (Step.open_session agent_id binding session_ref now) =
      run_keeps _ db (open_keeps st agent_id binding now session_ref)
  step_keeps db _
        (Step.arm_session agent_id invocation_id binding session_ref generation_id input now) =
      run_keeps _ db
        (arm_session_keeps st agent_id invocation_id binding now session_ref generation_id input)
  step_keeps db _
        (Step.complete_session id created_at agent_id invocation_id binding persistence input now) =
      run_keeps _ db (
        complete_session_keeps st agent_id invocation_id binding now id created_at persistence
          input)
  step_keeps db _ (Step.mark_uncertain agent_id invocation_id binding reason now) =
      run_keeps _ db (mark_keeps st agent_id invocation_id binding now reason)
  step_keeps db _ (Step.retire agent_id binding reason now) =
      run_keeps _ db (retire_keeps st agent_id binding now reason)

  pub reaches_keeps : (db after : Db) → Reaches db after → r.holds db after
  reaches_keeps db _ Reaches.start = r.same db
  reaches_keeps db _ (Reaches.next {middle} {after} path step) =
      r.compose db middle after (reaches_keeps db middle path) (step_keeps middle after step)
