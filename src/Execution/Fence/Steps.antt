-- ===== src/Execution/Fence/Steps.antt =====
-- The invocation fence in every interleaving of the operations.
use fleetd.Base.{true, ◌≡◌, refl, [], All}
use fleetd.Error.{Result, ok, err}
use fleetd.Table.Laws.{Distinct-equal}
use fleetd.Db.{Db}
use fleetd.Db.Tx.{Tx, run}
use fleetd.Execution.Fence.{is_fenced, rivals, IsFenced}
use fleetd.Execution.Fence.Settle.Preserve.{acknowledge-IsFenced, retry-IsFenced, block-IsFenced}
use fleetd.Execution.Fence.Arm.{arm-IsFenced}
use fleetd.Execution.Fence.Resolve.{resolve-IsFenced}
use fleetd.Execution.Fence.Recover.Listing.{rivals-symmetric}
use fleetd.Execution.Fence.Recover.Agents.{reconcile-IsFenced}
use fleetd.Execution.Fence.Lease.{claim-IsFenced}
use fleetd.Execution.Fence.Reserve.Fresh.{reserve-IsFenced}
use fleetd.Execution.Fence.Append.{append-IsFenced}
use fleetd.Execution.Fence.Complete.Transaction.{complete-IsFenced}
use fleetd.Db.Keeps.{run_keeps}
use fleetd.Execution.Steps.{Step, Reaches}
use fleetd.Execution.Session.Stores.Lanes.{acquire_keeps, open_keeps, retire_keeps}
use fleetd.Execution.Session.Stores.Turns.{mark_keeps, arm_session_keeps, complete_session_keeps}
use fleetd.Execution.Fence.Sessions.{fencing-Stores}

-- A transaction keeps what its commit keeps.
run-IsFenced :
    {A : Type 0} (m : Tx A) (db : Db)
    → IsFenced db
    → ((a : A) (after : Db) → m db ≡ ok (a, after) → IsFenced after)
    → IsFenced (run m db).1
unfolding run
run-IsFenced {A} m db v keeps = go (m db) refl
  where
    go :
        (r : Result (A × Db))
        → m db ≡ r
        → IsFenced
            (elim r as (λ _. Result A × Db) [
              | ok (a, after) ↦ (ok a, after)
              | err e ↦ (err e, db)
            ]).1
    go (ok (a, after)) e = keeps a after e
    go (err e) h = v

Step-IsFenced : (db after : Db) → IsFenced db → Step db after → IsFenced after
Step-IsFenced db _ v (Step.append id created_at channel_id input) =
    run-IsFenced _ db v
      λ result after. append-IsFenced id created_at channel_id input db after result v
Step-IsFenced db _ v (Step.claim token agent_id input now) =
    run-IsFenced _ db v λ batch after. claim-IsFenced agent_id token now input db after batch v
Step-IsFenced db _ v (Step.reserve uuid agent_id input kinds now fresh) =
    run-IsFenced _ db v
      λ result after. reserve-IsFenced uuid agent_id now input kinds db after result v fresh
Step-IsFenced db _ v (Step.arm agent_id invocation_id input now) =
    run-IsFenced _ db v
      λ result after. arm-IsFenced agent_id invocation_id now input db after result v
Step-IsFenced db _ v (Step.complete id created_at agent_id invocation_id input now allow_active) =
    run-IsFenced _ db v λ result after.
      complete-IsFenced id created_at agent_id invocation_id now input allow_active db after result
        v
Step-IsFenced db _ v (Step.acknowledge agent_id message_id lease_token now) =
    run-IsFenced _ db v
      λ done after. acknowledge-IsFenced agent_id message_id now db after v lease_token
Step-IsFenced db _ v (Step.retry agent_id message_id input now) =
    run-IsFenced _ db v λ done after. retry-IsFenced agent_id message_id now db after v input
Step-IsFenced db _ v (Step.block agent_id message_id input now) =
    run-IsFenced _ db v
      λ result after. block-IsFenced agent_id message_id now db after v input result
Step-IsFenced db _ v (Step.resolve block_id input now) =
    run-IsFenced _ db v λ done after. resolve-IsFenced block_id input now db after v
Step-IsFenced db _ v (Step.reconcile listed now) =
    run-IsFenced _ db v λ recovered after h. reconcile-IsFenced now listed recovered db after v h
Step-IsFenced db _ v (Step.acquire id agent_id input now) =
    run_keeps _ db (acquire_keeps fencing-Stores agent_id input now id) v
Step-IsFenced db _ v (Step.open_session agent_id binding session_ref now) =
    run_keeps _ db (open_keeps fencing-Stores agent_id binding now session_ref) v
Step-IsFenced db _ v
      (Step.arm_session agent_id invocation_id binding session_ref generation_id input now) =
    run_keeps _ db
      (arm_session_keeps fencing-Stores agent_id invocation_id binding now session_ref generation_id
        input)
      v
Step-IsFenced db _ v
      (Step.complete_session id created_at agent_id invocation_id binding persistence input now) =
    run_keeps _ db
      (complete_session_keeps fencing-Stores agent_id invocation_id binding now id created_at
        persistence input)
      v
Step-IsFenced db _ v (Step.mark_uncertain agent_id invocation_id binding reason now) =
    run_keeps _ db (mark_keeps fencing-Stores agent_id invocation_id binding now reason) v
Step-IsFenced db _ v (Step.retire agent_id binding reason now) =
    run_keeps _ db (retire_keeps fencing-Stores agent_id binding now reason) v

pub Reaches-IsFenced : (db after : Db) → IsFenced db → Reaches db after → IsFenced after
Reaches-IsFenced db _ v Reaches.start = v
Reaches-IsFenced db _ v (Reaches.next {middle} {after} path step) =
    Step-IsFenced middle after (Reaches-IsFenced db middle v path) step

-- From a database without deliveries and invocations, and after any sequence of transactions
-- (append, claim, reserve, arm, complete, acknowledge, retry, block, resolve, reconcile, and the
-- six of a session: acquire, open, arm, complete, mark uncertain, retire; those that fail are
-- rolled back; a reservation's lease token is one that no delivery has), every open invocation has
-- its delivery leased under its own token, to its own expiry, for its own attempt, and no two open
-- invocations hold one delivery.
pub Reaches-exclusive :
    (db after : Db)
    → db.deliveries ≡ []
    → db.invocations ≡ []
    → Reaches db after
    → All (λ i. is_fenced after.deliveries i ≡ true) after.invocations
      × All (λ i. All (λ j. rivals i j ≡ true → i ≡ j) after.invocations) after.invocations
Reaches-exclusive db after ds is path =
    (let v =
        Reaches-IsFenced db after
          (record { fenced = rw (ds, is) tt; single = rw is tt; distinct = rw ds tt }) path in
      (v.fenced, Distinct-equal rivals rivals-symmetric after.invocations v.single))
