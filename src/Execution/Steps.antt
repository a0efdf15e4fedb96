-- ===== src/Execution/Steps.antt =====
-- Every interleaving of the operations: the transactions of crates/execution and of the message
-- store, one after the other in any order, with those that fail rolled back.
use fleetd.Base.{ℕ, Bool, ◌≡◌, Option, String, List, All, holds_text, false}
use fleetd.Model.{
  ClaimDeliveries, RetryDelivery, BlockDelivery, ResolveDeliveryBlock, ArmInvocation,
  CompleteInvocation, CreateMessage,
}
use fleetd.Db.{Db}
use fleetd.Db.Tx.{run}
use fleetd.Kernel.Message.{append_message_in_transaction}
use fleetd.Execution.Invocation.Arm.{arm_invocation_transaction}
use fleetd.Execution.Invocation.Complete.{complete_invocation_transaction}
use fleetd.Execution.Invocation.Recover.{recover_all_expired_invocations}
use fleetd.Execution.Invocation.Reserve.{reserve_invocations_filtered}
use fleetd.Execution.Settlement.{
  claim_deliveries, acknowledge_delivery, retry_delivery, block_delivery, resolve_delivery_block,
}
use fleetd.Model.{AcquireSessionBinding, SessionPersistence}
use fleetd.Execution.Session.{Binding}
use fleetd.Execution.Session.Acquire.{acquire_session_binding}
use fleetd.Execution.Session.Open.{record_session_opened}
use fleetd.Execution.Session.Dispatch.{arm_session_invocation, complete_session_invocation}
use fleetd.Execution.Session.Retire.{mark_session_invocation_uncertain, retire_session_binding}

-- One transaction. A reservation draws a lease token that no delivery has. A reconciliation takes
-- its list of agents from any database, as it reads it before its transaction begins.
pub data Step (db : Db) : Db → Type 0 where
  append :
      (id : String) (created_at : ℕ) (channel_id : String) (input : CreateMessage)
      → Step db (run (append_message_in_transaction id created_at channel_id input) db).1
  claim :
      (token agent_id : String) (input : ClaimDeliveries) (now : ℕ)
      → Step db (run (claim_deliveries token agent_id input now) db).1
  reserve :
      (uuid : ℕ → String) (agent_id : String) (input : ClaimDeliveries)
      (kinds : Option (List String)) (now : ℕ)
      → All (λ d. holds_text d.lease_token (uuid 0) ≡ false) db.deliveries
      → Step db (run (reserve_invocations_filtered uuid agent_id input kinds now) db).1
  arm :
      (agent_id invocation_id : String) (input : ArmInvocation) (now : ℕ)
      → Step db (run (arm_invocation_transaction agent_id invocation_id input now) db).1
  complete :
      (id : String) (created_at : ℕ) (agent_id invocation_id : String) (input : CompleteInvocation)
      (now : ℕ) (allow_active : Bool)
      → Step db
          (run
            (complete_invocation_transaction id created_at agent_id invocation_id input now
              allow_active)
            db).1
  acknowledge :
      (agent_id message_id lease_token : String) (now : ℕ)
      → Step db (run (acknowledge_delivery agent_id message_id lease_token now) db).1
  retry :
      (agent_id message_id : String) (input : RetryDelivery) (now : ℕ)
      → Step db (run (retry_delivery agent_id message_id input now) db).1
  block :
      (agent_id message_id : String) (input : BlockDelivery) (now : ℕ)
      → Step db (run (block_delivery agent_id message_id input now) db).1
  resolve :
      (block_id : ℕ) (input : ResolveDeliveryBlock) (now : ℕ)
      → Step db (run (resolve_delivery_block block_id input now) db).1
  reconcile :
      (listed : Db) (now : ℕ) → Step db (run (recover_all_expired_invocations listed now) db).1
  acquire :
      (id agent_id : String) (input : AcquireSessionBinding) (now : ℕ)
      → Step db (run (acquire_session_binding id agent_id input now) db).1
  open_session :
      (agent_id : String) (binding : Binding) (session_ref : String) (now : ℕ)
      → Step db (run (record_session_opened agent_id binding session_ref now) db).1
  arm_session :
      (agent_id invocation_id : String) (binding : Binding) (session_ref generation_id : String)
      (input : ArmInvocation) (now : ℕ)
      → Step db
          (run
            (arm_session_invocation agent_id invocation_id binding session_ref generation_id input
              now)
            db).1
  complete_session :
      (id : String) (created_at : ℕ) (agent_id invocation_id : String) (binding : Binding)
      (persistence : SessionPersistence) (input : CompleteInvocation) (now : ℕ)
      → Step db
          (run
            (complete_session_invocation id created_at agent_id invocation_id binding persistence
              input now)
            db).1
  mark_uncertain :
      (agent_id invocation_id : String) (binding : Binding) (reason : String) (now : ℕ)
      → Step db
          (run (mark_session_invocation_uncertain agent_id invocation_id binding reason now) db).1
  retire :
      (agent_id : String) (binding : Binding) (reason : String) (now : ℕ)
      → Step db (run (retire_session_binding agent_id binding reason now) db).1

pub data Reaches (db : Db) : Db → Type 0 where
  start : Reaches db db
  next : {middle after : Db} → Reaches db middle → Step middle after → Reaches db after
