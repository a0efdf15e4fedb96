-- ===== src/Execution/Fence/Sessions.antt =====
-- crates/execution/src/session_binding.rs: the invocation fence under the operations on sessions,
-- which touch deliveries and invocations only by arming and completing.
use fleetd.Base.{ℕ, ◌≡◌, String, Bool, true, arith}
use fleetd.Model.{ArmInvocation, CompleteInvocation, SessionPersistence}
use fleetd.Db.{Db, BindingRow, TurnRow}
use fleetd.Db.Statements.{update_bindings, update_turns}
use fleetd.Db.Keeps.{Relation, Keeps, keeping}
use fleetd.Execution.Session.{Binding}
use fleetd.Execution.Session.Turn.{mark_turn_uncertain}
use fleetd.Execution.Session.Acquire.{insert_binding_row}
use fleetd.Execution.Session.Dispatch.{insert_turn, start_turn, finish_turn}
use fleetd.Execution.Observation.{begin_invocation_observation}
use fleetd.Execution.Invocation.Arm.{arm_invocation_transaction}
use fleetd.Execution.Invocation.Complete.{complete_invocation_transaction}
use fleetd.Execution.Session.Stores.{Stores}
use fleetd.Execution.Fence.{IsFenced}
use fleetd.Execution.Fence.Arm.{arm-IsFenced}
use fleetd.Execution.Fence.Complete.Transaction.{complete-IsFenced}

abbrev pub fencing : Relation
fencing = record {
  holds = λ db after. IsFenced db → IsFenced after;
  same = λ db v. v;
  compose = λ a b c f g v. g (f v);
}

same_work :
    (db after : Db)
    → after.deliveries ≡ db.deliveries
    → after.invocations ≡ db.invocations
    → IsFenced db
    → IsFenced after
same_work db after ds is v = record {
  fenced = rw (ds, is) v.fenced;
  single = rw is v.single;
  distinct = rw ds v.distinct;
}

binding_updates :
    (p : BindingRow → Bool) (f : BindingRow → BindingRow) → Keeps fencing (update_bindings p f)
unfolding update_bindings
binding_updates p f = record {
  kept = λ db after n e. same_work db after (ground arith) (ground arith);
}

turn_updates : (p : TurnRow → Bool) (f : TurnRow → TurnRow) → Keeps fencing (update_turns p f)
unfolding update_turns
turn_updates p f = record {
  kept = λ db after n e. same_work db after (ground arith) (ground arith);
}

binding_inserts : (new : BindingRow) → Keeps fencing (insert_binding_row new)
unfolding insert_binding_row
binding_inserts new = record {
  kept = λ db after n e. same_work db after (ground arith) (ground arith);
}

turn_inserts : (new : TurnRow) → Keeps fencing (insert_turn new)
unfolding insert_turn
turn_inserts new = record {
  kept = λ db after n e. same_work db after (ground arith) (ground arith);
}

begins_observation :
    (agent_id invocation_id generation_id : String) (binding : Binding) (now : ℕ)
    → Keeps fencing (begin_invocation_observation agent_id invocation_id generation_id binding now)
unfolding begin_invocation_observation
begins_observation agent_id invocation_id generation_id binding now = record {
  kept = λ db after n e. same_work db after (ground arith) (ground arith);
}

ruleset storing = (keeping, binding_updates, turn_updates, turn_inserts)

arms :
    (agent_id invocation_id : String) (input : ArmInvocation) (now : ℕ)
    → Keeps fencing (arm_invocation_transaction agent_id invocation_id input now)
arms agent_id invocation_id input now = record {
  kept = λ db after i e v. arm-IsFenced agent_id invocation_id now input db after i v e;
}

completes :
    (id : String) (at : ℕ) (agent_id invocation_id : String) (input : CompleteInvocation) (now : ℕ)
    (allow : Bool)
    → Keeps fencing (complete_invocation_transaction id at agent_id invocation_id input now allow)
completes id at agent_id invocation_id input now allow = record {
  kept = λ db after r e v.
      complete-IsFenced id at agent_id invocation_id now input allow db after r v e;
}

starts :
    (agent_id invocation_id : String) (binding : Binding) (now : ℕ)
    → Keeps fencing (start_turn agent_id invocation_id binding now)
unfolding start_turn
starts agent_id invocation_id binding now = search (storing)

finishes :
    (agent_id invocation_id : String) (binding : Binding) (persistence : SessionPersistence)
    (now : ℕ)
    → Keeps fencing (finish_turn agent_id invocation_id binding persistence now)
unfolding finish_turn
finishes agent_id invocation_id binding persistence now = search (storing) depth 9

marks :
    (agent_id invocation_id : String) (binding : Binding) (reason : String) (now : ℕ)
    → Keeps fencing (mark_turn_uncertain agent_id invocation_id binding reason now)
unfolding mark_turn_uncertain
marks agent_id invocation_id binding reason now = search (storing) depth 9

pub fencing-Stores : Stores fencing
fencing-Stores = record {
  inserted = λ binding_id generation agent_id input now. binding_inserts _;
  rotated = λ existing agent_id reason now. binding_updates _ _;
  adopted = λ existing owner_epoch owner now next. binding_updates _ _;
  opened = λ agent_id binding session_ref now. binding_updates _ _;
  retired = λ agent_id binding reason now. binding_updates _ _;
  recovered = λ s invocation_id reason now. binding_updates _ _;
  started = starts;
  finished = finishes;
  marked = marks;
  observed = begins_observation;
  armed = arms;
  completed = λ id at agent_id invocation_id input now.
      completes id at agent_id invocation_id input now true;
}
