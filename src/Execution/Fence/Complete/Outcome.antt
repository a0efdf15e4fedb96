-- ===== src/Execution/Fence/Complete/Outcome.antt =====
-- crates/execution/src/invocation.rs: what a new completion asks for, and what it leaves.
use fleetd.Base.{
  ℕ, ◌+◌, Bool, true, ◌&&◌, ◌≡◌, ◌∙◌, ap, some, concat, String, [], ◌∷◌, ◌++◌, arith, ◌==◌, str_eq,
}
use fleetd.Error.{ok}
use fleetd.Table.{update, find}
use fleetd.Table.Laws.{update-same}
use fleetd.Model.{CompleteInvocation, InvocationState, ExecutionCertainty}
use fleetd.Db.{Db, MessageRow, DeliveryRow, InvocationRow, Message, message_from_row}
use fleetd.Kernel.Message.{message_row}
use fleetd.Execution.Invocation.{Fenced, invocation_with_delivery}
use fleetd.Execution.Invocation.Complete.{
  InvocationCompletion, armed_row, set_completed, complete_invocation_transaction, result_input,
  result_key,
}
use fleetd.Execution.Answers.{is_live, acknowledged_row}
use fleetd.Execution.Fence.{IsFenced}
use fleetd.Execution.Fence.Arm.Outcome.{is_own, is_dispatched}
use fleetd.Execution.Fence.Complete.Publish.{complete-Writes}
use fleetd.Execution.Fence.Complete.Transaction.{complete-IsFenced}

-- The answer to a message: to its sender, on its correlation, under the attempt's own key.
abbrev pub answer_row :
    String → ℕ → ℕ → String → String → MessageRow → CompleteInvocation → MessageRow
answer_row id seq created_at agent_id invocation_id request input = record {
  seq = seq;
  id = id;
  channel_id = request.channel_id;
  sender_id = agent_id;
  idempotency_key = some (concat ("invocation/" ∷ invocation_id ∷ "/result" ∷ []));
  recipient_id = some request.sender_id;
  kind = input.kind;
  payload = input.payload;
  correlation_id = request.correlation_id;
  causation_id = some request.id;
  created_at_ms = created_at;
}

-- The same message as its readers see it.
abbrev pub answer : String → ℕ → ℕ → String → MessageRow → CompleteInvocation → Message
answer id seq created_at agent_id request input = record {
  seq = seq;
  id = id;
  channel_id = request.channel_id;
  sender_id = agent_id;
  recipient_id = some request.sender_id;
  kind = input.kind;
  payload = input.payload;
  correlation_id = request.correlation_id;
  causation_id = some request.id;
  created_at_ms = created_at;
}

abbrev pub completed_row : ℕ → ℕ → InvocationRow → InvocationRow
completed_row now result_seq i = record i {
  state = InvocationState.terminal;
  terminal_at_ms = some now;
  execution_certainty = some ExecutionCertainty.outcome_known;
  terminal_reason = some "completed";
  result_message_seq = some result_seq;
}

pub record Publishes (id : String) (created_at : ℕ) (agent_id invocation_id : String)
    (input : CompleteInvocation) (now : ℕ) (db after : Db) (completion : InvocationCompletion)
    : Type 0 where
  -- The armed attempt of that id and agent, whose tokens the caller has.
  pub own : InvocationRow
  pub found : find (is_own agent_id invocation_id) db.invocations ≡ some own
  pub armed : is_dispatched own ≡ true
  pub lease : own.lease_token ≡ input.lease_token
  pub fence : own.fence_token ≡ input.fence_token
  -- Its delivery is held live under that lease, and becomes acknowledged.
  pub delivery : DeliveryRow
  pub at :
      find (λ d. d.message_seq == own.message_seq && str_eq d.agent_id own.agent_id) db.deliveries
      ≡ some delivery
  pub live : is_live input.lease_token now delivery ≡ true
  pub acknowledged :
      find
        (λ d. d.message_seq == own.message_seq && str_eq d.agent_id own.agent_id)
        after.deliveries
      ≡ some (acknowledged_row input.lease_token now delivery)
  -- Its message gets the answer, which is the one new message.
  pub request : MessageRow
  pub asked : find (λ m. m.seq == own.message_seq) db.messages ≡ some request
  pub result :
      completion.result ≡ answer id (db.last_message_seq + 1) created_at agent_id request input
  pub messages :
      after.messages
      ≡ db.messages
        ++ answer_row id (db.last_message_seq + 1) created_at agent_id invocation_id request input
          ∷ []
  -- The attempt ends with that answer, and the fence holds.
  pub invocations :
      after.invocations
      ≡ update
          (λ i. is_own agent_id invocation_id i && is_dispatched i)
          (completed_row now (db.last_message_seq + 1))
          db.invocations
  pub fenced : IsFenced after

module _ (id : String) (created_at : ℕ) (agent_id invocation_id : String) (now : ℕ) where
  pub rows-effect :
      (db : Db) (row : Fenced)
      → invocation_with_delivery agent_id invocation_id db ≡ ok (row, db)
      → (find (is_own agent_id invocation_id) db.invocations ≡ some row.invocation)
        × (find
              (λ d.
                d.message_seq == row.invocation.message_seq
                && str_eq d.agent_id row.invocation.agent_id)
              db.deliveries
            ≡ some row.delivery)
        × (find (λ m. m.seq == row.invocation.message_seq) db.messages ≡ some row.input)
  unfolding invocation_with_delivery
  rows-effect db row h = ground arith

  -- Where the invocation fence holds, a completion that commits as a new one was of the armed
  -- invocation of that id and agent, with its lease and fence tokens, and its delivery was held
  -- live under that lease. The delivery found by the invocation's key becomes acknowledged.
  -- Exactly one message is added, and returned: the answer to the invocation's message, from the
  -- agent to that message's sender, on its channel and correlation, with its id as the cause, with
  -- the given kind and payload, under the key of the invocation's result. The armed invocations of
  -- that id and agent, and no others, end as completed with that message as their result. The
  -- fence holds afterwards.
  pub complete-Publishes :
      (input : CompleteInvocation) (allow_active : Bool) (db after : Db)
      (completion : InvocationCompletion)
      → IsFenced db
      → complete_invocation_transaction id created_at agent_id invocation_id input now allow_active
          db
        ≡ ok ((completion, true), after)
      → Publishes id created_at agent_id invocation_id input now db after completion
  unfolding message_row message_from_row result_input result_key set_completed
  complete-Publishes input allow_active db after completion v h =
      let w =
        complete-Writes id created_at agent_id invocation_id now input allow_active db after
          completion v h in
      let (found, at, asked) = rows-effect db w.row w.read in
      record {
        own = w.row.invocation;
        found = found;
        armed = ground (arith, w.armed);
        lease = w.lease;
        fence = w.fence;
        delivery = w.row.delivery;
        at = at;
        live = w.live;
        acknowledged = w.delivery;
        request = w.row.input;
        asked = asked;
        result = w.result;
        messages = w.messages;
        invocations =
            w.invocations
            ∙ ap
                (λ seq.
                  update (armed_row agent_id invocation_id) (set_completed now seq) db.invocations)
                (ap (λ (m : Message). m.seq) w.result)
            ∙ update-same (armed_row agent_id invocation_id)
                (λ i. is_own agent_id invocation_id i && is_dispatched i)
                (completed_row now (db.last_message_seq + 1)) (λ i. ground arith) db.invocations;
        fenced =
            complete-IsFenced id created_at agent_id invocation_id now input allow_active db after
              (completion, true) v h;
      }
