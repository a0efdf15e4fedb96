-- ===== src/Execution/Fence/Complete/Again.antt =====
-- crates/execution/src/invocation.rs: a completion that is repeated.
use fleetd.Base.{
  ℕ, ◌+◌, ◌≤◌, Bool, true, false, ◌≡◌, ◌∙◌, refl, ap, sym, String, All, if◌then◌else◌,
}
use fleetd.Error.{ok}
use fleetd.Table.Laws.{find-append_some}
use fleetd.Model.{CompleteInvocation}
use fleetd.Db.{Db, Message, message_from_row}
use fleetd.Db.Tx.{bind_ok, pure}
use fleetd.Kernel.Message.{message_row}
use fleetd.Kernel.Message.Append.{new_matches}
use fleetd.Execution.Session.Turn.{ensure_invocation_not_active_on_session}
use fleetd.Execution.Session.Apart.Invocations.{complete_apart}
use fleetd.Execution.Invocation.Complete.{
  InvocationCompletion, complete_invocation_transaction, result_input, validate_completion,
}
use fleetd.Execution.Fence.{IsFenced}
use fleetd.Execution.Fence.Complete.Outcome.{rows-effect}
use fleetd.Execution.Fence.Complete.Publish.{complete-Writes}
use fleetd.Execution.Fence.Complete.Transaction.{completion_checks-same}
use fleetd.Execution.Fence.Complete.Reread.{
  turns-IsApart, checks-again, session-again, own-again, read-again, static-again, new_read,
  replay-again, repeats,
}

module _ (id : String) (created_at : ℕ) (agent_id invocation_id : String) (now : ℕ) where
  -- Where the invocation fence holds and no message has a number above the last one drawn, a new
  -- completion that committed can be repeated with the same input, whatever id and times the
  -- repeat would draw: the repeat returns the same invocation and the same result, says that the
  -- completion is not new, and changes nothing.
  pub complete-again :
      (id' : String) (created_at' later : ℕ) (input : CompleteInvocation) (allow_active : Bool)
      (db after : Db) (completion : InvocationCompletion)
      → IsFenced db
      → All (λ m. m.seq ≤ db.last_message_seq) db.messages
      → complete_invocation_transaction id created_at agent_id invocation_id input now allow_active
          db
        ≡ ok ((completion, true), after)
      → complete_invocation_transaction id' created_at' agent_id invocation_id input later
          allow_active after
        ≡ ok ((completion, false), after)
  unfolding complete_invocation_transaction message_row message_from_row result_input
  complete-again id' created_at' later input allow_active db after completion v bounded h =
      bind_ok (validate_completion invocation_id input) _ db h λ u0 db0 e0 k0.
        bind_ok
          (if allow_active then pure tt else ensure_invocation_not_active_on_session invocation_id)
          _ db0 k0
          λ u1 db1 e1 k1.
            let w =
              complete-Writes id created_at agent_id invocation_id now input allow_active db after
                completion v h in
            let (own, _, request) =
              rows-effect id created_at agent_id invocation_id now db w.row w.read in
            let start : db0 ≡ db =
              completion_checks-same id created_at agent_id invocation_id now input db db0 e0 in
            let turns : after.turns ≡ db.turns =
              (complete_apart turns-IsApart id created_at agent_id invocation_id input now
                  allow_active).kept
                db after (completion, true) h in
            let read =
              read-again agent_id invocation_id input now completion.result.seq w.row after
                (rw w.invocations (
                  own-again agent_id invocation_id input now completion.result.seq db.invocations
                    w.row.invocation own w.armed))
                w.delivery (rw w.messages (find-append_some _ db.messages _ w.row.input request)) in
            let matched =
              new_matches id created_at w.row.input.channel_id
                (result_input agent_id invocation_id w.row input) (db.last_message_seq + 1) in
            let new : completion.result.seq ≡ db.last_message_seq + 1 =
              ap (λ (m : Message). m.seq) w.result in
            let row =
              message_row (db.last_message_seq + 1) id created_at w.row.input.channel_id
                (result_input agent_id invocation_id w.row input) in
            let replay =
              replay-again agent_id invocation_id input now completion.result.seq w.row row
                (result_input agent_id invocation_id w.row input) completion after
                (rw (w.messages, new)
                  (new_read agent_id invocation_id input db.messages db.last_message_seq row bounded
                    refl))
                matched w.result w.reread in
            repeats agent_id invocation_id input id' created_at' now later completion.result.seq
              allow_active w.row completion after
              (checks-again agent_id invocation_id input db db0 after e0)
              (session-again agent_id invocation_id input allow_active db0 db1 after
                (turns ∙ ap (λ x. x.turns) (sym start)) e1)
              read
              (static-again agent_id invocation_id input now completion.result.seq w.row.invocation
                after w.lease w.fence)
              replay
