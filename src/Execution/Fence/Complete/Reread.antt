-- ===== src/Execution/Fence/Complete/Reread.antt =====
-- crates/execution/src/invocation.rs: each step of a completion that is repeated.
use mathlib.Core.Option
use fleetd.Base.{
  ℕ, ◌+◌, ◌≤◌, Bool, true, false, ◌≡◌, ◌∙◌, refl, ap, some, String, List, [], ◌∷◌, ◌++◌, arith,
  ◌==◌, str_eq_iff, All, All-map, if◌then◌else◌,
}
use fleetd.Error.{ok}
use fleetd.Table.{update, find}
use fleetd.Table.Laws.{find-update, find-holds, find-append, find-none}
use fleetd.Model.{CompleteInvocation, CreateMessage}
use fleetd.Db.{Db, MessageRow, InvocationRow, delivery_key, message_from_row}
use fleetd.Db.Tx.{bind_run, pure}
use fleetd.Db.Keeps.{Relation}
use fleetd.Kernel.Message.{message_matches_input}
use fleetd.Execution.Session.Turn.{is_armed, ensure_invocation_not_active_on_session}
use fleetd.Execution.Session.Apart.{IsApart}
use fleetd.Execution.Invocation.{
  Fenced, invocation_with_delivery, validate_static_fence, invocation_by_id,
}
use fleetd.Execution.Invocation.Complete.{
  InvocationCompletion, armed_row, set_completed, complete_invocation_transaction, complete_as,
  completed_replay, message_by_seq, result_input, validate_completion,
}
use fleetd.Execution.Answers.{acknowledged_row}
use fleetd.Execution.Fence.Arm.Outcome.{is_own}

abbrev pub same_turns : Relation
same_turns = record {
  holds = λ db after. after.turns ≡ db.turns;
  same = λ db. refl;
  compose = λ a b c h k. k ∙ h;
}

pub turns-IsApart : IsApart same_turns
turns-IsApart = record { apart = λ db after bs ts. ts }

-- The completed attempt, with its settled delivery.
abbrev pub closed : CompleteInvocation → ℕ → ℕ → Fenced → Fenced
closed input now seq row = record {
  invocation = set_completed now seq row.invocation;
  delivery = acknowledged_row input.lease_token now row.delivery;
  input = row.input;
}

module _ (agent_id invocation_id : String) (input : CompleteInvocation) where
  -- The checks before the row is read look at the input and the turns only.
  pub checks-again :
      (db middle after : Db)
      → validate_completion invocation_id input db ≡ ok (tt, middle)
      → validate_completion invocation_id input after ≡ ok (tt, after)
  unfolding validate_completion
  checks-again db middle after h = ground arith

  pub session-again :
      (allow_active : Bool) (db middle after : Db)
      → after.turns ≡ db.turns
      → (if allow_active then pure tt else ensure_invocation_not_active_on_session invocation_id) db
        ≡ ok (tt, middle)
      → (if allow_active then pure tt else ensure_invocation_not_active_on_session invocation_id)
          after
        ≡ ok (tt, after)
  unfolding ensure_invocation_not_active_on_session
  session-again true db middle after same h = refl
  session-again false db middle after same h = ground arith

  pub own-again :
      (now seq : ℕ) (rs : List InvocationRow) (own : InvocationRow)
      → find (is_own agent_id invocation_id) rs ≡ some own
      → is_armed own.state ≡ true
      → find
          (is_own agent_id invocation_id)
          (update (armed_row agent_id invocation_id) (set_completed now seq) rs)
        ≡ some (set_completed now seq own)
  unfolding set_completed
  own-again now seq rs own e armed =
      let on = find-holds (is_own agent_id invocation_id) rs own e in
      find-update (armed_row agent_id invocation_id) (set_completed now seq)
        (is_own agent_id invocation_id) (λ i. refl) rs
      ∙ ap (Option.map _) e
      ∙ rw (on, armed) refl

  pub read-again :
      (now seq : ℕ) (row : Fenced) (after : Db)
      → find (is_own agent_id invocation_id) after.invocations
        ≡ some (set_completed now seq row.invocation)
      → find (delivery_key row.invocation.message_seq row.invocation.agent_id) after.deliveries
        ≡ some (acknowledged_row input.lease_token now row.delivery)
      → find (λ m. m.seq == row.invocation.message_seq) after.messages ≡ some row.input
      → invocation_with_delivery agent_id invocation_id after ≡ ok (closed input now seq row, after)
  unfolding invocation_with_delivery set_completed
  read-again now seq row after own delivery request = ground (arith, own, delivery, request)

  pub static-again :
      (now seq : ℕ) (own : InvocationRow) (after : Db)
      → own.lease_token ≡ input.lease_token
      → own.fence_token ≡ input.fence_token
      → validate_static_fence (set_completed now seq own) input.lease_token input.fence_token after
        ≡ ok (tt, after)
  unfolding validate_static_fence set_completed
  static-again now seq own after lease fence = ground (
    arith,
    str_eq_iff own.lease_token input.lease_token,
    str_eq_iff own.fence_token input.fence_token,
  )

  -- The result is read back under the number that the attempt keeps.
  pub new_read :
      (ms : List MessageRow) (last : ℕ) (new : MessageRow)
      → All (λ m. m.seq ≤ last) ms
      → new.seq ≡ last + 1
      → find (λ m. m.seq == last + 1) (ms ++ new ∷ []) ≡ some new
  unfolding find
  new_read ms last new bounded is_new =
      find-append (λ m. m.seq == last + 1) ms (new ∷ [])
        (find-none (λ m. m.seq == last + 1) ms
          (All-map (λ m (le : m.seq ≤ last). ground arith) ms bounded))
      ∙ rw is_new (ground arith)

  pub replay-again :
      (now seq : ℕ) (row : Fenced) (new : MessageRow) (expected : CreateMessage)
      (completion : InvocationCompletion) (after : Db)
      → find (λ m. m.seq == seq) after.messages ≡ some new
      → message_matches_input (message_from_row new) row.input.channel_id expected ≡ true
      → completion.result ≡ message_from_row new
      → invocation_by_id invocation_id after ≡ ok (completion.invocation, after)
      → completed_replay invocation_id (closed input now seq row) expected after
        ≡ ok (completion, after)
  unfolding completed_replay message_by_seq set_completed
  replay-again now seq row new expected completion after found matches result reread =
      ground (arith, found, matches, result, reread)

  pub repeats :
      (id : String) (created_at now later seq : ℕ) (allow_active : Bool) (row : Fenced)
      (completion : InvocationCompletion) (after : Db)
      → validate_completion invocation_id input after ≡ ok (tt, after)
      → (if allow_active then pure tt else ensure_invocation_not_active_on_session invocation_id)
          after
        ≡ ok (tt, after)
      → invocation_with_delivery agent_id invocation_id after ≡ ok (closed input now seq row, after)
      → validate_static_fence
          (set_completed now seq row.invocation)
          input.lease_token
          input.fence_token
          after
        ≡ ok (tt, after)
      → completed_replay invocation_id
          (closed input now seq row)
          (result_input agent_id invocation_id (closed input now seq row) input)
          after
        ≡ ok (completion, after)
      → complete_invocation_transaction id created_at agent_id invocation_id input later
          allow_active after
        ≡ ok ((completion, false), after)
  unfolding complete_invocation_transaction complete_as set_completed
  repeats id created_at now later seq allow_active row completion after checked quiet read fenced
        replayed =
      bind_run (validate_completion invocation_id input) _ after checked (
        bind_run
          (if allow_active then pure tt else ensure_invocation_not_active_on_session invocation_id)
          _ after quiet
          (bind_run (invocation_with_delivery agent_id invocation_id) _ after read (
            bind_run
              (validate_static_fence (set_completed now seq row.invocation) input.lease_token
                input.fence_token)
              _ after fenced
              (bind_run
                (completed_replay invocation_id (closed input now seq row)
                  (result_input agent_id invocation_id (closed input now seq row) input))
                _ after replayed refl))))
