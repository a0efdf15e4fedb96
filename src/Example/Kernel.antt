-- ===== src/Example/Kernel.antt =====
-- Deliveries, messages and the vocabulary on concrete values.
use fleetd.Base.{◌≤◌, true, false, ◌≡◌, ◌↔◌, ◌⊎◌, refl, none, some, All, length, arith}
use fleetd.Error.{Result, ok, err, conflict}
use fleetd.Table.{find, update, count}
use fleetd.Model.{
  InvocationState, DeliveryState, ExecutionCertainty, BindingState, BlockResolution,
  ResolveDeliveryBlock,
}
use fleetd.Model.Names.{
  parse_delivery_state, delivery_state_name, parse_delivery_state-name, parse_invocation_state,
  invocation_state_name, parse_invocation_state-name, parse_certainty, certainty_name,
  parse_certainty-name, parse_binding_state, binding_state_name, parse_binding_state-name,
}
use fleetd.Db.{Db}
use fleetd.Kernel.Delivery.{settle, leased_row, key_matches, in_window, set_acknowledged}
use fleetd.Kernel.Delivery.Validate.{
  validate_claim, validate_resolution, validate_evidence, validate_token,
}
use fleetd.Base.Text.{is_whitespace, is_blank}
use fleetd.Base.{◌&&◌}
use fleetd.Db.Tx.{to_i64, checked_add}
use fleetd.Kernel.Delivery.Block.{
  resolve_delivery_block_transaction, resolution_row, apply_resolution, resolution_is_replay,
  resolve_delivery_row, resolve_row_as, mark_block_resolved, set_requeued, set_resolved,
}
use fleetd.Kernel.Delivery.Deciding.Repeat.{resolve-again, resolve-conflict}
use fleetd.Kernel.Delivery.Bounds.{IsEvidence, validate_claim-ok, validate_resolution-ok}
use fleetd.Kernel.Delivery.Claim.{claimable, chosen, is_among}
use fleetd.Kernel.Delivery.Oldest.{chosen_lem}
use fleetd.Kernel.Message.{append_message_in_transaction}
use fleetd.Kernel.Message.Append.{append-again}
use fleetd.Db.Statements.{update_deliveries}
use fleetd.Execution.Settlement.{acknowledge_delivery}
use fleetd.Execution.Session.Turn.{has_turn}
use fleetd.Execution.Replay.{acknowledge-again}
use fleetd.Execution.Answers.{
  acknowledge_lem, is_live, is_delivery, is_ending, acknowledged_row, ended_row,
}
use fleetd.Base.{Bool}
use fleetd.Kernel.Delivery.{mark_acknowledged}
use fleetd.Kernel.Delivery.Spent.{Ending, mark, mark_spent}
use fleetd.Example.Data.{commits, parked, outcome, outcome_eq, request, quiet, delivered, working}
use fleetd.Example.Runs.{runs, decision, claim, acknowledging, appending}

acknowledge-again_example :
    acknowledge_delivery "worker" "m-1" "lease-1" 60 (outcome acknowledging runs.0).1
    ≡ ok (tt, (outcome acknowledging runs.0).1)
acknowledge-again_example =
    acknowledge-again "worker" "m-1" "lease-1" 50 60 (working InvocationState.dispatch_armed)
      (outcome acknowledging runs.0).1 (tt, tt) (omega arith) (outcome_eq acknowledging runs.0)

append-again_example :
    append_message_in_transaction "m-9" 99 "tasks" request (outcome appending runs.10).1
    ≡ ok (
      record { message = (outcome appending runs.10).0.message; created = false },
      (outcome appending runs.10).1,
    )
append-again_example =
    append-again "m-1" 10 "m-9" 99 "tasks" "task-1" request quiet (outcome appending runs.10).1
      (outcome appending runs.10).0 refl (outcome_eq appending runs.10)

abbrev acknowledged : Result (Bool × Db)
acknowledged =
    mark Ending.acknowledging "worker" "m-1" "lease-1" 50 (working InvocationState.dispatch_armed)

acknowledged_commits : commits acknowledged ≡ true
unfolding mark_acknowledged settle update_deliveries count update find leased_row key_matches
    in_window set_acknowledged
acknowledged_commits = refl

acknowledged_eq : acknowledged ≡ ok (true, (outcome acknowledged acknowledged_commits).1)
unfolding mark_acknowledged settle update_deliveries count update find leased_row key_matches
    in_window set_acknowledged
acknowledged_eq = refl

mark_spent_example :
    mark
      (Ending.retrying 1000 1070 (some "busy"))
      "worker"
      "m-1"
      "lease-1"
      70
      (outcome acknowledged acknowledged_commits).1
    ≡ ok (false, (outcome acknowledged acknowledged_commits).1)
mark_spent_example =
    mark_spent Ending.acknowledging (Ending.retrying 1000 1070 (some "busy")) "worker" "m-1"
      "lease-1" 50 70 (working InvocationState.dispatch_armed)
      (outcome acknowledged acknowledged_commits).1 (tt, tt) acknowledged_eq

chosen_lem_example :
    (length (chosen delivered "worker" 20 10 none) ≤ 10)
    × All
        (λ d. claimable delivered.messages "worker" 20 none d ≡ true)
        (chosen delivered "worker" 20 10 none)
    × All
        (λ d.
          claimable delivered.messages "worker" 20 none d ≡ true
          → (is_among (chosen delivered "worker" 20 10 none) d ≡ true)
            ⊎ ((length (chosen delivered "worker" 20 10 none) ≡ 10)
                × All (λ c. c.message_seq ≤ d.message_seq) (chosen delivered "worker" 20 10 none)))
        delivered.deliveries
chosen_lem_example = chosen_lem delivered "worker" 20 10 none

validate_claim-ok_example : (validate_claim claim ≡ ok tt) ↔ (
    (1 ≤ claim.limit)
    × (claim.limit ≤ 100)
    × (1 ≤ claim.lease_duration_ms)
    × (claim.lease_duration_ms ≤ 3600000))
validate_claim-ok_example = validate_claim-ok claim

validate_resolution-ok_example : (validate_resolution 1 decision ≡ ok tt) ↔ (
    (1 ≤ 1)
    × (decision.retry_after_ms ≤ 86400000)
    × (decision.resolution ≡ BlockResolution.abandon → decision.retry_after_ms ≡ 0)
    × IsEvidence decision.note)
validate_resolution-ok_example = validate_resolution-ok 1 decision

parse_delivery_state-name_example :
    (parse_delivery_state "leased" ≡ some DeliveryState.leased)
    ↔ (delivery_state_name DeliveryState.leased ≡ "leased")
parse_delivery_state-name_example = parse_delivery_state-name "leased" DeliveryState.leased

parse_invocation_state-name_example :
    (parse_invocation_state "reserved" ≡ some InvocationState.reserved)
    ↔ (invocation_state_name InvocationState.reserved ≡ "reserved")
parse_invocation_state-name_example =
    parse_invocation_state-name "reserved" InvocationState.reserved

parse_certainty-name_example :
    (parse_certainty "not_started" ≡ some ExecutionCertainty.not_started)
    ↔ (certainty_name ExecutionCertainty.not_started ≡ "not_started")
parse_certainty-name_example = parse_certainty-name "not_started" ExecutionCertainty.not_started

parse_binding_state-name_example :
    (parse_binding_state "ready" ≡ some BindingState.ready)
    ↔ (binding_state_name BindingState.ready ≡ "ready")
parse_binding_state-name_example = parse_binding_state-name "ready" BindingState.ready

-- The decision on the parked delivery, without its session.
abbrev deciding : Result (Unit {0} × Db)
deciding = resolve_delivery_block_transaction 1 decision 60 parked

deciding_commits : commits deciding ≡ true
unfolding resolve_delivery_block_transaction validate_resolution validate_evidence is_blank
    is_whitespace to_i64 resolution_row apply_resolution resolution_is_replay resolve_delivery_row
    resolve_row_as checked_add update_deliveries mark_block_resolved find count update set_requeued
    set_resolved
deciding_commits = refl

abbrev other_decision : ResolveDeliveryBlock
other_decision = record { resolution = BlockResolution.abandon; retry_after_ms = 0; note = none }

other_valid : validate_resolution 1 other_decision ≡ ok tt
unfolding validate_resolution validate_evidence
other_valid = refl

resolve-again_example :
    resolve_delivery_block_transaction 1 decision 90 (outcome deciding deciding_commits).1
    ≡ ok (tt, (outcome deciding deciding_commits).1)
resolve-again_example =
    resolve-again 1 decision 60 90 parked (outcome deciding deciding_commits).1
      (outcome_eq deciding deciding_commits)

resolve-conflict_example :
    resolve_delivery_block_transaction 1 other_decision 90 (outcome deciding deciding_commits).1
    ≡ err (conflict "delivery block was already resolved differently")
resolve-conflict_example =
    resolve-conflict 1 decision other_decision 60 90 parked (outcome deciding deciding_commits).1
      (outcome_eq deciding deciding_commits) other_valid refl

lease_valid : validate_token "lease-1" ≡ ok tt
unfolding validate_token is_blank is_whitespace
lease_valid = refl

abbrev before : Db
before = working InvocationState.dispatch_armed

unbound :
    find (λ i. is_ending before "worker" "m-1" "lease-1" i && has_turn before i) before.invocations
    ≡ none
unfolding find
unbound = refl

acknowledge_lem_example :
    acknowledge_delivery "worker" "m-1" "lease-1" 50 before
    ≡ ok (
      tt,
      record before {
        deliveries =
            update
              (λ e. is_delivery before "worker" "m-1" e && is_live "lease-1" 50 e)
              (acknowledged_row "lease-1" 50)
              before.deliveries;
        invocations =
            update (is_ending before "worker" "m-1" "lease-1") (ended_row 50) before.invocations;
      },
    )
unfolding find
acknowledge_lem_example =
    acknowledge_lem "worker" "m-1" "lease-1" 50 before (tt, tt) lease_valid unbound
