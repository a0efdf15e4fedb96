-- ===== src/Execution/Answers.antt =====
-- crates/execution/src/settlement.rs: what a settlement answers.
use fleetd.Base.{
  not, Bool, ◌∙◌, refl, ltb, ℕ, none, concat, [], ◌∷◌, if◌then◌else◌, true, false, ◌&&◌, ◌≡◌, some,
  String, arith, inl, inr, Bool-cases, Option-cases, str_eq, holds_text,
}
use fleetd.Error.{ok, err, not_found, lease_conflict}
use fleetd.Table.{find, update}
use fleetd.Table.Laws.{Distinct, find-same, find-holds, update-same}
use fleetd.Db.Statements.{update_invocations}
use fleetd.Execution.Invocation.Complete.{terminalize_invocation, set_terminal}
use fleetd.Model.{Settlement, DeliveryState, InvocationState, ExecutionCertainty}
use fleetd.Db.{InvocationRow, DeliveryRow, Db, same_delivery, of_message}
use fleetd.Kernel.Delivery.Validate.{validate_token}
use fleetd.Kernel.Delivery.{
  leased_row, key_matches, in_window, mark_acknowledged, settle_miss, same_settlement,
  set_acknowledged,
}
use fleetd.Kernel.Delivery.Settling.{settle_lem, addressed}
use fleetd.Execution.Settlement.{acknowledge_delivery}
use fleetd.Execution.Session.Turn.{
  open_under_lease, has_turn, ensure_bound_turn_allows_delivery_settlement,
}
use fleetd.Execution.Fence.Settle.{by_message}
use fleetd.Execution.Fence.Settle.Effects.{settled}

-- The answer in terms of the code's own predicates.
acknowledge_cases :
    (agent_id message_id token : String) (now : ℕ) (db : Db)
    → Distinct same_delivery db.deliveries
    → validate_token token ≡ ok tt
    → find
        (λ i. open_under_lease db.messages agent_id message_id token i && has_turn db i)
        db.invocations
      ≡ none
    → acknowledge_delivery agent_id message_id token now db
      ≡ elim (find
          (addressed db.messages (by_message agent_id message_id token now))
          db.deliveries) [
            | none ↦ err (not_found "delivery" (concat (agent_id ∷ "/" ∷ message_id ∷ [])))
            | some d ↦
                if leased_row db.messages (by_message agent_id message_id token now) d
                then ok (
                  tt,
                  settled agent_id message_id now db token
                      (set_acknowledged token now)
                      (set_terminal ExecutionCertainty.outcome_known "acknowledged" now),
                )
                else if holds_text d.last_settled_lease_token token
                    && same_settlement d.last_settlement Settlement.acknowledged
                then ok (tt, db)
                else err (lease_conflict "lease is expired, invalid, or owned by another worker")
          ]
unfolding acknowledge_delivery mark_acknowledged terminalize_invocation update_invocations
    ensure_bound_turn_allows_delivery_settlement settle_miss key_matches
acknowledge_cases agent_id message_id token now db distinct valid unbound =
    elim (Option-cases
      (find (addressed db.messages (by_message agent_id message_id token now)) db.deliveries)) [
        | inl e ↦ ground (arith, before, same, valid, unbound, e)
        | inr (d, e) ↦
            elim (Bool-cases
              (leased_row db.messages (by_message agent_id message_id token now) d)) [
                | inl live ↦ ground (arith, before, same, valid, unbound, e, live)
                | inr live ↦ ground (arith, before, same, valid, unbound, e, live)
              ]
      ]
  where
    before :
        mark_acknowledged agent_id message_id token now db
        ≡ ok (
          elim (find
              (addressed db.messages (by_message agent_id message_id token now))
              db.deliveries) [
                | none ↦ false
                | some d ↦ leased_row db.messages (by_message agent_id message_id token now) d
              ],
          record db {
            deliveries =
                update
                  (leased_row db.messages (by_message agent_id message_id token now))
                  (set_acknowledged token now)
                  db.deliveries;
          },
        )
    before =
        settle_lem db (by_message agent_id message_id token now) (set_acknowledged token now)
          distinct

    same :
        find
          (λ d. str_eq d.agent_id agent_id && of_message db.messages message_id d.message_seq)
          db.deliveries
        ≡ find (addressed db.messages (by_message agent_id message_id token now)) db.deliveries
    same = find-same _ _ (λ r. ground arith) db.deliveries

-- The delivery is leased under the token, and the lease has not run out.
abbrev pub is_live : String → ℕ → DeliveryRow → Bool
is_live token now d =
    (elim d.state [ DeliveryState.leased ↦ true | _ ↦ false ])
    && holds_text d.lease_token token
    && (elim d.lease_expires_at_ms [ none ↦ false | some expiry ↦ ltb now expiry ])

abbrev pub acknowledged_row : String → ℕ → DeliveryRow → DeliveryRow
acknowledged_row token now d = record d {
  state = DeliveryState.acknowledged;
  lease_token = none;
  lease_expires_at_ms = none;
  last_settled_lease_token = some token;
  last_settlement = some Settlement.acknowledged;
  acknowledged_at_ms = some now;
}

-- An open invocation of the message under the lease, and what it becomes.
abbrev pub is_ending : Db → String → String → String → InvocationRow → Bool
is_ending db agent_id message_id token i =
    str_eq i.agent_id agent_id
    && of_message db.messages message_id i.message_seq
    && str_eq i.lease_token token
    && not (elim i.state [ InvocationState.terminal ↦ true | _ ↦ false ])

abbrev pub ended_row : ℕ → InvocationRow → InvocationRow
ended_row now i = record i {
  state = InvocationState.terminal;
  terminal_at_ms = some now;
  execution_certainty = some ExecutionCertainty.outcome_known;
  terminal_reason = some "acknowledged";
}

abbrev pub is_delivery : Db → String → String → DeliveryRow → Bool
is_delivery db agent_id message_id d =
    of_message db.messages message_id d.message_seq && str_eq d.agent_id agent_id

-- An acknowledgement on every branch, where deliveries have distinct keys, the lease token is
-- valid, and no open invocation under the lease has a session turn: without the delivery it is
-- refused as not found; where the delivery is leased under the token and the lease is live, it
-- acknowledges the delivery and ends the open invocation under the lease; else it succeeds without
-- a change if the token's last settlement of the delivery was an acknowledgement, and is a lease
-- conflict if not.
pub acknowledge_lem :
    (agent_id message_id token : String) (now : ℕ) (db : Db)
    → Distinct same_delivery db.deliveries
    → validate_token token ≡ ok tt
    → find (λ i. is_ending db agent_id message_id token i && has_turn db i) db.invocations ≡ none
    → acknowledge_delivery agent_id message_id token now db
      ≡ elim (find (is_delivery db agent_id message_id) db.deliveries) [
        | none ↦ err (not_found "delivery" (concat (agent_id ∷ "/" ∷ message_id ∷ [])))
        | some d ↦
            if is_live token now d
            then ok (
              tt,
              record db {
                deliveries =
                    update
                      (λ e. is_delivery db agent_id message_id e && is_live token now e)
                      (acknowledged_row token now)
                      db.deliveries;
                invocations =
                    update (is_ending db agent_id message_id token) (ended_row now) db.invocations;
              },
            )
            else if holds_text d.last_settled_lease_token token
                && same_settlement d.last_settlement Settlement.acknowledged
            then ok (tt, db)
            else err (lease_conflict "lease is expired, invalid, or owned by another worker")
      ]
unfolding leased_row key_matches in_window set_acknowledged set_terminal
acknowledge_lem agent_id message_id token now db distinct valid unbound =
    acknowledge_cases agent_id message_id token now db distinct valid unbound
    ∙ elim (Option-cases (find (is_delivery db agent_id message_id) db.deliveries)) [
      | inl e ↦ rw e refl
      | inr (d, e) ↦
          let on = find-holds (is_delivery db agent_id message_id) db.deliveries d e in
          let same : leased_row db.messages (by_message agent_id message_id token now) d
              ≡ is_live token now d =
            ground (arith, on) in
          let rows =
            update-same (leased_row db.messages (by_message agent_id message_id token now))
              (λ k. is_delivery db agent_id message_id k && is_live token now k)
              (acknowledged_row token now) (λ k. ground arith) db.deliveries in
          rw (e, same, rows) refl
    ]
