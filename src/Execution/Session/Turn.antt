-- ===== src/Execution/Session/Turn.antt =====
-- crates/execution/src/session_binding.rs: what the invocation fence asks of a bound turn.
use fleetd.Base.{
  ℕ, Bool, true, false, ◌&&◌, ◌||◌, not, Option, none, some, String, List, [], ◌∷◌, ◌==◌, str_eq,
  holds_text, if◌then◌else◌, concat, decimal,
}
use fleetd.Error.{FleetError, conflict}
use fleetd.Table.{find}
use fleetd.Model.{BindingState, TurnState, InvocationState, ExecutionCertainty, BlockResolution}
use fleetd.Db.{Db, BindingRow, TurnRow, InvocationRow, BlockRow, MessageRow, of_message}
use fleetd.Db.Statements.{update_bindings, update_turns}
use fleetd.Db.Tx.{Tx, ◌>>=◌, ◌>>◌, pure, fail, fail_if, get, lift}
use fleetd.Execution.Session.{
  Binding, check_fence, owner_fence, is_active, is_uncertain, is_retired, is_active_turn,
  is_uncertain_turn, require_one,
}

abbrev pub is_terminal : InvocationState → Bool
is_terminal InvocationState.terminal = true
is_terminal _ = false

abbrev pub is_armed : InvocationState → Bool
is_armed InvocationState.dispatch_armed = true
is_armed _ = false

-- The turn of an invocation; the invocation's id is the table's primary key.
abbrev pub turn_of : Db → String → Option TurnRow
turn_of db invocation_id = find (λ t. str_eq t.invocation_id invocation_id) db.turns

-- The binding generation of a turn.
abbrev pub binding_of : Db → TurnRow → Option BindingRow
binding_of db t =
    find (λ s. str_eq s.binding_id t.binding_id && s.binding_generation == t.binding_generation)
      db.bindings

abbrev pub binding_fence_error : FleetError
binding_fence_error = conflict "session-bound invocation must be settled through its binding fence"

unfoldable pub ensure_invocation_not_active_on_session : String → Tx (Unit {0})
ensure_invocation_not_active_on_session invocation_id = do
  db ← get
  elim (turn_of db invocation_id) [
    | none ↦ pure tt
    | some t ↦ fail_if (is_active_turn t.state || is_uncertain_turn t.state) binding_fence_error
  ]

-- An open invocation under one lease of one agent's delivery of a message.
abbrev pub open_under_lease : List MessageRow → String → String → String → InvocationRow → Bool
open_under_lease messages agent_id message_id lease_token i =
    str_eq i.agent_id agent_id
    && of_message messages message_id i.message_seq
    && str_eq i.lease_token lease_token
    && not (is_terminal i.state)

abbrev allows_settlement : TurnState → Bool → Bool
allows_settlement TurnState.quiescent allow_uncertain_block = true
allows_settlement TurnState.uncertain allow_uncertain_block = allow_uncertain_block
allows_settlement TurnState.active allow_uncertain_block = false

abbrev pub has_turn : Db → InvocationRow → Bool
has_turn db i = elim (turn_of db i.id) [ none ↦ false | some t ↦ true ]

unfoldable pub ensure_bound_turn_allows_delivery_settlement :
    String → String → String → Bool → Tx (Unit {0})
ensure_bound_turn_allows_delivery_settlement agent_id message_id lease_token allow_uncertain_block =
    do
      db ← get
      elim (find
          (λ i. open_under_lease db.messages agent_id message_id lease_token i && has_turn db i)
          db.invocations) [
            | none ↦ pure tt
            | some i ↦ elim (turn_of db i.id) [
              | none ↦ pure tt
              | some t ↦
                  fail_if (not (allows_settlement t.state allow_uncertain_block))
                    binding_fence_error
            ]
          ]

abbrev pub active_turn : String → TurnRow → Bool
active_turn invocation_id t = str_eq t.invocation_id invocation_id && is_active_turn t.state

unfoldable pub set_turn_uncertain : String → ℕ → TurnRow → TurnRow
set_turn_uncertain reason now t = record t {
  state = TurnState.uncertain;
  terminal_at_ms = some now;
  uncertain_reason = some reason;
}

unfoldable pub set_binding_uncertain : String → ℕ → BindingRow → BindingRow
set_binding_uncertain reason now s = record s {
  state = BindingState.uncertain;
  uncertain_reason = some reason;
  updated_at_ms = now;
}

-- The current binding that runs an invocation, under its owner's fence.
abbrev pub running_binding : String → Binding → String → BindingRow → Bool
running_binding agent_id binding invocation_id s =
    owner_fence agent_id binding s
    && is_active s.state
    && holds_text s.active_invocation_id invocation_id

unfoldable pub mark_turn_uncertain : String → String → Binding → String → ℕ → Tx (Unit {0})
mark_turn_uncertain agent_id invocation_id binding reason now = do
  lift (check_fence binding)
  turns ← update_turns (active_turn invocation_id) (set_turn_uncertain reason now)
  require_one turns "session turn changed while fencing uncertainty"
  bindings ←
      update_bindings (running_binding agent_id binding invocation_id)
        (set_binding_uncertain reason now)
  require_one bindings "session binding changed while fencing uncertainty"

abbrev binding_of_row : TurnRow → Binding
binding_of_row t = record {
  binding_id = t.binding_id;
  binding_generation = t.binding_generation;
  owner_epoch = t.owner_epoch;
}

-- `mark_expired_session_turn_uncertain`, once the turn and its binding have been read.
unfoldable pub fence_expired_turn : TurnRow → BindingRow → String → String → ℕ → Tx (Unit {0})
fence_expired_turn t s invocation_id reason now = do
  fail_if (not (holds_text s.active_invocation_id invocation_id))
      (conflict "expired session turn is not the binding's active invocation")
  if is_uncertain_turn t.state && is_uncertain s.state then pure tt else do
    fail_if (not (is_active_turn t.state) || not (is_active s.state))
        (conflict "expired invocation has inconsistent session binding state")
    mark_turn_uncertain s.agent_id invocation_id (binding_of_row t) reason now

unfoldable pub mark_expired_session_turn_uncertain : String → String → ℕ → Tx (Unit {0})
mark_expired_session_turn_uncertain invocation_id reason now = do
  db ← get
  elim (turn_of db invocation_id) [
    | none ↦ pure tt
    | some t ↦ elim (binding_of db t) [
      | none ↦ pure tt
      | some s ↦ fence_expired_turn t s invocation_id reason now
    ]
  ]

abbrev resolution_name : BlockResolution → String
resolution_name BlockResolution.requeue = "requeued"
resolution_name BlockResolution.abandon = "abandoned"

unfoldable pub retirement_reason : ℕ → BlockResolution → String
retirement_reason block_id resolution =
    concat (
      "operator_resolved_delivery_block_"
      ∷ decimal block_id
      ∷ "_"
      ∷ resolution_name resolution
      ∷ [])

unfoldable pub set_retired : String → ℕ → BindingRow → BindingRow
set_retired reason now s = record s {
  state = BindingState.retired;
  active_invocation_id = none;
  retired_reason = some reason;
  retired_at_ms = some now;
  updated_at_ms = now;
}

abbrev is_outcome_unknown : Option ExecutionCertainty → Bool
is_outcome_unknown (some ExecutionCertainty.outcome_unknown) = true
is_outcome_unknown _ = false

abbrev pub is_recoverable : InvocationRow → TurnRow → BindingRow → Bool
is_recoverable i t s =
    is_terminal i.state
    && is_outcome_unknown i.execution_certainty
    && is_uncertain_turn t.state
    && is_uncertain s.state
    && holds_text s.active_invocation_id i.id

-- The uncertain binding of an invocation, under its stored fence.
abbrev pub uncertain_run : BindingRow → String → BindingRow → Bool
uncertain_run s invocation_id r =
    owner_fence s.agent_id
      (record {
        binding_id = s.binding_id;
        binding_generation = s.binding_generation;
        owner_epoch = s.owner_epoch;
      })
      r
    && is_uncertain r.state
    && holds_text r.active_invocation_id invocation_id

-- `retire_uncertain_session_for_delivery_block`, once the evidence has been read.
unfoldable pub retire_uncertain_binding :
    InvocationRow → TurnRow → BindingRow → String → ℕ → Tx Bool
retire_uncertain_binding i t s reason now =
    if is_retired s.state
    then (if holds_text s.retired_reason reason
        then pure true
        else fail (conflict "delivery block session was already retired differently"))
    else do
      fail_if (not (is_recoverable i t s))
          (conflict "delivery block does not identify one recoverable uncertain session")
      rows ← update_bindings (uncertain_run s i.id) (set_retired reason now)
      require_one rows "uncertain session changed during operator recovery"
      pure true

abbrev has_binding : Db → InvocationRow → Bool
has_binding db i = elim (turn_of db i.id) [
  | none ↦ false
  | some t ↦ elim (binding_of db t) [ none ↦ false | some s ↦ true ]
]

-- The invocation that a block parked, if a session was bound to it.
abbrev parked_by : Db → BlockRow → InvocationRow → Bool
parked_by db b i =
    i.message_seq == b.message_seq
    && str_eq i.agent_id b.agent_id
    && str_eq i.lease_token b.lease_token
    && has_binding db i

unfoldable pub recovery_row : Db → ℕ → Option (InvocationRow × TurnRow × BindingRow)
recovery_row db block_id = elim (find (λ b. b.id == block_id) db.blocks) [
  | none ↦ none
  | some b ↦ elim (find (parked_by db b) db.invocations) [
    | none ↦ none
    | some i ↦ elim (turn_of db i.id) [
      | none ↦ none
      | some t ↦ elim (binding_of db t) [ none ↦ none | some s ↦ some (i, t, s) ]
    ]
  ]
]

unfoldable pub retire_uncertain_session_for_delivery_block : ℕ → BlockResolution → ℕ → Tx Bool
retire_uncertain_session_for_delivery_block block_id resolution now = do
  db ← get
  elim (recovery_row db block_id) [
    | none ↦ pure false
    | some (i, t, s) ↦ retire_uncertain_binding i t s (retirement_reason block_id resolution) now
  ]
