-- ===== src/Execution/Session/Bound.antt =====
-- crates/execution/src/session_binding.rs: a native session and the turn that it runs belong to
-- each other.
pub mod Statements
pub mod Turns
pub mod Ends
pub mod Finish
pub mod Quiet
pub mod Runs
use fleetd.Base.{
  ℕ, Bool, true, false, ◌&&◌, ◌||◌, not, ◌≡◌, Option, none, some, String, List, ◌==◌, str_eq,
  holds_text, All,
}
use fleetd.Table.{any}
use fleetd.Table.Laws.{Distinct}
use fleetd.Model.{BindingState}
use fleetd.Db.{Db, BindingRow, TurnRow}
use fleetd.Db.Keeps.{Relation}
use fleetd.Kernel.Delivery.Block.{is_unset}
use fleetd.Execution.Session.{is_active, is_active_turn}

-- PRIMARY KEY (binding_id, binding_generation).
abbrev pub same_binding : BindingRow → BindingRow → Bool
same_binding r s = str_eq r.binding_id s.binding_id && r.binding_generation == s.binding_generation

-- PRIMARY KEY (invocation_id).
abbrev pub same_turn : TurnRow → TurnRow → Bool
same_turn t u = str_eq t.invocation_id u.invocation_id

-- The binding runs the turn's invocation, under the turn's owner epoch.
unfoldable pub runs : TurnRow → BindingRow → Bool
runs t s =
    str_eq s.binding_id t.binding_id
    && s.binding_generation == t.binding_generation
    && s.owner_epoch == t.owner_epoch
    && is_active s.state
    && holds_text s.active_invocation_id t.invocation_id

abbrev pub is_run : List BindingRow → TurnRow → Bool
is_run bindings t = not (is_active_turn t.state) || any (runs t) bindings

abbrev pub turns_for : BindingRow → TurnRow → Bool
turns_for s t = is_active_turn t.state && runs t s

abbrev pub is_busy : List TurnRow → BindingRow → Bool
is_busy turns s = not (is_active s.state) || any (turns_for s) turns

-- The CHECK of migration 0007.
unfoldable pub is_well_formed : BindingRow → Bool
is_well_formed s = elim s.state [
  | BindingState.opening ↦
      is_unset s.session_ref
      && is_unset s.active_invocation_id
      && is_unset s.uncertain_reason
      && is_unset s.retired_reason
      && is_unset s.opened_at_ms
      && is_unset s.retired_at_ms
  | BindingState.ready ↦
      not (is_unset s.session_ref)
      && is_unset s.active_invocation_id
      && is_unset s.uncertain_reason
      && is_unset s.retired_reason
      && not (is_unset s.opened_at_ms)
      && is_unset s.retired_at_ms
  | BindingState.active ↦
      not (is_unset s.session_ref)
      && not (is_unset s.active_invocation_id)
      && is_unset s.uncertain_reason
      && is_unset s.retired_reason
      && not (is_unset s.opened_at_ms)
      && is_unset s.retired_at_ms
  | BindingState.uncertain ↦
      not (is_unset s.session_ref)
      && not (is_unset s.active_invocation_id)
      && not (is_unset s.uncertain_reason)
      && is_unset s.retired_reason
      && not (is_unset s.opened_at_ms)
      && is_unset s.retired_at_ms
  | BindingState.retired ↦
      is_unset s.active_invocation_id
      && not (is_unset s.retired_reason)
      && not (is_unset s.retired_at_ms)
]

pub record IsBound (bindings : List BindingRow) (turns : List TurnRow) : Type 0 where
  pub keys : Distinct same_binding bindings
  pub turn_keys : Distinct same_turn turns
  pub formed : All (λ s. is_well_formed s ≡ true) bindings
  pub served : All (λ t. is_run bindings t ≡ true) turns
  pub busy : All (λ s. is_busy turns s ≡ true) bindings

abbrev pub binding : Relation
binding = record {
  holds = λ db after. IsBound db.bindings db.turns → IsBound after.bindings after.turns;
  same = λ db v. v;
  compose = λ a b c f g v. g (f v);
}
