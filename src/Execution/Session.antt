-- ===== src/Execution/Session.antt =====
-- crates/execution/src/session_binding.rs: a native session's owner fence and its turns.
pub mod Turn
pub mod Rows
pub mod Acquire
pub mod Open
pub mod Retire
pub mod Listing
pub mod Dispatch
pub mod Reads
pub mod Apart
pub mod Stores
pub mod Lifecycle
pub mod Owner
pub mod Granted
pub mod Bound
use fleetd.Base.{
  ℕ, Bool, true, false, ◌&&◌, not, Option, none, some, String, List, [], ◌∷◌, ◌==◌, str_eq, ltb,
  if◌then◌else◌, concat, is_blank, len, decimal,
}
use fleetd.Error.{FleetError, Result, invalid, conflict, refuse_if, ◌>>◌, ok}
use fleetd.Model.{BindingState, TurnState}
use fleetd.Db.{Db, BindingRow, i64_max}
use fleetd.Db.Tx.{Tx, fail_if}

-- The part of a binding that a caller presents.
pub record Binding : Type 0 where
  pub binding_id : String
  pub binding_generation : ℕ
  pub owner_epoch : ℕ

abbrev pub max_id_bytes : ℕ
max_id_bytes = 256

abbrev pub max_reason_bytes : ℕ
max_reason_bytes = 4096

unfoldable pub validate_bounded : String → String → ℕ → Result (Unit {0})
validate_bounded label value limit = do
  refuse_if (is_blank value) (invalid (concat (label ∷ " must not be empty" ∷ [])))
  refuse_if (ltb limit (len value))
      (invalid (concat (label ∷ " must not exceed " ∷ decimal limit ∷ " bytes" ∷ [])))

-- `as_i64`: the number must fit the column, and is never 0.
unfoldable pub check_i64 : String → ℕ → Result (Unit {0})
check_i64 label value = do
  refuse_if (value == 0) (invalid (concat (label ∷ " must be greater than zero" ∷ [])))
  refuse_if (ltb i64_max value) (invalid (concat (label ∷ " is too large" ∷ [])))

unfoldable pub validate_binding : Binding → Result (Unit {0})
unfolding validate_bounded check_i64
validate_binding binding = do
  validate_bounded "binding ID" binding.binding_id max_id_bytes
  check_i64 "binding generation" binding.binding_generation
  check_i64 "owner epoch" binding.owner_epoch

-- `OwnerFence::new`, for what it refuses.
unfoldable pub check_fence : Binding → Result (Unit {0})
unfolding check_i64
check_fence binding = do
  check_i64 "binding generation" binding.binding_generation
  check_i64 "owner epoch" binding.owner_epoch

-- `OwnerFence::PREDICATE`.
unfoldable pub owner_fence : String → Binding → BindingRow → Bool
owner_fence agent_id binding s =
    str_eq s.binding_id binding.binding_id
    && s.binding_generation == binding.binding_generation
    && str_eq s.agent_id agent_id
    && s.owner_epoch == binding.owner_epoch

abbrev pub is_ready : BindingState → Bool
is_ready BindingState.ready = true
is_ready _ = false

abbrev pub is_active : BindingState → Bool
is_active BindingState.active = true
is_active _ = false

abbrev pub is_uncertain : BindingState → Bool
is_uncertain BindingState.uncertain = true
is_uncertain _ = false

abbrev pub is_retired : BindingState → Bool
is_retired BindingState.retired = true
is_retired _ = false

abbrev pub is_active_turn : TurnState → Bool
is_active_turn TurnState.active = true
is_active_turn _ = false

abbrev pub is_uncertain_turn : TurnState → Bool
is_uncertain_turn TurnState.uncertain = true
is_uncertain_turn _ = false

abbrev pub require_one : ℕ → String → Tx (Unit {0})
require_one rows message = fail_if (not (rows == 1)) (conflict message)
