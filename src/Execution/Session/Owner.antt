-- ===== src/Execution/Session/Owner.antt =====
-- crates/execution/src/session_binding.rs: an owner that was superseded is refused, for ever.
use fleetd.Base.{ℕ, ◌<◌, ◌≡◌, String, some, arith, ==_iff}
use fleetd.Error.{ok}
use fleetd.Table.{find}
use fleetd.Model.{ArmInvocation}
use fleetd.Db.{Db, BindingRow}
use fleetd.Db.Tx.{Tx, ◌>>=◌, ◌>>◌, lift, bind_ok}
use fleetd.Db.Keeps.{lifts}
use fleetd.Db.Demands.{Demands, Refuses, at_once, later, refuses}
use fleetd.Execution.Session.{Binding}
use fleetd.Execution.Session.Rows.{
  exact_binding_row, is_exact, validate_owner, validate_current_turn, validate_bound_turn,
}
use fleetd.Execution.Session.Reads.{reading}
use fleetd.Execution.Session.Open.{record_session_opened}
use fleetd.Execution.Session.Retire.{retire_session_binding, mark_session_invocation_uncertain}
use fleetd.Execution.Session.Dispatch.{arm_session_invocation}
use fleetd.Execution.Session.Lifecycle.Statements.{Reaches-Evolves}
use fleetd.Execution.Steps.{Reaches}

module _ (agent_id : String) (binding : Binding) where
  -- The generation exists, under this very owner epoch.
  abbrev pub IsOwner : Db → Type 0
  IsOwner db =
      (s : BindingRow) × (find (is_exact agent_id binding.binding_id binding.binding_generation)
          db.bindings
        ≡ some s)
      × (s.owner_epoch ≡ binding.owner_epoch)

  exact-effect :
      (db after : Db) (row : BindingRow)
      → exact_binding_row agent_id binding db ≡ ok (row, after)
      → find (is_exact agent_id binding.binding_id binding.binding_generation) db.bindings
        ≡ some row
  unfolding exact_binding_row
  exact-effect db after row e = ground arith

  owner_epoch-same :
      (row : BindingRow) (db after : Db)
      → lift (validate_owner row binding) db ≡ ok (tt, after)
      → row.owner_epoch ≡ binding.owner_epoch
  unfolding validate_owner
  owner_epoch-same row db after e = ground (arith, ==_iff row.owner_epoch binding.owner_epoch)

  owning :
      {B : Type 0} (f : BindingRow → Tx B)
      → Demands IsOwner
          (exact_binding_row agent_id binding >>= λ row. lift (validate_owner row binding) >> f row)
  owning f = record {
    demanded = λ db after b h.
        bind_ok (exact_binding_row agent_id binding) _ db h λ row middle e e'.
          bind_ok (lift (validate_owner row binding)) _ middle e'
            λ u last k _. (row, exact-effect db middle row e, owner_epoch-same row middle last k);
  }

  current_turn-IsOwner :
      (invocation_id : String)
      → Demands IsOwner (validate_current_turn agent_id invocation_id binding)
  unfolding validate_current_turn
  current_turn-IsOwner invocation_id = owning _

  open-IsOwner :
      (session_ref : String) (now : ℕ)
      → Demands IsOwner (record_session_opened agent_id binding session_ref now)
  unfolding record_session_opened
  open-IsOwner session_ref now = search (later, lifts, owning) depth 9

  retire-IsOwner :
      (reason : String) (now : ℕ)
      → Demands IsOwner (retire_session_binding agent_id binding reason now)
  unfolding retire_session_binding
  retire-IsOwner reason now = search (later, lifts, owning) depth 9

  mark-IsOwner :
      (invocation_id reason : String) (now : ℕ)
      → Demands IsOwner
          (mark_session_invocation_uncertain agent_id invocation_id binding reason now)
  unfolding mark_session_invocation_uncertain validate_bound_turn
  mark-IsOwner invocation_id reason now =
      search (later, at_once, lifts, reading, current_turn-IsOwner) depth 9

  arm-IsOwner :
      (invocation_id session_ref generation_id : String) (input : ArmInvocation) (now : ℕ)
      → Demands IsOwner (
          arm_session_invocation agent_id invocation_id binding session_ref generation_id input now)
  unfolding arm_session_invocation
  arm-IsOwner invocation_id session_ref generation_id input now =
      search (later, lifts, owning) depth 9

  -- Once a generation of a binding is stored under a later owner epoch than the one that a
  -- controller holds, then after any sequence of transactions four calls of that controller under
  -- its old epoch are refused, whatever the rest of their arguments: recording that the session
  -- opened, arming an invocation, marking it uncertain, and retiring the binding.
  pub superseded-Refuses :
      (db after : Db) (s : BindingRow)
      → find (is_exact agent_id binding.binding_id binding.binding_generation) db.bindings ≡ some s
      → binding.owner_epoch < s.owner_epoch
      → Reaches db after
      → ((session_ref : String) (now : ℕ)
          → Refuses (record_session_opened agent_id binding session_ref now) after)
        × ((invocation_id session_ref generation_id : String) (input : ArmInvocation) (now : ℕ)
            → Refuses
                (arm_session_invocation agent_id invocation_id binding session_ref generation_id
                  input now)
                after)
        × ((invocation_id reason : String) (now : ℕ)
            → Refuses
                (mark_session_invocation_uncertain agent_id invocation_id binding reason now)
                after)
        × ((reason : String) (now : ℕ)
            → Refuses (retire_session_binding agent_id binding reason now) after)
  superseded-Refuses db after s e less path = (
    (λ session_ref now. refuses _ after (open-IsOwner session_ref now) gone),
    (λ invocation_id session_ref generation_id input now.
        refuses _ after (arm-IsOwner invocation_id session_ref generation_id input now) gone),
    (λ invocation_id reason now. refuses _ after (mark-IsOwner invocation_id reason now) gone),
    (λ reason now. refuses _ after (retire-IsOwner reason now) gone),
  )
    where
      gone : ¬ (IsOwner after)
      gone (t, found, same) =
          (let (u, at, f) =
              Reaches-Evolves db after path agent_id binding.binding_id binding.binding_generation s
                e in
            let one : t ≡ u = ground arith in let low = f.epoch in absurd (ground arith))
