-- ===== src/Execution/Session/Bound/Quiet.antt =====
-- crates/execution/src/session_binding.rs: the bond of session and turn under the statements that
-- touch no active binding.
use fleetd.Base.{
  ℕ, ◌≡◌, refl, Bool, true, false, ◌&&◌, String, List, [], ◌∷◌, ◌++◌, All-append, All-map, arith,
}
use fleetd.Error.{ok}
use fleetd.Table.{any}
use fleetd.Table.Laws.{Distinct-append, any-none, any-append}
use fleetd.Model.{AcquireSessionBinding}
use fleetd.Db.{Db, BindingRow, TurnRow}
use fleetd.Db.Statements.{update_bindings}
use fleetd.Db.Keeps.{Keeps}
use fleetd.Execution.Session.{Binding, is_active, is_ready, owner_fence}
use fleetd.Execution.Session.Rows.{SessionBinding}
use fleetd.Execution.Session.Turn.{set_retired, uncertain_run}
use fleetd.Execution.Session.Acquire.{
  insert_binding_row, new_binding, clashes_binding, is_superseded, set_owner,
}
use fleetd.Execution.Session.Open.{opening_binding, set_opened}
use fleetd.Execution.Session.Retire.{retirable}
use fleetd.Execution.Session.Bound.{same_binding, runs, is_run, is_well_formed, IsBound, binding}
use fleetd.Execution.Session.Bound.Statements.{quiet_updates}

insert-effect :
    (new : BindingRow) (db after : Db)
    → insert_binding_row new db ≡ ok (tt, after)
    → (any (clashes_binding new) db.bindings ≡ false)
      × (after.bindings ≡ db.bindings ++ new ∷ [])
      × (after.turns ≡ db.turns)
unfolding insert_binding_row
insert-effect new db after e = ground arith

apart-key : (new s : BindingRow) → clashes_binding new s ≡ false → same_binding s new ≡ false
unfolding clashes_binding
apart-key new s e = ground arith

inserted-run :
    (bindings : List BindingRow) (new : BindingRow) (t : TurnRow)
    → is_run bindings t ≡ true
    → is_run (bindings ++ new ∷ []) t ≡ true
inserted-run bindings new t e = ground (arith, any-append (runs t) bindings (new ∷ []))

module _ (binding_id : String) (generation : ℕ) (agent_id : String) (input : AcquireSessionBinding)
    (now : ℕ) where
  abbrev fresh : BindingRow
  fresh = new_binding binding_id generation agent_id input now

  inserted-IsBound :
      (bindings : List BindingRow) (turns : List TurnRow)
      → any (clashes_binding fresh) bindings ≡ false
      → IsBound bindings turns
      → IsBound (bindings ++ fresh ∷ []) turns
  unfolding new_binding is_well_formed
  inserted-IsBound bindings turns apart v = record {
    keys =
        Distinct-append same_binding bindings fresh v.keys
          (All-map (apart-key fresh) bindings (any-none _ bindings apart));
    turn_keys = v.turn_keys;
    formed = All-append _ bindings (fresh ∷ []) v.formed (refl, tt);
    served = All-map (inserted-run bindings fresh) turns v.served;
    busy = All-append _ bindings (fresh ∷ []) v.busy (refl, tt);
  }

  pub insert_binds : Keeps binding (insert_binding_row fresh)
  insert_binds = record {
    kept = λ db after u e v.
        let (apart, bs, ts) = insert-effect fresh db after e in
        rw (bs, ts) (inserted-IsBound db.bindings db.turns apart v);
  }

-- Retiring a binding that is not active.
pub retire_binds :
    (p : BindingRow → Bool) (reason : String) (now : ℕ)
    → ((s : BindingRow) → p s ≡ true → is_active s.state ≡ false)
    → Keeps binding (update_bindings p (set_retired reason now))
unfolding set_retired is_well_formed
retire_binds p reason now quiet =
    quiet_updates p (set_retired reason now) (λ _. refl) (λ _. refl) quiet (λ _ _. refl)
      (λ _ _ _. refl)

pub superseded-quiet :
    (existing : SessionBinding) (agent_id : String) (s : BindingRow)
    → is_superseded existing agent_id s ≡ true
    → is_active s.state ≡ false
unfolding is_superseded
superseded-quiet existing agent_id s e = ground arith

pub retirable-quiet :
    (agent_id : String) (owner : Binding) (s : BindingRow)
    → retirable agent_id owner s ≡ true
    → is_active s.state ≡ false
retirable-quiet agent_id owner s e = ground arith

pub recovered-quiet :
    (s : BindingRow) (id : String) (r : BindingRow)
    → uncertain_run s id r ≡ true
    → is_active r.state ≡ false
recovered-quiet s id r e = ground arith

pub adopt_binds :
    (existing : SessionBinding) (owner_epoch : ℕ) (owner : String) (now : ℕ)
    → Keeps binding (
        update_bindings
          (λ s. owner_fence existing.agent_id existing.binding s && is_ready s.state)
          (set_owner owner_epoch owner now))
unfolding set_owner is_well_formed
adopt_binds existing owner_epoch owner now =
    quiet_updates _ _ (λ _. refl) (λ _. refl) (λ s e. ground arith) (λ s e. ground arith)
      (λ s e k. k)

pub open_binds :
    (agent_id : String) (owner : Binding) (session_ref : String) (now : ℕ)
    → Keeps binding (update_bindings (opening_binding agent_id owner) (set_opened session_ref now))
unfolding set_opened is_well_formed
open_binds agent_id owner session_ref now =
    quiet_updates _ _ (λ _. refl) (λ _. refl) (λ s e. ground arith) (λ s e. refl)
      (λ s e k. ground arith)
