-- ===== src/Execution/Session/Bound/Turns.antt =====
-- crates/execution/src/session_binding.rs: the bond of session and turn where a turn begins.
use fleetd.Base.{
  ℕ, ◌≡◌, ◌≢◌, true, false, String, List, [], ◌∷◌, ◌++◌, All-map, All-append, arith, str_eq_refl,
}
use fleetd.Error.{ok}
use fleetd.Table.{any, update, count}
use fleetd.Table.Laws.{
  Distinct, Distinct-update, Distinct-append, All-update, any-update, any-update_hit, any-append,
  any-none,
}
use fleetd.Db.{Db, BindingRow, TurnRow}
use fleetd.Db.Statements.{update_bindings}
use fleetd.Db.Keeps.{Keeps}
use fleetd.Execution.Session.{Binding, owner_fence}
use fleetd.Execution.Session.Dispatch.{
  start_turn, insert_turn, new_turn, idle_binding, set_binding_active,
}
use fleetd.Execution.Session.Bound.{
  same_binding, same_turn, runs, is_run, turns_for, is_busy, is_well_formed, IsBound, binding,
}

module _ (agent_id invocation_id : String) (owner : Binding) (now : ℕ) where
  abbrev activated : List BindingRow → List BindingRow
  activated bindings =
      update (idle_binding agent_id owner) (set_binding_active invocation_id now) bindings

  abbrev begun : TurnRow
  begun = new_turn invocation_id owner now

  start-effect :
      (db after : Db)
      → start_turn agent_id invocation_id owner now db ≡ ok (tt, after)
      → (any (λ t. same_turn t begun) db.turns ≡ false)
        × (count (idle_binding agent_id owner) db.bindings ≢ 0)
        × (after.bindings ≡ activated db.bindings)
        × (after.turns ≡ db.turns ++ begun ∷ [])
  unfolding start_turn insert_turn update_bindings
  start-effect db after e = ground arith

  begun-runs :
      (s : BindingRow)
      → idle_binding agent_id owner s ≡ true
      → runs begun (set_binding_active invocation_id now s) ≡ true
  unfolding runs set_binding_active new_turn owner_fence
  begun-runs s e = ground (arith, str_eq_refl invocation_id)

  idle-apart :
      (t : TurnRow) (s : BindingRow) → runs t s ≡ true → idle_binding agent_id owner s ≡ false
  unfolding runs
  idle-apart t s e = ground arith

  activated-formed :
      (s : BindingRow)
      → is_well_formed s ≡ true
      → idle_binding agent_id owner s ≡ true
      → is_well_formed (set_binding_active invocation_id now s) ≡ true
  unfolding is_well_formed set_binding_active
  activated-formed s k e = ground arith

  activated-keys :
      (bindings : List BindingRow)
      → Distinct same_binding bindings
      → Distinct same_binding (activated bindings)
  unfolding set_binding_active
  activated-keys bindings d =
      Distinct-update same_binding _ _ (λ r s e k. k) (λ r s e k. k) bindings d

  started-run :
      (bindings : List BindingRow) (t : TurnRow)
      → is_run bindings t ≡ true
      → is_run (activated bindings) t ≡ true
  started-run bindings t e = ground (
    arith,
    any-update (runs t) (idle_binding agent_id owner) (set_binding_active invocation_id now)
        (idle-apart t) bindings,
  )

  begun-is_run :
      (bindings : List BindingRow)
      → count (idle_binding agent_id owner) bindings ≢ 0
      → is_run (activated bindings) begun ≡ true
  begun-is_run bindings e = ground (
    arith,
    any-update_hit (runs begun) (idle_binding agent_id owner) (set_binding_active invocation_id now)
        begun-runs bindings,
  )

  begun-busy :
      (turns : List TurnRow) (s : BindingRow)
      → idle_binding agent_id owner s ≡ true
      → is_busy (turns ++ begun ∷ []) (set_binding_active invocation_id now s) ≡ true
  unfolding any new_turn
  begun-busy turns s e = ground (
    arith,
    any-append (turns_for (set_binding_active invocation_id now s)) turns (begun ∷ []),
    begun-runs s,
  )

  still_busy :
      (turns : List TurnRow) (s : BindingRow)
      → is_busy turns s ≡ true
      → is_busy (turns ++ begun ∷ []) s ≡ true
  still_busy turns s e = ground (arith, any-append (turns_for s) turns (begun ∷ []))

  started-IsBound :
      (bindings : List BindingRow) (turns : List TurnRow)
      → any (λ t. same_turn t begun) turns ≡ false
      → count (idle_binding agent_id owner) bindings ≢ 0
      → IsBound bindings turns
      → IsBound (activated bindings) (turns ++ begun ∷ [])
  started-IsBound bindings turns fresh found v = record {
    keys = activated-keys bindings v.keys;
    turn_keys = Distinct-append same_turn turns begun v.turn_keys (any-none _ turns fresh);
    formed = All-update _ _ activated-formed (λ s k e. k) bindings v.formed;
    served =
        All-append _ turns (begun ∷ []) (All-map (started-run bindings) turns v.served)
          (begun-is_run bindings found, tt);
    busy =
        All-update _ _ (λ s k e. begun-busy turns s e) (λ s k e. still_busy turns s k) bindings
          v.busy;
  }

  pub start_binds : Keeps binding (start_turn agent_id invocation_id owner now)
  start_binds = record {
    kept = λ db after u e v.
        let (fresh, found, bs, ts) = start-effect db after e in
        rw (bs, ts) (started-IsBound db.bindings db.turns fresh found v);
  }
