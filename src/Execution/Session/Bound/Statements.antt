-- ===== src/Execution/Session/Bound/Statements.antt =====
-- crates/execution/src/session_binding.rs: the bond of session and turn under the statements.
use fleetd.Base.{◌≡◌, refl, subst, Bool, true, false, List, All-map, arith}
use fleetd.Table.{update}
use fleetd.Table.Laws.{Distinct-update, All-update, any-update}
use fleetd.Db.{BindingRow, TurnRow}
use fleetd.Db.Statements.{update_bindings}
use fleetd.Db.Keeps.{Keeps}
use fleetd.Execution.Session.{is_active}
use fleetd.Execution.Session.Bound.{same_binding, runs, is_run, is_well_formed, IsBound, binding}

-- A statement on bindings that are not active, and do not become so.
module _ (p : BindingRow → Bool) (f : BindingRow → BindingRow)
    (ids : (s : BindingRow) → (f s).binding_id ≡ s.binding_id)
    (generations : (s : BindingRow) → (f s).binding_generation ≡ s.binding_generation)
    (quiet : (s : BindingRow) → p s ≡ true → is_active s.state ≡ false)
    (stays : (s : BindingRow) → p s ≡ true → is_active (f s).state ≡ false)
    (forms : (s : BindingRow)
      → p s ≡ true
      → is_well_formed s ≡ true
      → is_well_formed (f s) ≡ true) where
  right : (r s : BindingRow) → p s ≡ true → same_binding r s ≡ false → same_binding r (f s) ≡ false
  right r s e k = rw (ids s, generations s) k

  left : (r s : BindingRow) → p r ≡ true → same_binding r s ≡ false → same_binding (f r) s ≡ false
  left r s e k = rw (ids r, generations r) k

  runs-apart : (t : TurnRow) (s : BindingRow) → runs t s ≡ true → p s ≡ false
  unfolding runs
  runs-apart t s e = ground (arith, quiet s)

  still_run :
      (bindings : List BindingRow) (t : TurnRow)
      → is_run bindings t ≡ true
      → is_run (update p f bindings) t ≡ true
  still_run bindings t e = ground (arith, any-update (runs t) p f (runs-apart t) bindings)

  update-IsBound :
      (bindings : List BindingRow) (turns : List TurnRow)
      → IsBound bindings turns
      → IsBound (update p f bindings) turns
  update-IsBound bindings turns v = record {
    keys = Distinct-update same_binding p f right left bindings v.keys;
    turn_keys = v.turn_keys;
    formed = All-update p f (λ s k e. forms s e k) (λ s k e. k) bindings v.formed;
    served = All-map (still_run bindings) turns v.served;
    busy = All-update p f (λ s k e. rw (stays s e) refl) (λ s k e. k) bindings v.busy;
  }

  pub quiet_updates : Keeps binding (update_bindings p f)
  unfolding update_bindings
  quiet_updates = record {
    kept = λ db after n e v.
        let bs : update p f db.bindings ≡ after.bindings = ground arith in
        let ts : db.turns ≡ after.turns = ground arith in
        subst (λ x. IsBound x after.turns) bs
          (subst (λ x. IsBound (update p f db.bindings) x) ts
            (update-IsBound db.bindings db.turns v));
  }
