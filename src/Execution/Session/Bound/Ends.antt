-- ===== src/Execution/Session/Bound/Ends.antt =====
-- crates/execution/src/session_binding.rs: the bond of session and turn where a turn ends.
use fleetd.Base.{
  ◌≡◌, ◌≢◌, refl, subst, true, false, String, List, All, All-map, arith, str_eq_iff, ==_iff,
  Bool-cases, inl, inr, holds_text-eq,
}
use fleetd.Table.{update, count}
use fleetd.Table.Laws.{
  Distinct, Distinct-update, All-update, any-update, any-update_within, any-count, Distinct-equal,
  any-elim, All-both,
}
use fleetd.Db.{BindingRow, TurnRow}
use fleetd.Execution.Session.{Binding, is_active, is_active_turn}
use fleetd.Execution.Session.Turn.{active_turn, running_binding}
use fleetd.Execution.Session.Bound.{
  same_binding, same_turn, runs, is_run, turns_for, is_busy, is_well_formed, IsBound,
}

not_active :
    (turns : List TurnRow) (s : BindingRow) → is_active s.state ≡ false → is_busy turns s ≡ true
not_active turns s e = rw e refl

pub same_binding_comm : (r s : BindingRow) → same_binding r s ≡ same_binding s r
same_binding_comm r s = ground (
  arith,
  str_eq_iff r.binding_id s.binding_id,
  str_eq_iff s.binding_id r.binding_id,
  ==_iff r.binding_generation s.binding_generation,
  ==_iff s.binding_generation r.binding_generation,
)

pub same_turn_comm : (t u : TurnRow) → same_turn t u ≡ same_turn u t
same_turn_comm t u =
    ground (
      arith,
      str_eq_iff t.invocation_id u.invocation_id,
      str_eq_iff u.invocation_id t.invocation_id,
    )

-- A turn that ends: it and its binding are no longer active.
module _ (agent_id invocation_id : String) (owner : Binding) (g : TurnRow → TurnRow)
    (f : BindingRow → BindingRow) (turn_ids : (t : TurnRow) → (g t).invocation_id ≡ t.invocation_id)
    (ends : (t : TurnRow) → is_active_turn (g t).state ≡ false)
    (ids : (s : BindingRow) → (f s).binding_id ≡ s.binding_id)
    (generations : (s : BindingRow) → (f s).binding_generation ≡ s.binding_generation)
    (stops : (s : BindingRow) → is_active (f s).state ≡ false)
    (forms : (s : BindingRow)
      → is_well_formed s ≡ true
      → running_binding agent_id owner invocation_id s ≡ true
      → is_well_formed (f s) ≡ true) where
  abbrev ended : List TurnRow → List TurnRow
  ended turns = update (active_turn invocation_id) g turns

  abbrev stopped : List BindingRow → List BindingRow
  stopped bindings = update (running_binding agent_id owner invocation_id) f bindings

  stopped-keys :
      (bindings : List BindingRow)
      → Distinct same_binding bindings
      → Distinct same_binding (stopped bindings)
  stopped-keys bindings d =
      Distinct-update same_binding _ f (λ r s e k. rw (ids s, generations s) k)
        (λ r s e k. rw (ids r, generations r) k) bindings d

  ended-keys : (turns : List TurnRow) → Distinct same_turn turns → Distinct same_turn (ended turns)
  ended-keys turns d =
      Distinct-update same_turn _ g (λ r s e k. rw (turn_ids s) k) (λ r s e k. rw (turn_ids r) k)
        turns d

  -- Another turn's binding goes on.
  others-apart :
      (t : TurnRow) (s : BindingRow)
      → is_active_turn t.state ≡ true
      → active_turn invocation_id t ≡ false
      → runs t s ≡ true
      → running_binding agent_id owner invocation_id s ≡ false
  unfolding runs
  others-apart t s a e k = ground (
    arith,
    holds_text-eq s.active_invocation_id t.invocation_id,
    holds_text-eq s.active_invocation_id invocation_id,
    str_eq_iff t.invocation_id invocation_id,
  )

  still_run :
      (bindings : List BindingRow) (t : TurnRow)
      → is_run bindings t ≡ true
      → active_turn invocation_id t ≡ false
      → is_run (stopped bindings) t ≡ true
  still_run bindings t k e = elim (Bool-cases (is_active_turn t.state)) [
    | inl a ↦ ground (
      arith,
      any-update (runs t) (running_binding agent_id owner invocation_id) f
          (λ s k'. others-apart t s a e k') bindings,
    )
    | inr a ↦ rw a refl
  ]

  ended-run : (bindings : List BindingRow) (t : TurnRow) → is_run bindings (g t) ≡ true
  ended-run bindings t = rw (ends t) refl

  same_turns :
      (s' : BindingRow) (t' t : TurnRow)
      → running_binding agent_id owner invocation_id s' ≡ true
      → turns_for s' t' ≡ true
      → active_turn invocation_id t ≡ true
      → same_turn t' t ≡ true
  unfolding runs
  same_turns s' t' t on k' hit = ground (
    arith,
    holds_text-eq s'.active_invocation_id t'.invocation_id,
    holds_text-eq s'.active_invocation_id invocation_id,
    str_eq_iff t.invocation_id invocation_id,
    str_eq_iff t'.invocation_id t.invocation_id,
  )

  same_bindings :
      (s' s : BindingRow) (t' t : TurnRow)
      → turns_for s' t' ≡ true
      → turns_for s t ≡ true
      → t' ≡ t
      → same_binding s' s ≡ true
  unfolding runs
  same_bindings s' s t' t k' k twin = ground (
    arith,
    str_eq_iff s'.binding_id t'.binding_id,
    str_eq_iff s.binding_id t.binding_id,
    str_eq_iff s'.binding_id s.binding_id,
    ==_iff s'.binding_generation s.binding_generation,
    ==_iff s'.binding_generation t'.binding_generation,
    ==_iff s.binding_generation t.binding_generation,
  )

  clash :
      (s' s : BindingRow)
      → s' ≡ s
      → running_binding agent_id owner invocation_id s' ≡ true
      → running_binding agent_id owner invocation_id s ≡ false
      → ⊥
  clash s' s same on off =
      (let at = subst (λ x. running_binding agent_id owner invocation_id x ≡ true) same on in
        ground arith)

  -- The invocation has one turn, and the turn one binding.
  one_turn :
      (s' s : BindingRow) (t' t : TurnRow)
      → running_binding agent_id owner invocation_id s' ≡ true
      → running_binding agent_id owner invocation_id s ≡ false
      → turns_for s' t' ≡ true
      → turns_for s t ≡ true
      → (same_turn t' t ≡ true → t' ≡ t)
      → (same_binding s' s ≡ true → s' ≡ s)
      → active_turn invocation_id t ≡ false
  one_turn s' s t' t on off k' k one_t one_s = elim (Bool-cases (active_turn invocation_id t)) [
    | inl hit ↦
        (let twin = one_t (same_turns s' t' t on k' hit) in
          let copy = one_s (same_bindings s' s t' t k' k twin) in absurd (clash s' s copy on off))
    | inr miss ↦ miss
  ]

  module _ (bindings : List BindingRow) (turns : List TurnRow) where
    busy_after :
        (s' s : BindingRow) (t' : TurnRow)
        → running_binding agent_id owner invocation_id s' ≡ true
        → turns_for s' t' ≡ true
        → All (λ t. same_turn t' t ≡ true → t' ≡ t) turns
        → (same_binding s' s ≡ true → s' ≡ s)
        → is_busy turns s ≡ true
        → running_binding agent_id owner invocation_id s ≡ false
        → is_busy (ended turns) s ≡ true
    busy_after s' s t' on k' twins copy busy off = elim (Bool-cases (is_active s.state)) [
      | inl a ↦ ground (
        arith,
        any-update_within (turns_for s) (active_turn invocation_id) g turns
            (All-map (λ t one_t k. one_turn s' s t' t on off k' k one_t copy) turns twins),
      )
      | inr a ↦ rw a refl
    ]

    ended-busy :
        IsBound bindings turns
        → count (running_binding agent_id owner invocation_id) bindings ≢ 0
        → All (λ s. is_busy (ended turns) s ≡ true) (stopped bindings)
    ended-busy v found =
        any-elim _ _ (running_binding agent_id owner invocation_id) bindings
          (All-both _ _ bindings v.busy
            (Distinct-equal same_binding same_binding_comm bindings v.keys))
          (any-count _ bindings found)
          λ s' (busy, copies) on.
            any-elim _ _ (turns_for s') turns
              (Distinct-equal same_turn same_turn_comm turns v.turn_keys) (ground arith)
              λ t' twins k'.
                All-update (running_binding agent_id owner invocation_id) f
                  (λ s k e. not_active (ended turns) (f s) (stops s))
                  (λ s (busy', copy) off. busy_after s' s t' on k' twins copy busy' off) bindings
                  (All-both _ _ bindings v.busy copies)

    pub ended-IsBound :
        IsBound bindings turns
        → count (running_binding agent_id owner invocation_id) bindings ≢ 0
        → IsBound (stopped bindings) (ended turns)
    ended-IsBound v found = record {
      keys = stopped-keys bindings v.keys;
      turn_keys = ended-keys turns v.turn_keys;
      formed = All-update _ _ forms (λ s k e. k) bindings v.formed;
      served =
          All-update _ _ (λ t k e. ended-run (stopped bindings) t)
            (λ t k e. still_run bindings t k e) turns v.served;
      busy = ended-busy v found;
    }
