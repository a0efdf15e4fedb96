-- ===== src/Execution/Session/Bound/Runs.antt =====
-- The bond of session and turn in every interleaving of the operations.
use fleetd.Base.{
  ℕ, ◌≡◌, Bool, true, ◌&&◌, String, List, [], All, All-map, arith, str_eq, ◌==◌, str_eq_iff, ==_iff,
  holds_text-eq, subst, sym, ◌∙◌,
}
use fleetd.Table.Laws.{Distinct-equal, any-elim, All-both}
use fleetd.Db.{Db, BindingRow, TurnRow}
use fleetd.Db.Keeps.{Keeps}
use fleetd.Execution.Steps.{Reaches}
use fleetd.Execution.Session.{Binding, is_active_turn}
use fleetd.Execution.Observation.{begin_invocation_observation}
use fleetd.Execution.Session.Apart.{IsApart}
use fleetd.Execution.Session.Apart.Invocations.{arm_apart, complete_apart}
use fleetd.Execution.Session.Stores.{Stores}
use fleetd.Execution.Session.Stores.Runs.{reaches_keeps}
use fleetd.Execution.Session.Bound.{same_binding, same_turn, runs, is_run, IsBound, binding}
use fleetd.Execution.Session.Bound.Turns.{start_binds}
use fleetd.Execution.Session.Bound.Ends.{same_binding_comm, same_turn_comm}
use fleetd.Execution.Session.Bound.Finish.{finish_binds, mark_binds}
use fleetd.Execution.Session.Bound.Quiet.{
  insert_binds, retire_binds, adopt_binds, open_binds, superseded-quiet, retirable-quiet,
  recovered-quiet,
}

binding-IsApart : IsApart binding
binding-IsApart = record { apart = λ db after bs ts v. rw (bs, ts) v }

observe_binds :
    (agent_id invocation_id generation_id : String) (owner : Binding) (now : ℕ)
    → Keeps binding (begin_invocation_observation agent_id invocation_id generation_id owner now)
unfolding begin_invocation_observation
observe_binds agent_id invocation_id generation_id owner now = record {
  kept = λ db after u e. binding-IsApart.apart db after (ground arith) (ground arith);
}

binding-Stores : Stores binding
binding-Stores = record {
  inserted = insert_binds;
  rotated = λ existing agent_id reason now.
      retire_binds _ reason now (superseded-quiet existing agent_id);
  adopted = λ existing owner_epoch owner now next. adopt_binds existing owner_epoch owner now;
  opened = open_binds;
  retired = λ agent_id owner reason now. retire_binds _ reason now (retirable-quiet agent_id owner);
  recovered =
      λ s invocation_id reason now. retire_binds _ reason now (recovered-quiet s invocation_id);
  started = start_binds;
  finished = λ agent_id invocation_id owner persistence now.
      finish_binds agent_id invocation_id owner now persistence;
  marked =
      λ agent_id invocation_id owner reason now. mark_binds agent_id invocation_id owner now reason;
  observed = observe_binds;
  armed = arm_apart binding-IsApart;
  completed = λ id at agent_id invocation_id input now.
      complete_apart binding-IsApart id at agent_id invocation_id input now true;
}

-- From a database without session bindings and session turns, and after any sequence of the
-- transactions of the deliveries, the invocations and the sessions: bindings and turns have
-- distinct keys; every binding meets the CHECK of its table; every active turn is run by a binding
-- that is active on its invocation, under the turn's owner epoch; and every active binding has the
-- turn that it runs.
pub Reaches-IsBound :
    (db after : Db)
    → db.bindings ≡ []
    → db.turns ≡ []
    → Reaches db after
    → IsBound after.bindings after.turns
Reaches-IsBound db after bs ts path =
    reaches_keeps binding-IsApart binding-Stores db after path
      (rw (bs, ts) (record { keys = tt; turn_keys = tt; formed = tt; served = tt; busy = tt }))

-- Two active turns of one generation are one.
abbrev pub one_lane : TurnRow → TurnRow → Bool
one_lane t u = str_eq t.binding_id u.binding_id && t.binding_generation == u.binding_generation

module _ (bindings : List BindingRow) (turns : List TurnRow) (v : IsBound bindings turns) where
  run_by_both :
      (t u : TurnRow) (s : BindingRow) → runs t s ≡ true → runs u s ≡ true → same_turn t u ≡ true
  unfolding runs
  run_by_both t u s k l = ground (
    arith,
    holds_text-eq s.active_invocation_id t.invocation_id,
    holds_text-eq s.active_invocation_id u.invocation_id,
    str_eq_iff t.invocation_id u.invocation_id,
  )

  runs-key :
      (t : TurnRow) (s : BindingRow)
      → runs t s ≡ true
      → (s.binding_id ≡ t.binding_id) × (s.binding_generation ≡ t.binding_generation)
  unfolding runs
  runs-key t s k = ground (
    arith,
    str_eq_iff s.binding_id t.binding_id,
    ==_iff s.binding_generation t.binding_generation,
  )

  lane-key :
      (t u : TurnRow)
      → one_lane t u ≡ true
      → (t.binding_id ≡ u.binding_id) × (t.binding_generation ≡ u.binding_generation)
  lane-key t u e = ground (
    arith,
    str_eq_iff t.binding_id u.binding_id,
    ==_iff t.binding_generation u.binding_generation,
  )

  key_same :
      (s r : BindingRow)
      → s.binding_id ≡ r.binding_id
      → s.binding_generation ≡ r.binding_generation
      → same_binding s r ≡ true
  key_same s r e k = ground (
    arith,
    str_eq_iff s.binding_id r.binding_id,
    ==_iff s.binding_generation r.binding_generation,
  )

  lane_binding :
      (t u : TurnRow) (s r : BindingRow)
      → one_lane t u ≡ true
      → runs t s ≡ true
      → runs u r ≡ true
      → same_binding s r ≡ true
  lane_binding t u s r e k l =
      (let (a, b) = runs-key t s k in
        let (c, d) = runs-key u r l in
        let (x, y) = lane-key t u e in key_same s r (a ∙ x ∙ sym c) (b ∙ y ∙ sym d))

  one_turn :
      (t u : TurnRow)
      → is_run bindings t ≡ true
      → is_run bindings u ≡ true
      → (same_turn t u ≡ true → t ≡ u)
      → is_active_turn t.state ≡ true
      → is_active_turn u.state ≡ true
      → one_lane t u ≡ true
      → t ≡ u
  one_turn t u k l same a b e =
      any-elim _ _ (runs t) bindings (Distinct-equal same_binding same_binding_comm bindings v.keys)
        (ground arith)
        λ s copies on. any-elim _ _ (runs u) bindings copies (ground arith) λ r copy on'. same (
          run_by_both t u r (subst (λ x. runs t x ≡ true) (copy (lane_binding t u s r e on on')) on)
            on')

  pub turns-alone :
      All
        (λ t.
          All
            (λ u.
              is_active_turn t.state ≡ true
              → is_active_turn u.state ≡ true
              → one_lane t u ≡ true
              → t ≡ u)
            turns)
        turns
  turns-alone =
      All-map
        (λ t (k, same).
          All-map (λ u (l, twin). one_turn t u k l twin) turns (All-both _ _ turns v.served same))
        turns
        (All-both _ _ turns v.served (Distinct-equal same_turn same_turn_comm turns v.turn_keys))

-- From a database without session bindings and session turns, and after any sequence of the
-- transactions of the deliveries, the invocations and the sessions, two active turns of one
-- generation of one binding are the same turn: a native session never runs two invocations at
-- once.
pub Reaches-alone :
    (db after : Db)
    → db.bindings ≡ []
    → db.turns ≡ []
    → Reaches db after
    → All
        (λ t.
          All
            (λ u.
              is_active_turn t.state ≡ true
              → is_active_turn u.state ≡ true
              → one_lane t u ≡ true
              → t ≡ u)
            after.turns)
        after.turns
Reaches-alone db after bs ts path =
    turns-alone after.bindings after.turns (Reaches-IsBound db after bs ts path)
