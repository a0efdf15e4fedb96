-- ===== src/Execution/Session/Lifecycle/Statements.antt =====
-- crates/execution/src/session_binding.rs: the lifecycle under each statement on a session.
use fleetd.Base.{ℕ, ◌+◌, ◌≤◌, ◌≡◌, refl, true, ◌&&◌, String, arith, subst, ◌++◌, [], ◌∷◌, Bool}
use fleetd.Table.{update}
use fleetd.Model.{SessionPersistence}
use fleetd.Db.{Db, BindingRow, TurnRow}
use fleetd.Db.Statements.{update_bindings, update_turns}
use fleetd.Db.Keeps.{Keeps, keeping}
use fleetd.Execution.Session.{Binding, owner_fence, is_ready}
use fleetd.Execution.Session.Rows.{SessionBinding}
use fleetd.Execution.Session.Turn.{
  set_retired, mark_turn_uncertain, set_binding_uncertain, running_binding, uncertain_run,
}
use fleetd.Execution.Session.Acquire.{set_owner, is_superseded, insert_binding_row}
use fleetd.Execution.Session.Open.{opening_binding, set_opened}
use fleetd.Execution.Session.Retire.{retirable}
use fleetd.Execution.Session.Dispatch.{
  insert_turn, idle_binding, set_binding_active, start_turn, set_binding_ready, finish_turn,
}
use fleetd.Execution.Observation.{begin_invocation_observation}
use fleetd.Execution.Session.Apart.{IsApart}
use fleetd.Execution.Session.Apart.Invocations.{arm_apart, complete_apart}
use fleetd.Execution.Session.Stores.{Stores}
use fleetd.Execution.Session.Stores.Runs.{reaches_keeps}
use fleetd.Execution.Steps.{Reaches}
use fleetd.Execution.Session.Lifecycle.{
  phase, Follows, Evolves, evolving, Evolves-update, Evolves-append, same_bindings,
}

updates :
    (p : BindingRow → Bool) (f : BindingRow → BindingRow)
    → ((s : BindingRow) → (f s).binding_id ≡ s.binding_id)
    → ((s : BindingRow) → (f s).binding_generation ≡ s.binding_generation)
    → ((s : BindingRow) → (f s).agent_id ≡ s.agent_id)
    → ((s : BindingRow) → p s ≡ true → Follows s (f s))
    → Keeps evolving (update_bindings p f)
unfolding update_bindings
updates p f ids generations agents h = record {
  kept = λ db after n e.
      let same : update p f db.bindings ≡ after.bindings = ground arith in
      subst (Evolves db.bindings) same (Evolves-update p f ids generations agents h db.bindings);
}

turn_updates : (p : TurnRow → Bool) (f : TurnRow → TurnRow) → Keeps evolving (update_turns p f)
unfolding update_turns
turn_updates p f = record { kept = λ db after n e. same_bindings db after (ground arith) }

turn_inserts : (new : TurnRow) → Keeps evolving (insert_turn new)
unfolding insert_turn
turn_inserts new = record { kept = λ db after u e. same_bindings db after (ground arith) }

-- Marking a binding retired, where it was not yet.
retires :
    (p : BindingRow → Bool) (reason : String) (now : ℕ)
    → ((s : BindingRow) → p s ≡ true → phase s.state ≤ 2)
    → Keeps evolving (update_bindings p (set_retired reason now))
unfolding set_retired phase
retires p reason now h =
    updates p (set_retired reason now) (λ _. refl) (λ _. refl) (λ _. refl)
      λ s e. record {
        binding_id = refl;
        generation = refl;
        agent = refl;
        policy = refl;
        key = refl;
        epoch = omega arith;
        phases = ground (arith, h s);
        native = λ _. refl;
        ended = λ k. absurd (omega (arith, h s e, k));
      }

superseded_phase :
    (existing : SessionBinding) (agent_id : String) (s : BindingRow)
    → is_superseded existing agent_id s ≡ true
    → phase s.state ≤ 2
unfolding phase is_superseded
superseded_phase existing agent_id s e = ground arith

retirable-phase :
    (agent_id : String) (binding : Binding) (s : BindingRow)
    → retirable agent_id binding s ≡ true
    → phase s.state ≤ 2
unfolding phase
retirable-phase agent_id binding s e = ground arith

recovered_phase :
    (s : BindingRow) (id : String) (r : BindingRow)
    → uncertain_run s id r ≡ true
    → phase r.state ≤ 2
unfolding phase
recovered_phase s id r e = ground arith

opened_Follows :
    (agent_id : String) (binding : Binding) (session_ref : String) (now : ℕ) (s : BindingRow)
    → opening_binding agent_id binding s ≡ true
    → Follows s (set_opened session_ref now s)
unfolding set_opened phase
opened_Follows agent_id binding session_ref now s e = record {
  binding_id = refl;
  generation = refl;
  agent = refl;
  policy = refl;
  key = refl;
  epoch = omega arith;
  phases = ground arith;
  native = λ k. absurd (ground arith);
  ended = λ k. absurd (ground arith);
}

adopted_Follows :
    (existing : SessionBinding) (owner_epoch : ℕ) (owner : String) (now : ℕ)
    → owner_epoch ≡ existing.binding.owner_epoch + 1
    → (s : BindingRow)
    → (owner_fence existing.agent_id existing.binding s && is_ready s.state) ≡ true
    → Follows s (set_owner owner_epoch owner now s)
unfolding set_owner owner_fence phase
adopted_Follows existing owner_epoch owner now next s e = record {
  binding_id = refl;
  generation = refl;
  agent = refl;
  policy = refl;
  key = refl;
  epoch = ground arith;
  phases = omega arith;
  native = λ _. refl;
  ended = λ k. absurd (ground arith);
}

-- The statements that leave identity, owner and native session as they are, and go on by a phase.
steps :
    (p : BindingRow → Bool) (f : BindingRow → BindingRow)
    → ((s : BindingRow) → (f s).binding_id ≡ s.binding_id)
    → ((s : BindingRow) → (f s).binding_generation ≡ s.binding_generation)
    → ((s : BindingRow) → (f s).agent_id ≡ s.agent_id)
    → ((s : BindingRow) → (f s).lane_policy ≡ s.lane_policy)
    → ((s : BindingRow) → (f s).lane_key ≡ s.lane_key)
    → ((s : BindingRow) → (f s).owner_epoch ≡ s.owner_epoch)
    → ((s : BindingRow) → (f s).session_ref ≡ s.session_ref)
    → ((s : BindingRow) → p s ≡ true → phase s.state ≤ 2)
    → ((s : BindingRow) → p s ≡ true → phase s.state ≤ phase (f s).state)
    → Keeps evolving (update_bindings p f)
steps p f ids generations agents policies keys epochs natives low up =
    updates p f ids generations agents λ s e. record {
      binding_id = ids s;
      generation = generations s;
      agent = agents s;
      policy = policies s;
      key = keys s;
      epoch = omega (arith, epochs s);
      phases = up s e;
      native = λ _. natives s;
      ended = λ k. absurd (omega (arith, low s e, k));
    }

module _ (agent_id invocation_id : String) (binding : Binding) (now : ℕ) where
  running_phase :
      (s : BindingRow) → running_binding agent_id binding invocation_id s ≡ true → phase s.state ≡ 1
  unfolding phase
  running_phase s e = ground arith

  marks :
      (reason : String)
      → Keeps evolving (
          update_bindings
            (running_binding agent_id binding invocation_id)
            (set_binding_uncertain reason now))
  unfolding set_binding_uncertain phase
  marks reason =
      steps _ _ (λ _. refl) (λ _. refl) (λ _. refl) (λ _. refl) (λ _. refl) (λ _. refl) (λ _. refl)
        (λ s e. omega (arith, running_phase s e)) (λ s e. omega (arith, running_phase s e))

  settles :
      (persistence : SessionPersistence)
      → Keeps evolving (
          update_bindings
            (running_binding agent_id binding invocation_id)
            (set_binding_ready invocation_id persistence now))
  unfolding set_binding_ready phase
  settles persistence =
      steps _ _ (λ _. refl) (λ _. refl) (λ _. refl) (λ _. refl) (λ _. refl) (λ _. refl) (λ _. refl)
        (λ s e. omega (arith, running_phase s e)) (λ s e. omega (arith, running_phase s e))

  idle_phase : (s : BindingRow) → idle_binding agent_id binding s ≡ true → phase s.state ≡ 1
  unfolding phase
  idle_phase s e = ground arith

  activates :
      Keeps evolving
        (update_bindings (idle_binding agent_id binding) (set_binding_active invocation_id now))
  unfolding set_binding_active phase
  activates =
      steps _ _ (λ _. refl) (λ _. refl) (λ _. refl) (λ _. refl) (λ _. refl) (λ _. refl) (λ _. refl)
        (λ s e. omega (arith, idle_phase s e)) (λ s e. omega (arith, idle_phase s e))

  start_Follows : Keeps evolving (start_turn agent_id invocation_id binding now)
  unfolding start_turn
  start_Follows = search (keeping, turn_inserts, activates)

  finish_Follows :
      (persistence : SessionPersistence)
      → Keeps evolving (finish_turn agent_id invocation_id binding persistence now)
  unfolding finish_turn
  finish_Follows persistence = search (keeping, turn_updates, settles) depth 9

  mark_Follows :
      (reason : String)
      → Keeps evolving (mark_turn_uncertain agent_id invocation_id binding reason now)
  unfolding mark_turn_uncertain
  mark_Follows reason = search (keeping, turn_updates, marks) depth 9

  observation_Follows :
      (generation_id : String)
      → Keeps evolving
          (begin_invocation_observation agent_id invocation_id generation_id binding now)
  unfolding begin_invocation_observation
  observation_Follows generation_id = record {
    kept = λ db after u e. same_bindings db after (ground arith);
  }

insert_Follows : (new : BindingRow) → Keeps evolving (insert_binding_row new)
unfolding insert_binding_row
insert_Follows new = record {
  kept = λ db after u e.
      let same : db.bindings ++ new ∷ [] ≡ after.bindings = ground arith in
      subst (Evolves db.bindings) same (Evolves-append db.bindings (new ∷ []));
}

evolving-IsApart : IsApart evolving
evolving-IsApart = record { apart = λ db after bs ts. same_bindings db after bs }

evolving-Stores : Stores evolving
unfolding set_opened set_owner
evolving-Stores = record {
  inserted = λ binding_id generation agent_id input now. insert_Follows _;
  rotated =
      λ existing agent_id reason now. retires _ reason now (superseded_phase existing agent_id);
  adopted = λ existing owner_epoch owner now next.
      updates _ _ (λ _. refl) (λ _. refl) (λ _. refl)
        (adopted_Follows existing owner_epoch owner now next);
  opened = λ agent_id binding session_ref now.
      updates _ _ (λ _. refl) (λ _. refl) (λ _. refl)
        (opened_Follows agent_id binding session_ref now);
  retired = λ agent_id binding reason now. retires _ reason now (retirable-phase agent_id binding);
  recovered = λ s invocation_id reason now. retires _ reason now (recovered_phase s invocation_id);
  started = start_Follows;
  finished = λ agent_id invocation_id binding persistence now.
      finish_Follows agent_id invocation_id binding now persistence;
  marked = λ agent_id invocation_id binding reason now.
      mark_Follows agent_id invocation_id binding now reason;
  observed = λ agent_id invocation_id generation_id binding now.
      observation_Follows agent_id invocation_id binding now generation_id;
  armed = arm_apart evolving-IsApart;
  completed = λ id at agent_id invocation_id input now.
      complete_apart evolving-IsApart id at agent_id invocation_id input now true;
}

-- After any sequence of the transactions of the deliveries, the invocations and the sessions,
-- every generation of a binding is still there, of the same agent and lane; its owner epoch has
-- not gone back; its state has moved only forward through opening, ready or active, uncertain, and
-- retired; its native session is the same once it has one; and a retired one is unchanged.
pub Reaches-Evolves : (db after : Db) → Reaches db after → Evolves db.bindings after.bindings
Reaches-Evolves = reaches_keeps evolving-IsApart evolving-Stores
