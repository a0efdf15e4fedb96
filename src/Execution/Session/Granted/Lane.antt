-- ===== src/Execution/Session/Granted/Lane.antt =====
-- crates/execution/src/session_binding.rs: each way to a lane grants it.
use fleetd.Base.{
  ℕ, ◌≡◌, refl, sym, ◌∙◌, ap, subst, Bool, true, ◌&&◌, not, Option, none, some, String, str_eq,
  arith, Bool-cases, inl, inr, if◌then◌else◌,
}
use fleetd.Error.{ok, conflict}
use fleetd.Table.{find}
use fleetd.Table.Laws.{Distinct, find-holds}
use fleetd.Model.{BindingState, AcquireSessionBinding}
use fleetd.Db.{Db, BindingRow}
use fleetd.Db.Tx.{Tx, ◌>>=◌, ◌>>◌, fail_if, bind_ok}
use fleetd.Execution.Session.{is_ready, is_retired}
use fleetd.Execution.Session.Rows.{
  SessionBinding, binding_from_row, is_exact, in_lane, latest_binding_row, current_binding_row,
}
use fleetd.Execution.Session.Acquire.{
  SessionAcquisition, configuration_matches, insert_binding, acquire_existing, take_over,
  acquire_session_binding, validate_acquisition, adopt_binding, next_number, rotate_binding,
  insert_after_latest_retired,
}
use fleetd.Kernel.Delivery.{ensure_agent}
use fleetd.Db.Demands.{unchanged}
use fleetd.Execution.Session.Reads.{acquisition_reads, agent_reads, current_reads}
use fleetd.Execution.Session.Bound.{same_binding}
use fleetd.Execution.Session.Granted.{
  Granted, insert-Granted, adopt-Granted, owned-Granted, exact_row,
}

module _ (agent_id : String) (input : AcquireSessionBinding) where
  -- A transaction that, when it succeeds, grants the lane.
  record Grants (m : Tx SessionAcquisition) : Type 0 where
    granted :
        (db after : Db) (a : SessionAcquisition)
        → m db ≡ ok (a, after)
        → Granted agent_id input a after

  and_then :
      {B : Type 0} (m : Tx B) (f : B → Tx SessionAcquisition)
      → ((b : B) → Grants (f b))
      → Grants (m >>= f)
  and_then m f k = record {
    granted = λ db after a h. bind_ok m f db h λ b middle e e'. (k b).granted middle after a e';
  }

  inserts :
      (binding_id : String) (generation now : ℕ)
      → Grants (insert_binding binding_id generation agent_id input now)
  inserts binding_id generation now = record {
    granted = insert-Granted agent_id input binding_id generation now;
  }

  rotates :
      (existing : SessionBinding) (now : ℕ) (reason : String)
      → Grants (rotate_binding existing agent_id input now reason)
  unfolding rotate_binding
  rotates existing now reason = search (and_then, inserts) depth 9

  option :
      {B : Type 0} (o : Option B) {n : Tx SessionAcquisition} {s : B → Tx SessionAcquisition}
      → Grants n
      → ((b : B) → Grants (s b))
      → Grants (elim o [ none ↦ n | some b ↦ s b ])
  option none k l = k
  option (some b) k l = l b

  successors :
      (s : BindingRow) (now : ℕ)
      → Grants (
          fail_if
            (not (is_retired s.state))
            (conflict "non-retired session binding was omitted from the current lane")
          >> (next_number "binding generation" s.binding_generation >>= λ generation.
              insert_binding s.binding_id generation agent_id input now))
  successors s now = search (and_then, inserts) depth 9

  begins_lane : (id : String) (now : ℕ) → Grants (insert_after_latest_retired id agent_id input now)
  unfolding insert_after_latest_retired
  begins_lane id now =
      and_then (latest_binding_row agent_id input.lane_policy input.lane_key) _
        λ latest. option latest (inserts id 1 now) λ s. successors s now

  -- Taking a lane over from another owner instance.
  taken-Granted :
      (state : BindingState) (db after : Db) (s : BindingRow) (now : ℕ) (a : SessionAcquisition)
      → s.state ≡ state
      → find (is_exact agent_id s.binding_id s.binding_generation) db.bindings ≡ some s
      → in_lane agent_id input.lane_policy input.lane_key s ≡ true
      → take_over state (binding_from_row s) agent_id input now db ≡ ok (a, after)
      → Granted agent_id input a after
  unfolding take_over
  taken-Granted BindingState.opening db after s now a w e l h =
      (rotates (binding_from_row s) now "opening_superseded_by_new_owner").granted db after a h
  taken-Granted BindingState.ready db after s now a w e l h =
      elim (Bool-cases (configuration_matches (binding_from_row s) input)) [
        | inl c ↦ adopt-Granted agent_id input now db after s a e l (ap is_ready w) c (
            ap
              (λ b.
                (if b
                    then adopt_binding (binding_from_row s) input.owner_instance_id now
                    else rotate_binding (binding_from_row s) agent_id input now
                        "incompatible_profile_rotation")
                  db)
              (sym c)
            ∙ h)
        | inr c ↦
            (rotates (binding_from_row s) now "incompatible_profile_rotation").granted db after a (
              ap
                (λ b.
                  (if b
                      then adopt_binding (binding_from_row s) input.owner_instance_id now
                      else rotate_binding (binding_from_row s) agent_id input now
                          "incompatible_profile_rotation")
                    db)
                (sym c)
              ∙ h)
      ]
  taken-Granted BindingState.active db after s now a w e l h = absurd (ground arith)
  taken-Granted BindingState.uncertain db after s now a w e l h = absurd (ground arith)
  taken-Granted BindingState.retired db after s now a w e l h = absurd (ground arith)

  existing-Granted :
      (db after : Db) (s : BindingRow) (now : ℕ) (a : SessionAcquisition)
      → find (is_exact agent_id s.binding_id s.binding_generation) db.bindings ≡ some s
      → in_lane agent_id input.lane_policy input.lane_key s ≡ true
      → acquire_existing s agent_id input now db ≡ ok (a, after)
      → Granted agent_id input a after
  unfolding acquire_existing
  existing-Granted db after s now a e l h =
      elim (Bool-cases (str_eq s.owner_instance_id input.owner_instance_id)) [
        | inl o ↦ elim (Bool-cases (configuration_matches (binding_from_row s) input)) [
          | inl c ↦ owned-Granted agent_id input db after s a e l o c (ground (arith, o, c, h))
          | inr c ↦ absurd (ground (arith, o, c, h))
        ]
        | inr o ↦ taken-Granted s.state db after s now a refl e l (ground (arith, o, h))
      ]

  -- The row that the lane is read as.
  current_row :
      (db after : Db) (s : BindingRow)
      → Distinct same_binding db.bindings
      → current_binding_row agent_id input.lane_policy input.lane_key db ≡ ok (some s, after)
      → (find (is_exact agent_id s.binding_id s.binding_generation) db.bindings ≡ some s)
        × (in_lane agent_id input.lane_policy input.lane_key s ≡ true)
  unfolding current_binding_row
  current_row db after s d h =
      (let lane : BindingRow → Bool =
          λ k. in_lane agent_id input.lane_policy input.lane_key k && not (is_retired k.state) in
        let e : find lane db.bindings ≡ some s = ground (arith, h) in
        let on = find-holds lane db.bindings s e in
        (exact_row agent_id input lane db.bindings s d e (ground (arith, on)), ground (arith, on)))

  current-Granted :
      (current : Option BindingRow) (id : String) (now : ℕ) (db after : Db) (a : SessionAcquisition)
      → Distinct same_binding db.bindings
      → current_binding_row agent_id input.lane_policy input.lane_key db ≡ ok (current, db)
      → elim current as (λ _. Tx SessionAcquisition) [
        | none ↦ insert_after_latest_retired id agent_id input now
        | some row ↦ acquire_existing row agent_id input now
      ]
          db
        ≡ ok (a, after)
      → Granted agent_id input a after
  current-Granted none id now db after a d r h = (begins_lane id now).granted db after a h
  current-Granted (some s) id now db after a d r h =
      (let (e, l) = current_row db db s d r in existing-Granted db after s now a e l h)

  -- Where bindings have distinct keys, an acquisition that commits returns a binding that is
  -- stored in the agent's lane, is owned by the caller's instance and has the caller's
  -- configuration; and it tells the caller to create a session exactly where the binding is
  -- opening, and to resume the stored one where it is ready.
  pub acquire-Granted :
      (id : String) (now : ℕ) (db after : Db) (a : SessionAcquisition)
      → Distinct same_binding db.bindings
      → acquire_session_binding id agent_id input now db ≡ ok (a, after)
      → Granted agent_id input a after
  unfolding acquire_session_binding
  acquire-Granted id now db after a d h =
      bind_ok (validate_acquisition agent_id input) _ db h λ u first v h1.
        let one = (acquisition_reads {r = unchanged} agent_id input).kept db first u v in
        bind_ok (ensure_agent agent_id) _ first h1 λ u' second v' h2.
          let two = (agent_reads {r = unchanged} agent_id).kept first second u' v' in
          bind_ok (current_binding_row agent_id input.lane_policy input.lane_key) _ second h2
            λ current third w h3.
              let three =
                (current_reads {r = unchanged} agent_id input.lane_policy input.lane_key).kept
                  second third current w in
              current-Granted current id now third after a
                (subst (λ x. Distinct same_binding x.bindings) (sym (three ∙ two ∙ one)) d)
                (subst
                  (λ x.
                    current_binding_row agent_id input.lane_policy input.lane_key x
                    ≡ ok (current, third))
                  (sym three) w)
                h3
