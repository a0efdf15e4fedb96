-- ===== src/Execution/Observation/Stop.antt =====
-- crates/execution/src/operations.rs: a generation that is stopped stays stopped, as it was.
use mathlib.Core.Option
use fleetd.Base.{
  ℕ, ◌≡◌, refl, sym, ◌∙◌, ap, Bool, true, false, Option, none, some, String, List, [], ◌∷◌, ◌||◌,
  ltb, len, is_blank, str_eq, arith, Option-cases, inl, inr, Bool-cases, str_eq_iff, if◌then◌else◌,
}
use fleetd.Error.{ok}
use fleetd.Table.{find, update, count}
use fleetd.Table.Laws.{Distinct, find-update, find-holds, count-find, update-count_zero}
use fleetd.Model.{Disposition, ShutdownOutcome, ExitCode}
use fleetd.Db.{Db, GenerationRow}
use fleetd.Db.Statements.{update_generations}
use fleetd.Execution.Session.{max_reason_bytes}
use fleetd.Execution.Observation.{is_active_generation}
use fleetd.Execution.Observation.Events.{active_by_id}
use fleetd.Execution.Observation.Generations.{
  StopPluginGeneration, set_stopped, stop_matches, stop_again, stop_plugin_generation,
  plugin_generation, generation_by_id, validate_reason, holds_disposition, holds_outcome, same_code,
}

-- PRIMARY KEY (id).
abbrev pub same_generation : GenerationRow → GenerationRow → Bool
same_generation g k = str_eq g.id k.id

disposition_self : (d : Disposition) → holds_disposition (some d) d ≡ true
disposition_self Disposition.stopped = refl
disposition_self Disposition.restart = refl
disposition_self Disposition.fatal = refl

outcome_self : (o : ShutdownOutcome) → holds_outcome (some o) o ≡ true
outcome_self ShutdownOutcome.graceful = refl
outcome_self ShutdownOutcome.forced = refl
outcome_self ShutdownOutcome.failed = refl

code_self : (c : Option ExitCode) → same_code c c ≡ true
code_self none = refl
code_self (some (ExitCode.status n)) = ground arith
code_self (some (ExitCode.negative_status n)) = ground arith

module _ (generation_id : String) (stop : StopPluginGeneration) where
  -- A row that is stopped this way matches the replay.
  stopped_matches :
      (now : ℕ) (g : GenerationRow) → stop_matches (set_stopped stop now g) stop ≡ true
  unfolding stop_matches set_stopped
  stopped_matches now g =
      rw
        (
          disposition_self stop.disposition,
          outcome_self stop.shutdown_outcome,
          code_self stop.shutdown_exit_code,
        )
        (ground (arith, str_eq_iff stop.reason stop.reason))

  active_count :
      (db : Db)
      → Distinct same_generation db.generations
      → count (active_by_id generation_id) db.generations
        ≡ elim (find (generation_by_id generation_id) db.generations) as (λ _. ℕ) [
          | none ↦ 0
          | some g ↦ if active_by_id generation_id g then 1 else 0
        ]
  active_count db d =
      count-find same_generation (active_by_id generation_id) (generation_by_id generation_id)
        (λ r e. ground arith)
        (λ r s e k. ground (
          arith,
          str_eq_iff r.id generation_id,
          str_eq_iff s.id generation_id,
          str_eq_iff r.id s.id,
        ))
        db.generations d

  -- After the update, the generation is there as a stopped one, and none of its name is active.
  moved :
      (now : ℕ) (db : Db) (g : GenerationRow)
      → Distinct same_generation db.generations
      → find (generation_by_id generation_id) db.generations ≡ some g
      → is_active_generation g.state ≡ true
      → find
          (generation_by_id generation_id)
          (update (active_by_id generation_id) (set_stopped stop now) db.generations)
        ≡ some (set_stopped stop now g)
  unfolding set_stopped
  moved now db g d e a =
      (let on = find-holds (generation_by_id generation_id) db.generations g e in
        let hit : active_by_id generation_id g ≡ true = ground arith in
        find-update (active_by_id generation_id) (set_stopped stop now)
          (generation_by_id generation_id) (λ r. refl) db.generations
        ∙ ap (Option.map _) e
        ∙ rw hit refl)

  none_active :
      (now : ℕ) (rs : List GenerationRow)
      → count
          (active_by_id generation_id)
          (update (active_by_id generation_id) (set_stopped stop now) rs)
        ≡ 0
  unfolding count update set_stopped
  none_active now [] = refl
  none_active now (r ∷ rs) = ground (arith, none_active now rs)

  abbrev unfit : Bool
  unfit = is_blank stop.reason || ltb max_reason_bytes (len stop.reason)

  replay :
      (later : ℕ) (db : Db) (g : GenerationRow)
      → unfit ≡ false
      → count (active_by_id generation_id) db.generations ≡ 0
      → find (generation_by_id generation_id) db.generations ≡ some g
      → stop_matches g stop ≡ true
      → stop_plugin_generation generation_id stop later db ≡ ok (g, db)
  unfolding stop_plugin_generation stop_again plugin_generation update_generations validate_reason
  replay later db g fine zero e same =
      (let kept =
          update-count_zero (active_by_id generation_id) (set_stopped stop later) db.generations
            zero in
        ground (arith, kept))

  -- The first stop of an active generation.
  first :
      (now : ℕ) (db after : Db) (g k : GenerationRow)
      → find (generation_by_id generation_id) db.generations ≡ some k
      → is_active_generation k.state ≡ true
      → Distinct same_generation db.generations
      → stop_plugin_generation generation_id stop now db ≡ ok (g, after)
      → (unfit ≡ false)
        × (g ≡ set_stopped stop now k)
        × (after.generations
            ≡ update (active_by_id generation_id) (set_stopped stop now) db.generations)
  unfolding stop_plugin_generation plugin_generation update_generations validate_reason
  first now db after g k e a d h =
      (let m = moved now db k d e a in
        let n = active_count db d in
        let on = find-holds (generation_by_id generation_id) db.generations k e in
        ground (arith, m, n))

  -- A stop that has nothing to do.
  nothing :
      (now : ℕ) (db after : Db) (g k : GenerationRow)
      → find (generation_by_id generation_id) db.generations ≡ some k
      → is_active_generation k.state ≡ false
      → Distinct same_generation db.generations
      → stop_plugin_generation generation_id stop now db ≡ ok (g, after)
      → (unfit ≡ false)
        × (g ≡ k)
        × (after.generations ≡ db.generations)
        × (count (active_by_id generation_id) db.generations ≡ 0)
        × (stop_matches g stop ≡ true)
  unfolding stop_plugin_generation stop_again plugin_generation update_generations validate_reason
  nothing now db after g k e a d h =
      (let n = active_count db d in
        let zero : count (active_by_id generation_id) db.generations ≡ 0 = ground (arith, n) in
        let kept =
          update-count_zero (active_by_id generation_id) (set_stopped stop now) db.generations
            zero in
        ground (arith, zero, kept))

  -- A generation that is not there cannot be stopped.
  missing :
      (now : ℕ) (db after : Db) (g : GenerationRow)
      → find (generation_by_id generation_id) db.generations ≡ none
      → Distinct same_generation db.generations
      → ¬ (stop_plugin_generation generation_id stop now db ≡ ok (g, after))
  unfolding stop_plugin_generation stop_again plugin_generation update_generations validate_reason
  missing now db after g e d h =
      (let n = active_count db d in
        let zero : count (active_by_id generation_id) db.generations ≡ 0 = ground (arith, n) in
        let kept =
          update-count_zero (active_by_id generation_id) (set_stopped stop now) db.generations
            zero in
        ground (arith, zero, kept))

  abbrev StaysStopped : ℕ → Db → GenerationRow → Type 0
  StaysStopped later after g =
      (find (generation_by_id generation_id) after.generations ≡ some g)
      × (is_active_generation g.state ≡ false)
      × (stop_matches g stop ≡ true)
      × (stop_plugin_generation generation_id stop later after ≡ ok (g, after))

  stays :
      (later : ℕ) (after : Db) (g : GenerationRow)
      → unfit ≡ false
      → find (generation_by_id generation_id) after.generations ≡ some g
      → is_active_generation g.state ≡ false
      → stop_matches g stop ≡ true
      → count (active_by_id generation_id) after.generations ≡ 0
      → StaysStopped later after g
  stays later after g fine e a same zero = (e, a, same, replay later after g fine zero e same)

  -- Where generations have distinct ids, a stop that succeeds, as a first one or as a replay,
  -- leaves the generation that it returns stored, not active and with this evidence; and repeating
  -- it at any time succeeds, returns the same generation and changes nothing.
  pub stop-again :
      (now later : ℕ) (db after : Db) (g : GenerationRow)
      → Distinct same_generation db.generations
      → stop_plugin_generation generation_id stop now db ≡ ok (g, after)
      → (find (generation_by_id generation_id) after.generations ≡ some g)
        × (is_active_generation g.state ≡ false)
        × (stop_matches g stop ≡ true)
        × (stop_plugin_generation generation_id stop later after ≡ ok (g, after))
  unfolding set_stopped
  stop-again now later db after g d h =
      elim (Option-cases (find (generation_by_id generation_id) db.generations)) [
        | inl e ↦ absurd (missing now db after g e d h)
        | inr (k, e) ↦ elim (Bool-cases (is_active_generation k.state)) [
          | inl a ↦
              let (fine, is_k, rows) = first now db after g k e a d h in
              stays later after g fine
                (ap (find (generation_by_id generation_id)) rows
                  ∙ moved now db k d e a
                  ∙ ap some (sym is_k))
                (ap (λ x. is_active_generation x.state) is_k)
                (ap (λ x. stop_matches x stop) is_k ∙ stopped_matches now k)
                (ap (count (active_by_id generation_id)) rows ∙ none_active now db.generations)
          | inr a ↦
              let (fine, is_k, rows, zero, same) = nothing now db after g k e a d h in
              stays later after g fine
                (ap (find (generation_by_id generation_id)) rows ∙ e ∙ ap some (sym is_k))
                (ap (λ x. is_active_generation x.state) is_k ∙ a) same
                (ap (count (active_by_id generation_id)) rows ∙ zero)
        ]
      ]
