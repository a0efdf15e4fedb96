-- ===== src/Execution/Observation/Summary.antt =====
-- crates/execution/src/operations.rs: recording the events of a turn, one after the other.
use mathlib.Core.Option
use fleetd.Base.{
  ℕ, suc, ◌+◌, ◌≤◌, ◌≡◌, refl, ◌∙◌, ap, true, Option, some, String, List, [], ◌∷◌, str_eq, len,
  arith, length, All,
}
use fleetd.Error.{ok}
use fleetd.Table.{find}
use fleetd.Table.Laws.{Distinct-update, find-update, find-holds, changed}
use fleetd.Db.{Db, ObservationRow, GenerationRow, EventCounts, i64_max}
use fleetd.Db.Tx.{Tx, ◌>>◌, pure, then-ok}
use fleetd.Execution.Observation.{is_active_generation}
use fleetd.Execution.Observation.Events.{
  Hasher, EventClass, event_digest, chain_digest, event_increments, increments_of,
  parse_event_class, add_counts, set_folded, observed_by, active_by_id, set_heartbeat,
  record_invocation_event,
}
use fleetd.Execution.Observation.Log.{
  TurnEvent, same_observation, IsObserving, IsAcceptable, fold_of, folded, is_next, after_event,
  event-effect,
}

abbrev pub total : EventCounts → ℕ
total c =
    c.prompt + c.assistant + c.reasoning + c.tool + c.plan + c.usage + c.metadata + c.permission
    + c.unknown

abbrev pub bytes_of : List TurnEvent → ℕ
bytes_of [] = 0
bytes_of (e ∷ es) = len e.raw + bytes_of es

-- The chain of digests after a sequence of events, the first under the number `seq`.
abbrev pub chain_of : Hasher → Option String → ℕ → List TurnEvent → Option String
chain_of h previous seq [] = previous
chain_of h previous seq (e ∷ es) =
    chain_of h
      (some (chain_digest h previous (event_digest h seq e.observed_at_ms e.classification e.raw)))
      (suc seq) es

-- One call for each event, under consecutive numbers.
unfoldable pub record_events : Hasher → String → String → ℕ → List TurnEvent → ℕ → Tx (Unit {0})
record_events h generation_id invocation_id seq [] now = pure tt
record_events h generation_id invocation_id seq (e ∷ es) now = do
  record_invocation_event h generation_id invocation_id seq e.observed_at_ms e.classification e.raw
      now
  record_events h generation_id invocation_id (suc seq) es now

increments_one : (c : EventClass) → total (increments_of c) ≡ 1
unfolding increments_of
increments_one EventClass.prompt = refl
increments_one EventClass.assistant = refl
increments_one EventClass.reasoning = refl
increments_one EventClass.tool = refl
increments_one EventClass.plan = refl
increments_one EventClass.usage = refl
increments_one EventClass.metadata = refl
increments_one EventClass.permission = refl
increments_one EventClass.unknown = refl

-- Every event is counted once.
counts_total :
    (c : EventCounts) (classification : String)
    → total (add_counts c (event_increments classification)) ≡ suc (total c)
unfolding event_increments add_counts
counts_total c classification =
    (let one = increments_one (parse_event_class classification) in omega (arith, one))

module _ (generation_id invocation_id : String) (h : Hasher) (now : ℕ) where
  next_hit :
      (db : Db) (o : ObservationRow) (e : TurnEvent)
      → find (observed_by invocation_id generation_id) db.observations ≡ some o
      → changed
          (is_next generation_id invocation_id h now o)
          (set_folded (fold_of generation_id invocation_id h now o e) now)
          o
        ≡ folded generation_id invocation_id h now o e
  next_hit db o e f =
      (let on = find-holds (observed_by invocation_id generation_id) db.observations o f in
        let same : is_next generation_id invocation_id h now o o ≡ true = ground arith in
        rw same refl)

  beat_active :
      (g : GenerationRow)
      → is_active_generation g.state ≡ true
      → is_active_generation (changed (active_by_id generation_id) (set_heartbeat now) g).state
        ≡ true
  unfolding set_heartbeat
  beat_active g a = ground arith

  pub next-IsObserving :
      (db : Db) (o : ObservationRow) (e : TurnEvent)
      → IsObserving generation_id invocation_id db o
      → IsObserving generation_id invocation_id
          (after_event generation_id invocation_id h now db o e)
          (folded generation_id invocation_id h now o e)
  unfolding set_folded set_heartbeat
  next-IsObserving db o e v = record {
    found =
        find-update (is_next generation_id invocation_id h now o)
          (set_folded (fold_of generation_id invocation_id h now o e) now)
          (observed_by invocation_id generation_id) (λ r. refl) db.observations
        ∙ ap (Option.map _) v.found
        ∙ ap some (next_hit db o e v.found);
    alone =
        Distinct-update same_observation _ _ (λ r s e k. k) (λ r s e k. k) db.observations v.alone;
    generation = changed (active_by_id generation_id) (set_heartbeat now) v.generation;
    by =
        find-update (active_by_id generation_id) (set_heartbeat now)
          (λ g. str_eq g.id o.generation_id) (λ r. refl) db.generations
        ∙ ap (Option.map _) v.by;
    is_active = beat_active v.generation v.is_active;
    is_open = v.is_open;
  }

  -- The observation after a sequence of events.
  abbrev pub fold_log : ObservationRow → List TurnEvent → ObservationRow
  fold_log o [] = o
  fold_log o (e ∷ es) = fold_log (folded generation_id invocation_id h now o e) es

  log-effect :
      (db : Db) (o : ObservationRow) (es : List TurnEvent)
      → IsObserving generation_id invocation_id db o
      → All (IsAcceptable generation_id invocation_id) es
      → o.last_event_seq + length es ≤ i64_max
      → (after : Db) × (record_events h generation_id invocation_id (suc o.last_event_seq) es now db
          ≡ ok (tt, after))
        × IsObserving generation_id invocation_id after (fold_log o es)
  unfolding record_events set_folded
  log-effect db o [] v a room = (db, refl, v)
  log-effect db o (e ∷ es) v a room =
      (let middle = after_event generation_id invocation_id h now db o e in
        let once =
          event-effect generation_id invocation_id h now db o e v a.0 (omega (arith, room)) in
        let (after, rest, v') =
          log-effect middle (folded generation_id invocation_id h now o e) es
            (next-IsObserving db o e v) a.1 (omega (arith, room)) in
        (
          after,
          then-ok
              (record_invocation_event h generation_id invocation_id (suc o.last_event_seq)
                e.observed_at_ms e.classification e.raw now)
              (record_events h generation_id invocation_id (suc (suc o.last_event_seq)) es now) db
              once rest,
          v',
        ))

  -- What the fold adds up to.
  pub record Sums (o : ObservationRow) (es : List TurnEvent) (p : ObservationRow) : Type 0 where
    pub counted : p.event_count ≡ o.event_count + length es
    pub numbered : p.last_event_seq ≡ o.last_event_seq + length es
    pub measured : p.observed_payload_bytes ≡ o.observed_payload_bytes + bytes_of es
    pub classified : total p.counts ≡ total o.counts + length es
    pub chained : p.event_chain_digest ≡ chain_of h o.event_chain_digest (suc o.last_event_seq) es

  fold_log-Sums : (o : ObservationRow) (es : List TurnEvent) → Sums o es (fold_log o es)
  unfolding set_folded
  fold_log-Sums o [] = record {
    counted = omega arith;
    numbered = omega arith;
    measured = omega arith;
    classified = omega arith;
    chained = refl;
  }
  fold_log-Sums o (e ∷ es) =
      (let s = fold_log-Sums (folded generation_id invocation_id h now o e) es in
        let one = counts_total o.counts e.classification in
        record {
          counted = omega (arith, s.counted);
          numbered = omega (arith, s.numbered);
          measured = omega (arith, s.measured);
          classified = omega (arith, s.classified, one);
          chained = s.chained;
        })

  -- Where an invocation is observed by an active generation and has not ended, any sequence of
  -- events, each with a positive time, a classification that is not blank and a payload that fits,
  -- sent under the next sequence numbers, is recorded whole; and the observation that it leaves is
  -- the fold of the events: their number added to the count, to the last sequence number and to
  -- the sum of the counters by class, their bytes to the payload bytes, and the digests of the
  -- events in order in the chain.
  pub record_events_lem :
      (db : Db) (o : ObservationRow) (es : List TurnEvent)
      → IsObserving generation_id invocation_id db o
      → All (IsAcceptable generation_id invocation_id) es
      → o.last_event_seq + length es ≤ i64_max
      → (after : Db) × (p : ObservationRow) × (record_events h generation_id invocation_id
            (suc o.last_event_seq)
            es
            now
            db
          ≡ ok (tt, after))
        × IsObserving generation_id invocation_id after p
        × Sums o es p
  record_events_lem db o es v a room =
      (let (after, done, v') = log-effect db o es v a room in
        (after, fold_log o es, done, v', fold_log-Sums o es))
