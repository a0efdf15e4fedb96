-- ===== src/Execution/Observation/Log.antt =====
-- crates/execution/src/operations.rs: an observation is the fold of the turn's events.
use fleetd.Base.{
  ℕ, suc, ◌≤◌, ◌<◌, ◌≡◌, ◌≢◌, ◌∙◌, Bool, true, false, ◌&&◌, none, some, String, ◌==◌, str_eq,
  is_blank, len, arith, str_eq_iff, if◌then◌else◌,
}
use fleetd.Error.{ok}
use fleetd.Table.{find, update, count}
use fleetd.Table.Laws.{Distinct, count-find, find-holds}
use fleetd.Db.{Db, ObservationRow, GenerationRow, i64_max}
use fleetd.Db.Statements.{update_generations, update_observations}
use fleetd.Db.Tx.{to_i64}
use fleetd.Kernel.Delivery.Block.{is_unset}
use fleetd.Execution.Observation.{is_active_generation}
use fleetd.Execution.Observation.Events.{
  Hasher, EventFold, event_digest, chain_digest, event_increments, set_folded, observed_by,
  active_by_id, set_heartbeat, beat, apply_event_fold, observation_of, fold_event, fold_observed,
  record_invocation_event,
}

pub record TurnEvent : Type 0 where
  pub observed_at_ms : ℕ
  pub classification : String
  pub raw : String

-- PRIMARY KEY (invocation_id).
abbrev pub same_observation : ObservationRow → ObservationRow → Bool
same_observation o p = str_eq o.invocation_id p.invocation_id

module _ (generation_id invocation_id : String) where
  -- The invocation is observed by a generation that is active, and has not ended.
  pub record IsObserving (db : Db) (o : ObservationRow) : Type 0 where
    pub found : find (observed_by invocation_id generation_id) db.observations ≡ some o
    pub alone : Distinct same_observation db.observations
    pub generation : GenerationRow
    pub by : find (λ g. str_eq g.id o.generation_id) db.generations ≡ some generation
    pub is_active : is_active_generation generation.state ≡ true
    pub is_open : is_unset o.terminal_at_ms ≡ true

  pub record IsAcceptable (e : TurnEvent) : Type 0 where
    pub timed : e.observed_at_ms ≢ 0
    pub classified : is_blank e.classification ≡ false
    pub bounded : len e.raw ≤ i64_max

  module _ (h : Hasher) (now : ℕ) where
    abbrev pub fold_of : ObservationRow → TurnEvent → EventFold
    fold_of o e =
        let digest =
          event_digest h (suc o.last_event_seq) e.observed_at_ms e.classification e.raw in
        record {
          generation_id = generation_id;
          invocation_id = invocation_id;
          previous_seq = o.last_event_seq;
          event_seq = suc o.last_event_seq;
          observed_at_ms = e.observed_at_ms;
          payload_bytes = len e.raw;
          event_digest = digest;
          chain_digest = chain_digest h o.event_chain_digest digest;
          counts = event_increments e.classification;
        }

    abbrev pub folded : ObservationRow → TurnEvent → ObservationRow
    folded o e = set_folded (fold_of o e) now o

    abbrev pub is_next : ObservationRow → ObservationRow → Bool
    is_next o p = observed_by invocation_id generation_id p && p.last_event_seq == o.last_event_seq

    abbrev pub after_event : Db → ObservationRow → TurnEvent → Db
    after_event db o e = record db {
      observations = update (is_next o) (set_folded (fold_of o e) now) db.observations;
      generations = update (active_by_id generation_id) (set_heartbeat now) db.generations;
    }

    next_found :
        (db : Db) (o : ObservationRow)
        → find (observed_by invocation_id generation_id) db.observations ≡ some o
        → elim (find (observed_by invocation_id generation_id) db.observations) as (λ _. ℕ) [
          | none ↦ 0
          | some r ↦ if is_next o r then 1 else 0
        ]
          ≡ 1
    next_found db o f =
        (let on = find-holds (observed_by invocation_id generation_id) db.observations o f in
          rw f (ground arith))

    one_row :
        (db : Db) (o : ObservationRow) → IsObserving db o → count (is_next o) db.observations ≡ 1
    one_row db o v =
        count-find same_observation (is_next o) (observed_by invocation_id generation_id)
          (λ r e. ground arith)
          (λ r s e k. ground (
            arith,
            str_eq_iff r.invocation_id invocation_id,
            str_eq_iff s.invocation_id invocation_id,
            str_eq_iff r.invocation_id s.invocation_id,
          ))
          db.observations v.alone
        ∙ next_found db o v.found

    fold-effect :
        (db : Db) (o : ObservationRow) (e : TurnEvent)
        → count (is_next o) db.observations ≡ 1
        → o.last_event_seq < i64_max
        → fold_event h o generation_id invocation_id
            (suc o.last_event_seq)
            e.observed_at_ms
            e.classification
            e.raw
            (event_digest h (suc o.last_event_seq) e.observed_at_ms e.classification e.raw)
            now
            db
          ≡ ok (tt, after_event db o e)
    unfolding fold_event apply_event_fold beat update_observations update_generations
    fold-effect db o e one room = ground arith

    observed-effect :
        (db : Db) (o : ObservationRow) (e : TurnEvent)
        → IsObserving db o
        → o.last_event_seq < i64_max
        → (g : GenerationRow) → is_active_generation g.state ≡ true
        → fold_observed h
            (o, g)
            generation_id
            invocation_id
            (suc o.last_event_seq)
            e.observed_at_ms
            e.classification
            e.raw
            now
            db
          ≡ ok (tt, after_event db o e)
    unfolding fold_observed
    observed-effect db o e v room g act =
        (let op = v.is_open in ground (arith, fold-effect db o e (one_row db o v) room))

    pub seq_fits :
        (n : ℕ) (db : Db) → n ≤ i64_max → to_i64 "event sequence is too large" n db ≡ ok (n, db)
    unfolding to_i64
    seq_fits n db l = ground arith

    pub bytes_fit :
        (n : ℕ) (db : Db) → n ≤ i64_max → to_i64 "event payload is too large" n db ≡ ok (n, db)
    unfolding to_i64
    bytes_fit n db l = ground arith

    pub event-effect :
        (db : Db) (o : ObservationRow) (e : TurnEvent)
        → IsObserving db o
        → IsAcceptable e
        → o.last_event_seq < i64_max
        → record_invocation_event h generation_id invocation_id
            (suc o.last_event_seq)
            e.observed_at_ms
            e.classification
            e.raw
            now
            db
          ≡ ok (tt, after_event db o e)
    unfolding record_invocation_event observation_of
    event-effect db o e v a room =
        (let f = v.found in
          let b = v.by in
          let t = a.timed in
          let c = a.classified in
          ground (
            arith,
            observed-effect db o e v room v.generation v.is_active,
            seq_fits (suc o.last_event_seq) db room,
            bytes_fit (len e.raw) db a.bounded,
          ))
