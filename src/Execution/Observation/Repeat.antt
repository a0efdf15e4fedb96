-- ===== src/Execution/Observation/Repeat.antt =====
-- crates/execution/src/operations.rs: an event that is sent again under its sequence number.
use fleetd.Base.{ℕ, suc, ◌≤◌, ◌<◌, ◌≡◌, refl, some, String, str_eq, len, arith, if◌then◌else◌}
use fleetd.Error.{ok, err, conflict}
use fleetd.Db.{Db, ObservationRow, i64_max}
use fleetd.Execution.Observation.Events.{
  Hasher, event_digest, set_folded, observation_of, fold_observed, record_invocation_event,
}
use fleetd.Execution.Observation.Log.{
  TurnEvent, IsObserving, IsAcceptable, folded, after_event, event-effect, seq_fits, bytes_fit,
}
use fleetd.Execution.Observation.Summary.{next-IsObserving}

abbrev pub digest_at : Hasher → ℕ → TurnEvent → String
digest_at h seq e = event_digest h seq e.observed_at_ms e.classification e.raw

module _ (generation_id invocation_id : String) (h : Hasher) (now : ℕ) where
  -- The answer to an event under the number of the last one.
  repeat-effect :
      (db : Db) (o : ObservationRow) (e : TurnEvent) (digest : String)
      → IsObserving generation_id invocation_id db o
      → IsAcceptable generation_id invocation_id e
      → o.last_event_seq ≤ i64_max
      → 1 ≤ o.last_event_seq
      → o.last_event_digest ≡ some digest
      → record_invocation_event h generation_id invocation_id o.last_event_seq e.observed_at_ms
          e.classification e.raw now db
        ≡ (if str_eq digest (digest_at h o.last_event_seq e)
            then ok (tt, db)
            else err (conflict "event sequence was reused with different evidence"))
  unfolding record_invocation_event observation_of fold_observed
  repeat-effect db o e digest v a fits one last =
      (let f = v.found in
        let b = v.by in
        let t = a.timed in
        let c = a.classified in
        let op = v.is_open in
        let act = v.is_active in
        ground (
          arith,
          seq_fits generation_id invocation_id h now o.last_event_seq db fits,
          bytes_fit generation_id invocation_id h now (len e.raw) db a.bounded,
        ))

-- Two events under one sequence number.
module _ (generation_id invocation_id : String) (h : Hasher) (now : ℕ) where
  -- Where an invocation is observed by an active generation and has not ended, an acceptable event
  -- under the next sequence number is recorded; and another event under the same number, at
  -- whichever time, succeeds without a change where its digest is the same, and is refused as a
  -- conflict where it is not.
  pub event-again :
      (later : ℕ) (db : Db) (o : ObservationRow) (e e' : TurnEvent)
      → IsObserving generation_id invocation_id db o
      → IsAcceptable generation_id invocation_id e
      → IsAcceptable generation_id invocation_id e'
      → o.last_event_seq < i64_max
      → (after : Db) × (record_invocation_event h generation_id invocation_id
            (suc o.last_event_seq)
            e.observed_at_ms
            e.classification
            e.raw
            now
            db
          ≡ ok (tt, after))
        × (record_invocation_event h generation_id invocation_id
              (suc o.last_event_seq)
              e'.observed_at_ms
              e'.classification
              e'.raw
              later
              after
            ≡ (if str_eq
                  (digest_at h (suc o.last_event_seq) e)
                  (digest_at h (suc o.last_event_seq) e')
                then ok (tt, after)
                else err (conflict "event sequence was reused with different evidence")))
  unfolding set_folded
  event-again later db o e e' v a a' room = (
    after_event generation_id invocation_id h now db o e,
    event-effect generation_id invocation_id h now db o e v a room,
    repeat-effect generation_id invocation_id h later
        (after_event generation_id invocation_id h now db o e)
        (folded generation_id invocation_id h now o e) e' (digest_at h (suc o.last_event_seq) e)
        (next-IsObserving generation_id invocation_id h now db o e v) a' room (omega arith) refl,
  )
