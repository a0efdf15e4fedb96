-- ===== src/Execution/Observation/Pages.antt =====
-- crates/execution/src/operations.rs: cursor-addressed pages of durable evidence.
use fleetd.Base.{
  ℕ, Bool, true, ◌&&◌, ◌||◌, not, Option, none, some, String, List, [], ◌∷◌, ◌==◌, ltb, leb, str_eq,
  if◌then◌else◌, take,
}
use fleetd.Table.{find, select, order_by}
use fleetd.Db.{Db, message_at, GenerationRow, ObservationRow, InvocationRow}
use fleetd.Db.Tx.{Tx, ◌>>=◌, pure, get}
use fleetd.Kernel.Delivery.Block.{is_unset}
use fleetd.Execution.Invocation.Recover.{text_le}
use fleetd.Execution.Observation.{is_active_generation}

pub data EvidenceOrder : Type 0 where
  newest oldest : EvidenceOrder

-- A negative clock is refused by the source, and is no number here.
pub record EvidenceCursor : Type 0 where
  pub changed_at_ms : ℕ
  pub id : String

pub record EvidencePage : Type 0 where
  pub agent_id : Option String
  pub after : Option EvidenceCursor
  pub limit : ℕ
  pub settled : Bool
  pub order : EvidenceOrder

abbrev pub max_evidence_page : ℕ
max_evidence_page = 500

-- `limit.clamp(1, MAX_EVIDENCE_PAGE)`.
unfoldable pub page_limit : EvidencePage → ℕ
page_limit page =
    if page.limit == 0
    then 1
    else if leb page.limit max_evidence_page
    then page.limit
    else max_evidence_page

-- Where a table keeps what a page is addressed by.
pub record EvidenceColumns (R : Type 0) : Type 0 where
  pub agent : R → String
  pub changed : R → ℕ
  pub id : R → String
  pub settled : R → Bool

-- `(changed, id) < (?, ?)`, compared as SQLite compares rows of values.
abbrev pub earlier : ℕ → String → ℕ → String → Bool
earlier m a n b = ltb m n || (m == n && not (text_le b a))

module _ {R : Type 0} (columns : EvidenceColumns R) where
  abbrev pub is_past : EvidenceOrder → EvidenceCursor → R → Bool
  is_past newest cursor row =
      earlier (columns.changed row) (columns.id row) cursor.changed_at_ms cursor.id
  is_past oldest cursor row =
      earlier cursor.changed_at_ms cursor.id (columns.changed row) (columns.id row)

  abbrev pub comes_first : EvidenceOrder → R → R → Bool
  comes_first newest a b =
      not (earlier (columns.changed a) (columns.id a) (columns.changed b) (columns.id b))
  comes_first oldest a b =
      not (earlier (columns.changed b) (columns.id b) (columns.changed a) (columns.id a))

  abbrev pub of_agent : Option String → R → Bool
  of_agent none row = true
  of_agent (some agent_id) row = str_eq (columns.agent row) agent_id

  abbrev pub past_cursor : EvidenceOrder → Option EvidenceCursor → R → Bool
  past_cursor order none row = true
  past_cursor order (some cursor) row = is_past order cursor row

  -- What the filters of a page let through, whichever its cursor.
  abbrev pub is_selected : EvidencePage → R → Bool
  is_selected page row = of_agent page.agent_id row && (not page.settled || columns.settled row)

  -- `evidence_sql`, run on the rows of a table.
  unfoldable pub evidence_page : EvidencePage → List R → List R
  evidence_page page rows = take (page_limit page) (
      order_by (comes_first page.order)
        (select (λ row. is_selected page row && past_cursor page.order page.after row) rows))

abbrev pub generation_columns : EvidenceColumns GenerationRow
generation_columns = record {
  agent = λ g. g.agent_id;
  changed = λ g. g.last_heartbeat_at_ms;
  id = λ g. g.id;
  settled = λ g. not (is_active_generation g.state);
}

unfoldable pub list_plugin_generations : EvidencePage → Tx (List GenerationRow)
list_plugin_generations page = do
  db ← get
  pure (evidence_page generation_columns page db.generations)

-- An observation with the agent of its invocation.
abbrev pub observation_columns : EvidenceColumns (ObservationRow × InvocationRow)
observation_columns = record {
  agent = λ (o, i). i.agent_id;
  changed = λ (o, i). o.updated_at_ms;
  id = λ (o, i). o.invocation_id;
  settled = λ (o, i). not (is_unset o.terminal_at_ms);
}

-- JOIN invocations i ON i.id = o.invocation_id JOIN messages source ON source.seq = i.message_seq.
unfoldable pub join_invocations : Db → List ObservationRow → List (ObservationRow × InvocationRow)
join_invocations db [] = []
join_invocations db (o ∷ os) =
    let more = join_invocations db os in
    elim (find (λ i. str_eq i.id o.invocation_id) db.invocations) [
      | none ↦ more
      | some i ↦ elim (message_at db.messages i.message_seq) [
        | none ↦ more
        | some m ↦ (o, i) ∷ more
      ]
    ]

unfoldable pub list_invocation_observations :
    EvidencePage → Tx (List (ObservationRow × InvocationRow))
list_invocation_observations page = do
  db ← get
  pure (evidence_page observation_columns page (join_invocations db db.observations))
