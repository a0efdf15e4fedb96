-- ===== src/Db/Statements.antt =====
-- UPDATE statements on each table, with the number of rows that they affect.
use fleetd.Base.{ℕ, Bool}
use fleetd.Error.{Result}
use fleetd.Table.{update, count}
use fleetd.Db.{DeliveryRow, InvocationRow, BindingRow, TurnRow, GenerationRow, ObservationRow}
use fleetd.Db.Tx.{Tx}

unfoldable pub update_deliveries : (DeliveryRow → Bool) → (DeliveryRow → DeliveryRow) → Tx ℕ
update_deliveries p f db =
    Result.ok (count p db.deliveries, record db { deliveries = update p f db.deliveries })

unfoldable pub update_invocations : (InvocationRow → Bool) → (InvocationRow → InvocationRow) → Tx ℕ
update_invocations p f db =
    Result.ok (count p db.invocations, record db { invocations = update p f db.invocations })

unfoldable pub update_bindings : (BindingRow → Bool) → (BindingRow → BindingRow) → Tx ℕ
update_bindings p f db =
    Result.ok (count p db.bindings, record db { bindings = update p f db.bindings })

unfoldable pub update_turns : (TurnRow → Bool) → (TurnRow → TurnRow) → Tx ℕ
update_turns p f db = Result.ok (count p db.turns, record db { turns = update p f db.turns })

unfoldable pub update_generations : (GenerationRow → Bool) → (GenerationRow → GenerationRow) → Tx ℕ
update_generations p f db =
    Result.ok (count p db.generations, record db { generations = update p f db.generations })

unfoldable pub update_observations :
    (ObservationRow → Bool) → (ObservationRow → ObservationRow) → Tx ℕ
update_observations p f db =
    Result.ok (count p db.observations, record db { observations = update p f db.observations })
