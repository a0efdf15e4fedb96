-- ===== src/Error.antt =====
-- crates/kernel/src/error.rs: `FleetError`, and the results that carry it.
use fleetd.Base.{Bool, true, false, String, Option, none, some}

-- `database` stands for `sqlx::Error`; the variants that none of the modelled code raises
-- (migration, serialization, credential, I/O) are left out.
pub data FleetError : Type 0 where
  not_found : (entity id : String) → FleetError
  not_member : (agent_id channel_id : String) → FleetError
  invalid : String → FleetError
  unauthorized : FleetError
  forbidden : String → FleetError
  conflict : String → FleetError
  resource_exhausted : String → FleetError
  lease_conflict : String → FleetError
  database : String → FleetError

pub data Result {ℓ} (A : Type ℓ) : Type ℓ where
  ok : A → Result A
  err : FleetError → Result A

-- `?`, in a do block.
infixl 5 ◌>>=◌ ◌>>◌
abbrev pub ◌>>=◌ {ℓ κ} : {T : Type ℓ} {U : Type κ} → Result T → (T → Result U) → Result U
err failure >>= rest = err failure
ok value >>= rest = rest value

abbrev pub ◌>>◌ {ℓ} : {U : Type ℓ} → Result (Unit {0}) → Result U → Result U
check >> rest = check >>= λ _. rest

-- `if test { return Err(e) }`.
abbrev pub refuse_if : Bool → FleetError → Result (Unit {0})
refuse_if true e = err e
refuse_if false e = ok tt

-- `ok_or_else`.
abbrev pub ok_or {ℓ} : {A : Type ℓ} → Option A → FleetError → Result A
ok_or none e = err e
ok_or (some a) e = ok a
