-- ===== src/Execution/Fence/Update.antt =====
-- The fence under an update of the deliveries that ends the invocations whose lease it takes away.
use mathlib.Core.Option
use fleetd.Base.{
  Bool, true, false, ◌≡◌, refl, some, List, arith, All, All-map, inl, inr, Bool-cases, Option-cases,
  if◌then◌else◌,
}
use fleetd.Table.{update}
use fleetd.Table.Laws.{Distinct, Distinct-update, All-update, All-both, find-update}
use fleetd.Db.{Db, DeliveryRow, InvocationRow, delivery_key, same_delivery}
use fleetd.Execution.Session.Turn.{is_terminal}
use fleetd.Execution.Fence.{delivery_of, holds_lease, is_fenced, rivals, IsFenced}

-- A change of a delivery that keeps its key.
pub record KeepsKey (set : DeliveryRow → DeliveryRow) : Type 0 where
  pub seq : (d : DeliveryRow) → (set d).message_seq ≡ d.message_seq
  pub agent : (d : DeliveryRow) → (set d).agent_id ≡ d.agent_id

-- A change of an invocation that ends it, or keeps what the fence reads.
pub record KeepsFence (end : InvocationRow → InvocationRow) : Type 0 where
  pub seq : (i : InvocationRow) → (end i).message_seq ≡ i.message_seq
  pub agent : (i : InvocationRow) → (end i).agent_id ≡ i.agent_id
  pub ends : (i : InvocationRow) → is_terminal (end i).state ≡ true

module _ (p : DeliveryRow → Bool) (set : DeliveryRow → DeliveryRow) (keeps : KeepsKey set)
    (ds : List DeliveryRow) where
  delivery_of-update :
      (i : InvocationRow)
      → delivery_of (update p set ds) i
        ≡ Option.map (λ d. if p d then set d else d) (delivery_of ds i)
  delivery_of-update i =
      find-update p set (delivery_key i.message_seq i.agent_id)
        (λ d. rw (keeps.seq d, keeps.agent d) refl) ds

  -- An open invocation whose delivery the update passes over stays fenced.
  pub is_fenced-update :
      (i : InvocationRow)
      → is_fenced ds i ≡ true
      → ((d : DeliveryRow)
          → is_terminal i.state ≡ false
          → delivery_of ds i ≡ some d
          → holds_lease i d ≡ true
          → p d ≡ false)
      → is_fenced (update p set ds) i ≡ true
  unfolding is_fenced
  is_fenced-update i h passes = elim (Bool-cases (is_terminal i.state)) [
    | inl e ↦ rw e refl
    | inr going ↦ elim (Option-cases (delivery_of ds i)) [
      | inl e ↦ absurd (ground arith)
      | inr (d, e) ↦
          (let held : holds_lease i d ≡ true = ground arith in
            ground (arith, delivery_of-update i, passes d going e held))
    ]
  ]

  -- So does every invocation, where the update ends those whose delivery it changes.
  pub fenced-update :
      (q : InvocationRow → Bool) (end : InvocationRow → InvocationRow)
      → KeepsFence end
      → (good : InvocationRow → Bool) (is : List InvocationRow)
      → ((i : InvocationRow) (d : DeliveryRow)
          → good i ≡ true
          → q i ≡ false
          → is_terminal i.state ≡ false
          → delivery_of ds i ≡ some d
          → holds_lease i d ≡ true
          → p d ≡ false)
      → All (λ i. good i ≡ true) is
      → All (λ i. is_fenced ds i ≡ true) is
      → All (λ i. is_fenced (update p set ds) i ≡ true) (update q end is)
  fenced-update q end ending good is passes g h =
      All-update q end (λ i _ _. ended i)
        (λ i f e. is_fenced-update i f.1 (λ d going. passes i d f.0 e going)) is
        (All-both (λ i. good i ≡ true) (λ i. is_fenced ds i ≡ true) is g h)
    where
      ended : (i : InvocationRow) → is_fenced (update p set ds) (end i) ≡ true
      ended i = unfold is_fenced in rw (ending.ends i) refl

  -- An update that passes over every held delivery.
  pub fenced-keep :
      ((i : InvocationRow) (d : DeliveryRow) → holds_lease i d ≡ true → p d ≡ false)
      → (is : List InvocationRow) → All (λ i. is_fenced ds i ≡ true) is
      → All (λ i. is_fenced (update p set ds) i ≡ true) is
  fenced-keep passes is h =
      All-map (λ i f. is_fenced-update i f (λ d _ _ held. passes i d held)) is h

-- Ending invocations makes no rivals.
pub single-update :
    (q : InvocationRow → Bool) (end : InvocationRow → InvocationRow)
    → KeepsFence end
    → (is : List InvocationRow) → Distinct rivals is
    → Distinct rivals (update q end is)
single-update q end ending =
    Distinct-update rivals q end (λ r s _ h. ground (arith, ending.ends s))
      (λ r s _ h. ground (arith, ending.ends r))

pub deliveries-Distinct :
    (p : DeliveryRow → Bool) (set : DeliveryRow → DeliveryRow)
    → KeepsKey set
    → (ds : List DeliveryRow) → Distinct same_delivery ds
    → Distinct same_delivery (update p set ds)
deliveries-Distinct p set keeps =
    Distinct-update same_delivery p set (λ r s _ h. rw (keeps.seq s, keeps.agent s) h)
      (λ r s _ h. rw (keeps.seq r, keeps.agent r) h)

-- A database whose deliveries and invocations are updated together.
abbrev pub updated :
    Db
    → (DeliveryRow → Bool)
    → (DeliveryRow → DeliveryRow)
    → (InvocationRow → Bool)
    → (InvocationRow → InvocationRow)
    → Db
updated db p set q end = record db {
  deliveries = update p set db.deliveries;
  invocations = update q end db.invocations;
}

pub updated-IsFenced :
    (db : Db) (p : DeliveryRow → Bool) (set : DeliveryRow → DeliveryRow) (q : InvocationRow → Bool)
    (end : InvocationRow → InvocationRow)
    → KeepsKey set
    → KeepsFence end
    → (good : InvocationRow → Bool)
    → ((i : InvocationRow) (d : DeliveryRow)
        → good i ≡ true
        → q i ≡ false
        → is_terminal i.state ≡ false
        → delivery_of db.deliveries i ≡ some d
        → holds_lease i d ≡ true
        → p d ≡ false)
    → All (λ i. good i ≡ true) db.invocations
    → IsFenced db
    → IsFenced (updated db p set q end)
updated-IsFenced db p set q end keeps ending good passes g v = record {
  fenced =
      fenced-update p set keeps db.deliveries q end ending good db.invocations passes g v.fenced;
  single = single-update q end ending db.invocations v.single;
  distinct = deliveries-Distinct p set keeps db.deliveries v.distinct;
}

-- A database whose invocations end.
abbrev pub ended : Db → (InvocationRow → Bool) → (InvocationRow → InvocationRow) → Db
ended db q end = record db { invocations = update q end db.invocations }

pub ended-IsFenced :
    (db : Db) (q : InvocationRow → Bool) (end : InvocationRow → InvocationRow)
    → KeepsFence end
    → IsFenced db
    → IsFenced (ended db q end)
unfolding is_fenced
ended-IsFenced db q end ending v = record {
  fenced = All-update q end (λ i _ _. rw (ending.ends i) refl) (λ i f _. f) db.invocations v.fenced;
  single = single-update q end ending db.invocations v.single;
  distinct = v.distinct;
}
