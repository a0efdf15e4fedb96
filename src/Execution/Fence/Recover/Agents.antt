-- ===== src/Execution/Fence/Recover/Agents.antt =====
-- crates/execution/src/invocation.rs: recovery for one agent, and for all of them.
use mathlib.Core.List.{Mem, mem-cons_of_mem, mem-cons_self}
use fleetd.Base.{
  ℕ, Bool, true, false, ◌&&◌, ◌||◌, not, ◌≡◌, refl, String, List, [], ◌∷◌, arith, All, All-map,
  str_eq, leb, subst, sym, inl, inr, Bool-cases, str_eq_iff,
}
use fleetd.Error.{ok}
use fleetd.Table.{any, select, order_by}
use fleetd.Table.Laws.{All-both, All-every, any-none}
use fleetd.Db.{Db, InvocationRow}
use fleetd.Db.Tx.{bind_ok}
use fleetd.Execution.Session.Turn.{is_terminal}
use fleetd.Execution.Invocation.Recover.{
  expired_armed, lapses, reserved_le, saturating_add, terminalize_expired_reservations,
  recover_expired_invocations_transaction, recover_agents, recover_all_expired_invocations,
  expired_agents, insert_distinct, has_lapsed,
}
use fleetd.Execution.Fence.{IsFenced, is_fenced}
use fleetd.Execution.Fence.Recover.Sweep.{due, park_all-Sweeps, Sweeps-clear}
use fleetd.Execution.Fence.Recover.Listing.{
  start-Sweeps, fenced-has_lapsed, reservations-IsFenced, reservations-armed, reservations-effect,
}
use fleetd.Execution.Fence.Recover.Survive.{recover-All}

module _ (agent_id : String) (now : ℕ) (db after : Db) (recovered : ℕ) where
  -- Where the invocation fence holds, a recovery of one agent that commits keeps the fence and
  -- leaves no open invocation of that agent whose lease has expired.
  pub recover-clears :
      IsFenced db
      → recover_expired_invocations_transaction agent_id now db ≡ ok (recovered, after)
      → IsFenced after × All (λ i. due agent_id now i ≡ false) after.invocations
  unfolding recover_expired_invocations_transaction
  recover-clears v h = bind_ok (terminalize_expired_reservations agent_id now) _ db h λ n db1 e1 k1.
      let same = reservations-effect agent_id now db n db1 e1 in
      let v1 : IsFenced db1 = subst IsFenced (sym same) (reservations-IsFenced agent_id now db v) in
      let swept =
        park_all-Sweeps agent_id now
          (lapses db1 now
            (order_by reserved_le (select (expired_armed db1 agent_id now) db1.invocations)))
          n recovered db1 after
          (start-Sweeps agent_id now db1 v1 (rw same (reservations-armed agent_id now db v))) k1 in
      (swept.fenced, Sweeps-clear agent_id now after swept)

-- An open attempt past its expiry.
unfoldable pub overdue : ℕ → InvocationRow → Bool
overdue now i = not (is_terminal i.state) && leb i.lease_expires_at_ms now

All-Mem : (rs : List InvocationRow) → All (λ i. Mem i rs) rs
All-Mem [] = tt
All-Mem (r ∷ rs) = (mem-cons_self, All-map (λ i m. mem-cons_of_mem r m) rs (All-Mem rs))

module _ (now : ℕ) where
  -- What holds of every ended attempt survives the loop.
  recover_agents-All :
      (P : InvocationRow → Type 0)
      → ((i : InvocationRow) → is_terminal i.state ≡ true → P i)
      → (agents : List String) (recovered total : ℕ) (db after : Db) → All P db.invocations
      → recover_agents now agents recovered db ≡ ok (total, after)
      → All P after.invocations
  unfolding recover_agents
  recover_agents-All P closed [] recovered total db after a h =
      (let same : db ≡ after = ground arith in subst (λ db. All P db.invocations) same a)
  recover_agents-All P closed (agent_id ∷ agents) recovered total db after a h =
      bind_ok (recover_expired_invocations_transaction agent_id now) _ db h λ more db1 e1 k1.
        recover_agents-All P closed agents (saturating_add recovered more) total db1 after
          (recover-All agent_id now P closed more db db1 a e1) k1

  recover_agents-IsFenced :
      (agents : List String) (recovered total : ℕ) (db after : Db)
      → IsFenced db
      → recover_agents now agents recovered db ≡ ok (total, after)
      → IsFenced after
  unfolding recover_agents
  recover_agents-IsFenced [] recovered total db after v h =
      (let same : db ≡ after = ground arith in subst IsFenced same v)
  recover_agents-IsFenced (agent_id ∷ agents) recovered total db after v h =
      bind_ok (recover_expired_invocations_transaction agent_id now) _ db h λ more db1 e1 k1.
        recover_agents-IsFenced agents (saturating_add recovered more) total db1 after
          (recover-clears agent_id now db db1 more v e1).0 k1

  -- An open attempt past its expiry, of an agent of the list.
  abbrev awaited : List String → InvocationRow → Bool
  awaited agents i = overdue now i && any (λ a. str_eq i.agent_id a) agents

  awaited_next :
      (agent_id : String) (agents : List String) (i : InvocationRow)
      → due agent_id now i ≡ false
      → awaited agents i ≡ false
      → awaited (agent_id ∷ agents) i ≡ false
  unfolding overdue due any
  awaited_next agent_id agents i one rest = ground arith

  recover_agents-clears :
      (agents : List String) (recovered total : ℕ) (db after : Db)
      → IsFenced db
      → recover_agents now agents recovered db ≡ ok (total, after)
      → All (λ i. awaited agents i ≡ false) after.invocations
  unfolding recover_agents any
  recover_agents-clears [] recovered total db after v h =
      All-every _ (λ i. ground arith) after.invocations
  recover_agents-clears (agent_id ∷ agents) recovered total db after v h =
      bind_ok (recover_expired_invocations_transaction agent_id now) _ db h λ more db1 e1 k1.
        let (v1, clear) = recover-clears agent_id now db db1 more v e1 in
        All-map (λ i (one, rest). awaited_next agent_id agents i one rest) after.invocations
          (All-both _ _ after.invocations
            (recover_agents-All (λ i. due agent_id now i ≡ false)
              (λ i e. unfold due in (ground arith)) agents (saturating_add recovered more) total db1
              after clear k1)
            (recover_agents-clears agents (saturating_add recovered more) total db1 after v1 k1))

  any-insert_distinct :
      (g : String → Bool) (a : String) (more : List String)
      → any g (insert_distinct a more) ≡ (g a || any g more)
  unfolding insert_distinct any
  any-insert_distinct g a [] = refl
  any-insert_distinct g a (b ∷ bs) = elim (Bool-cases (str_eq a b)) [
    | inl e ↦ (let same : a ≡ b = ground (arith, str_eq_iff a b) in ground arith)
    | inr e ↦ ground (arith, any-insert_distinct g a bs)
  ]

  any-expired_agents :
      (db : Db) (g : String → Bool) (is : List InvocationRow)
      → any g (expired_agents db now is)
        ≡ any (λ j. overdue now j && has_lapsed db now j && g j.agent_id) is
  unfolding expired_agents any overdue
  any-expired_agents db g [] = refl
  any-expired_agents db g (i ∷ is) = ground (
    arith,
    any-expired_agents db g is,
    any-insert_distinct g i.agent_id (expired_agents db now is),
  )

  not_rival :
      (listed : Db) (i j : InvocationRow)
      → is_fenced listed.deliveries j ≡ true
      → (overdue now j && has_lapsed listed now j && str_eq i.agent_id j.agent_id) ≡ false
      → (overdue now i && overdue now j && str_eq i.agent_id j.agent_id) ≡ false
  unfolding overdue
  not_rival listed i j f m = ground (arith, fenced-has_lapsed listed now j f)

  -- An agent that no listed attempt is of has none that is overdue.
  unlisted :
      (listed : Db) (i : InvocationRow)
      → All (λ j. is_fenced listed.deliveries j ≡ true) listed.invocations
      → awaited (expired_agents listed now listed.invocations) i ≡ false
      → All
          (λ j. (overdue now i && overdue now j && str_eq i.agent_id j.agent_id) ≡ false)
          listed.invocations
  unlisted listed i fenced miss = elim (Bool-cases (overdue now i)) [
    | inr e ↦ All-every _ (λ j. ground (arith, e)) listed.invocations
    | inl e ↦
        let none_there =
          any-none (λ j. overdue now j && has_lapsed listed now j && str_eq i.agent_id j.agent_id)
            listed.invocations
            (ground (
              arith,
              e,
              miss,
              any-expired_agents listed (λ a. str_eq i.agent_id a) listed.invocations,
            )) in
        All-map (λ j (f, m). not_rival listed i j f m) listed.invocations
          (All-both _ _ listed.invocations fenced none_there)
  ]

  pub reconcile-IsFenced :
      (listed : Db) (recovered : ℕ) (db after : Db)
      → IsFenced db
      → recover_all_expired_invocations listed now db ≡ ok (recovered, after)
      → IsFenced after
  unfolding recover_all_expired_invocations
  reconcile-IsFenced listed recovered db after v h =
      recover_agents-IsFenced (expired_agents listed now listed.invocations) 0 recovered db after v
        h

  -- What a reconciliation leaves overdue was there before it.
  reconcile-leaves :
      (listed : Db) (recovered : ℕ) (db after : Db)
      → recover_all_expired_invocations listed now db ≡ ok (recovered, after)
      → All (λ i. overdue now i ≡ true → Mem i db.invocations) after.invocations
  unfolding recover_all_expired_invocations
  reconcile-leaves listed recovered db after h =
      recover_agents-All (λ i. overdue now i ≡ true → Mem i db.invocations)
        (λ i e o. absurd (unfold overdue in (ground arith)))
        (expired_agents listed now listed.invocations) 0 recovered db after
        (All-map (λ i m _. m) db.invocations (All-Mem db.invocations)) h

  -- Where the invocation fence holds, both when the agents are listed and later when the
  -- transaction of a reconciliation of all agents starts, a reconciliation that commits keeps the
  -- fence, and an open invocation with an expired lease that is left was there when the
  -- transaction started, and is of an agent that had no such invocation when the agents were
  -- listed.
  pub reconcile-clears :
      (listed : Db) (recovered : ℕ) (db after : Db)
      → IsFenced listed
      → IsFenced db
      → recover_all_expired_invocations listed now db ≡ ok (recovered, after)
      → IsFenced after
        × All
            (λ i.
              All
                (λ j. (overdue now i && overdue now j && str_eq i.agent_id j.agent_id) ≡ false)
                listed.invocations)
            after.invocations
        × All (λ i. overdue now i ≡ true → Mem i db.invocations) after.invocations
  unfolding recover_all_expired_invocations
  reconcile-clears listed recovered db after w v h = (
    reconcile-IsFenced listed recovered db after v h,
    All-map (λ i miss. unlisted listed i w.fenced miss) after.invocations
        (recover_agents-clears (expired_agents listed now listed.invocations) 0 recovered db after v
          h),
    reconcile-leaves listed recovered db after h,
  )
