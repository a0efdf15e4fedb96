-- ===== src/Execution/Session/Granted.antt =====
-- crates/execution/src/session_binding.rs: what an acquisition hands to the one that asked for it.
pub mod Lane
use mathlib.Core.Option
use fleetd.Base.{
  ℕ, ◌+◌, ◌≡◌, refl, sym, ◌∙◌, ap, subst, Bool, true, false, ◌&&◌, ◌||◌, not, Option, none, some,
  String, List, [], ◌∷◌, ◌++◌, ◌==◌, str_eq, holds_text, arith, All, All-map, str_eq_iff,
  Option-cases, Bool-cases, inl, inr, if◌then◌else◌,
}
use fleetd.Error.{ok, err, conflict}
use fleetd.Table.{find, update, count, any}
use fleetd.Table.Laws.{
  Distinct, Distinct-equal, any-none, find-some, find-append, find-none, find-update, find-holds,
  changed, All-find,
}
use fleetd.Model.{BindingState, AcquireSessionBinding, SessionAcquisitionMode}
use fleetd.Db.{Db, BindingRow}
use fleetd.Db.Statements.{update_bindings}
use fleetd.Db.Tx.{Tx, ◌>>=◌, ◌>>◌, fail_if, bind_ok}
use fleetd.Execution.Session.{owner_fence, is_ready, is_retired}
use fleetd.Execution.Session.Rows.{
  SessionBinding, binding_from_row, row_binding, is_exact, in_lane, exact_binding_row,
  latest_binding_row, current_binding_row, binding_by_identity,
}
use fleetd.Execution.Session.Acquire.{
  SessionAcquisition, same_texts, configuration_matches, new_binding, clashes_binding,
  insert_binding_row, insert_binding, acquisition_for_owned, acquire_existing, take_over,
  acquire_session_binding, validate_acquisition, set_owner, adopt_binding, next_number,
  rotate_binding, insert_after_latest_retired,
}
use fleetd.Kernel.Delivery.{ensure_agent}
use fleetd.Db.Demands.{unchanged}
use fleetd.Execution.Session.Reads.{acquisition_reads, agent_reads, current_reads}
use fleetd.Execution.Session.Bound.{same_binding}

-- A new session is to be created where the binding has none, and resumed where it has one.
abbrev pub offers : BindingRow → SessionAcquisitionMode → Bool
offers s SessionAcquisitionMode.create = elim s.state [ BindingState.opening ↦ true | _ ↦ false ]
offers s (SessionAcquisitionMode.resume session_ref) = elim s.state [
  | BindingState.ready ↦ holds_text s.session_ref session_ref
  | _ ↦ false
]

module _ (agent_id : String) (input : AcquireSessionBinding) where
  pub record Granted (a : SessionAcquisition) (after : Db) : Type 0 where
    pub row : BindingRow
    pub stored :
        find (is_exact agent_id row.binding_id row.binding_generation) after.bindings ≡ some row
    pub read : a.session ≡ binding_from_row row
    pub lane : in_lane agent_id input.lane_policy input.lane_key row ≡ true
    pub owner : row.owner_instance_id ≡ input.owner_instance_id
    pub configured : configuration_matches a.session input ≡ true
    pub offered : offers row a.mode ≡ true

  texts_self : (ts : List String) → same_texts ts ts ≡ true
  texts_self [] = refl
  texts_self (t ∷ ts) = ground (arith, texts_self ts, str_eq_iff t t)

  new_stored :
      (binding_id : String) (generation now : ℕ) (rs : List BindingRow)
      → any (clashes_binding (new_binding binding_id generation agent_id input now)) rs ≡ false
      → find
          (is_exact agent_id binding_id generation)
          (rs ++ new_binding binding_id generation agent_id input now ∷ [])
        ≡ some (new_binding binding_id generation agent_id input now)
  unfolding clashes_binding new_binding find
  new_stored binding_id generation now rs free =
      find-append (is_exact agent_id binding_id generation) rs
        (new_binding binding_id generation agent_id input now ∷ [])
        (find-none (is_exact agent_id binding_id generation) rs
          (All-map (λ s e. ground arith) rs (any-none _ rs free)))
      ∙ ground (arith, str_eq_iff binding_id binding_id, str_eq_iff agent_id agent_id)

  insert-free :
      (binding_id : String) (generation now : ℕ) (db after : Db) (a : SessionAcquisition)
      → insert_binding binding_id generation agent_id input now db ≡ ok (a, after)
      → any (clashes_binding (new_binding binding_id generation agent_id input now)) db.bindings
        ≡ false
  unfolding insert_binding insert_binding_row
  insert-free binding_id generation now db after a h = ground arith

  insert-effect :
      (binding_id : String) (generation now : ℕ) (db after : Db) (a : SessionAcquisition)
      → insert_binding binding_id generation agent_id input now db ≡ ok (a, after)
      → (after.bindings ≡ db.bindings ++ new_binding binding_id generation agent_id input now ∷ [])
        × (a.session ≡ binding_from_row (new_binding binding_id generation agent_id input now))
        × (a.mode ≡ SessionAcquisitionMode.create)
  unfolding insert_binding insert_binding_row binding_by_identity exact_binding_row
  insert-effect binding_id generation now db after a h =
      (let free = insert-free binding_id generation now db after a h in
        let there = new_stored binding_id generation now db.bindings free in ground (arith, there))

  pub insert-Granted :
      (binding_id : String) (generation now : ℕ) (db after : Db) (a : SessionAcquisition)
      → insert_binding binding_id generation agent_id input now db ≡ ok (a, after)
      → Granted a after
  unfolding configuration_matches binding_from_row new_binding
  insert-Granted binding_id generation now db after a h =
      (let new = new_binding binding_id generation agent_id input now in
        let (rows, session, mode) = insert-effect binding_id generation now db after a h in
        record {
          row = new;
          stored =
              ap (find (is_exact agent_id binding_id generation)) rows
              ∙ new_stored binding_id generation now db.bindings
                  (insert-free binding_id generation now db after a h);
          read = session;
          lane = ground (
            arith,
            str_eq_iff agent_id agent_id,
            str_eq_iff input.lane_policy input.lane_policy,
            str_eq_iff input.lane_key input.lane_key,
          );
          owner = refl;
          configured = rw session (
              ground (
                arith,
                texts_self input.additional_directories,
                str_eq_iff input.profile_digest input.profile_digest,
                str_eq_iff input.compatibility_digest input.compatibility_digest,
                str_eq_iff input.working_directory input.working_directory,
              ));
          offered = rw mode refl;
        })

  -- The row that a lookup of its key finds.
  pub exact_row :
      (p : BindingRow → Bool) (rs : List BindingRow) (s : BindingRow)
      → Distinct same_binding rs
      → find p rs ≡ some s
      → str_eq s.agent_id agent_id ≡ true
      → find (is_exact agent_id s.binding_id s.binding_generation) rs ≡ some s
  exact_row p rs s d e mine =
      (let alone =
          All-find p (λ r. All (λ k. same_binding r k ≡ true → r ≡ k) rs) rs s
            (Distinct-equal same_binding
              (λ r k.
                ground (
                  arith,
                  str_eq_iff r.binding_id k.binding_id,
                  str_eq_iff k.binding_id r.binding_id,
                ))
              rs d)
            e in
        let there = find-some p (is_exact agent_id s.binding_id s.binding_generation) rs s in
        elim (Option-cases (find (is_exact agent_id s.binding_id s.binding_generation) rs)) [
          | inl q ↦ absurd (there e (ground (arith, str_eq_iff s.binding_id s.binding_id)) q)
          | inr (k, q) ↦
              let key = find-holds (is_exact agent_id s.binding_id s.binding_generation) rs k q in
              let same =
                All-find (is_exact agent_id s.binding_id s.binding_generation) _ rs k alone q in
              q
              ∙ ap some (
                  sym (
                    same (
                      ground (
                        arith,
                        key,
                        str_eq_iff k.binding_id s.binding_id,
                        str_eq_iff s.binding_id k.binding_id,
                      ))))
        ])

  pub owned-Granted :
      (db after : Db) (s : BindingRow) (a : SessionAcquisition)
      → find (is_exact agent_id s.binding_id s.binding_generation) db.bindings ≡ some s
      → in_lane agent_id input.lane_policy input.lane_key s ≡ true
      → str_eq s.owner_instance_id input.owner_instance_id ≡ true
      → configuration_matches (binding_from_row s) input ≡ true
      → acquisition_for_owned s.state (binding_from_row s) db ≡ ok (a, after)
      → Granted a after
  unfolding acquisition_for_owned binding_from_row
  owned-Granted db after s a e l o c h =
      (let kept : after ≡ db = ground arith in
        let session : a.session ≡ binding_from_row s = ground arith in
        record {
          row = s;
          stored = rw kept e;
          read = session;
          lane = l;
          owner = ground (arith, str_eq_iff s.owner_instance_id input.owner_instance_id);
          configured = rw session c;
          offered = elim (Option-cases s.session_ref) [
            | inl q ↦ ground (arith, q)
            | inr (r, q) ↦ ground (arith, q, str_eq_iff r r)
          ];
        })

  adopt_moved :
      (epoch now : ℕ) (rs : List BindingRow) (s : BindingRow)
      → find (is_exact s.agent_id s.binding_id s.binding_generation) rs ≡ some s
      → is_ready s.state ≡ true
      → find (is_exact s.agent_id s.binding_id s.binding_generation) (
          update
            (λ k. owner_fence s.agent_id (row_binding s) k && is_ready k.state)
            (set_owner epoch input.owner_instance_id now)
            rs)
        ≡ some (set_owner epoch input.owner_instance_id now s)
  unfolding set_owner owner_fence
  adopt_moved epoch now rs s e r =
      find-update (λ k. owner_fence s.agent_id (row_binding s) k && is_ready k.state)
        (set_owner epoch input.owner_instance_id now)
        (is_exact s.agent_id s.binding_id s.binding_generation) (λ k. refl) rs
      ∙ ap (Option.map _) e
      ∙ ground (arith, str_eq_iff s.binding_id s.binding_id, str_eq_iff s.agent_id s.agent_id)

  adopt-effect :
      (now : ℕ) (db after : Db) (s : BindingRow) (a : SessionAcquisition)
      → find (is_exact s.agent_id s.binding_id s.binding_generation) db.bindings ≡ some s
      → is_ready s.state ≡ true
      → adopt_binding (binding_from_row s) input.owner_instance_id now db ≡ ok (a, after)
      → (find (is_exact s.agent_id s.binding_id s.binding_generation) after.bindings
          ≡ some (set_owner (s.owner_epoch + 1) input.owner_instance_id now s))
        × (a.session
            ≡ binding_from_row (set_owner (s.owner_epoch + 1) input.owner_instance_id now s))
        × (offers (set_owner (s.owner_epoch + 1) input.owner_instance_id now s) a.mode ≡ true)
  unfolding adopt_binding next_number binding_by_identity exact_binding_row update_bindings
      binding_from_row set_owner
  adopt-effect now db after s a e r h =
      (let there = adopt_moved (s.owner_epoch + 1) now db.bindings s e r in
        elim (Option-cases s.session_ref) [
          | inl q ↦ absurd (ground (arith, there, q))
          | inr (n, q) ↦ (
            ground (arith, there),
            ground (arith, there, q),
            ground (arith, there, q, str_eq_iff n n),
          )
        ])

  pub adopt-Granted :
      (now : ℕ) (db after : Db) (s : BindingRow) (a : SessionAcquisition)
      → find (is_exact agent_id s.binding_id s.binding_generation) db.bindings ≡ some s
      → in_lane agent_id input.lane_policy input.lane_key s ≡ true
      → is_ready s.state ≡ true
      → configuration_matches (binding_from_row s) input ≡ true
      → adopt_binding (binding_from_row s) input.owner_instance_id now db ≡ ok (a, after)
      → Granted a after
  unfolding configuration_matches binding_from_row set_owner
  adopt-Granted now db after s a e l r c h =
      (let mine : s.agent_id ≡ agent_id = ground (arith, str_eq_iff s.agent_id agent_id) in
        let own =
          subst (λ x. find (is_exact x s.binding_id s.binding_generation) db.bindings ≡ some s)
            (sym mine) e in
        let (there, session, offer) = adopt-effect now db after s a own r h in
        record {
          row = set_owner (s.owner_epoch + 1) input.owner_instance_id now s;
          stored =
              subst
                (λ x.
                  find (is_exact x s.binding_id s.binding_generation) after.bindings
                  ≡ some (set_owner (s.owner_epoch + 1) input.owner_instance_id now s))
                mine there;
          read = session;
          lane = l;
          owner = refl;
          configured = rw session c;
          offered = offer;
        })
