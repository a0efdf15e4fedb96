-- ===== src/Execution/Session/Lifecycle.antt =====
-- crates/execution/src/session_binding.rs: how a binding generation may change: its identity and
-- its native session stay, its owner epoch and its phase never go back, and its end is final.
pub mod Statements
use mathlib.Core.Option
use fleetd.Base.{
  ℕ, ◌≤◌, ◌≡◌, refl, sym, ◌∙◌, Bool, true, false, ◌&&◌, Option, none, some, String, List, arith,
  subst, ◌==◌, ◌++◌, ap, Bool-cases, inl, inr,
}
use fleetd.Table.{find, update}
use fleetd.Table.Laws.{find-append_some, find-update, changed}
use fleetd.Model.{BindingState}
use fleetd.Db.{Db, BindingRow}
use fleetd.Db.Keeps.{Relation}
use fleetd.Execution.Session.Rows.{is_exact}

-- opening, then ready and active by turns, then uncertain, then retired.
unfoldable pub phase : BindingState → ℕ
phase BindingState.opening = 0
phase BindingState.ready = 1
phase BindingState.active = 1
phase BindingState.uncertain = 2
phase BindingState.retired = 3

pub record Follows (s t : BindingRow) : Type 0 where
  pub binding_id : t.binding_id ≡ s.binding_id
  pub generation : t.binding_generation ≡ s.binding_generation
  pub agent : t.agent_id ≡ s.agent_id
  pub policy : t.lane_policy ≡ s.lane_policy
  pub key : t.lane_key ≡ s.lane_key
  pub epoch : s.owner_epoch ≤ t.owner_epoch
  pub phases : phase s.state ≤ phase t.state
  pub native : 1 ≤ phase s.state → t.session_ref ≡ s.session_ref
  pub ended : 3 ≤ phase s.state → t ≡ s

pub Follows-refl : (s : BindingRow) → Follows s s
Follows-refl s = record {
  binding_id = refl;
  generation = refl;
  agent = refl;
  policy = refl;
  key = refl;
  epoch = omega arith;
  phases = omega arith;
  native = λ _. refl;
  ended = λ _. refl;
}

pub Follows-trans : (s t u : BindingRow) → Follows s t → Follows t u → Follows s u
Follows-trans s t u f g = record {
  binding_id = g.binding_id ∙ f.binding_id;
  generation = g.generation ∙ f.generation;
  agent = g.agent ∙ f.agent;
  policy = g.policy ∙ f.policy;
  key = g.key ∙ f.key;
  epoch = omega (arith, f.epoch, g.epoch);
  phases = omega (arith, f.phases, g.phases);
  native = λ h. g.native (omega (arith, f.phases, h)) ∙ f.native h;
  ended = λ h. g.ended (omega (arith, f.phases, h)) ∙ f.ended h;
}

-- Every generation is still there, and has followed.
abbrev pub Evolves : List BindingRow → List BindingRow → Type 0
Evolves rs ss =
    (agent_id binding_id : String) (generation : ℕ) (s : BindingRow)
    → find (is_exact agent_id binding_id generation) rs ≡ some s
    → (t : BindingRow) × (find (is_exact agent_id binding_id generation) ss ≡ some t) × Follows s t

abbrev pub evolving : Relation
evolving = record {
  holds = λ db after. Evolves db.bindings after.bindings;
  same = λ db agent_id binding_id generation s e. (s, e, Follows-refl s);
  compose = λ a b c f g agent_id binding_id generation s e.
      let (t, e', h) = f agent_id binding_id generation s e in
      let (u, e'', k) = g agent_id binding_id generation t e' in (u, e'', Follows-trans s t u h k);
}

pub same_bindings : (db after : Db) → after.bindings ≡ db.bindings → evolving.holds db after
same_bindings db after e = subst (λ rs. Evolves db.bindings rs) (sym e) (evolving.same db)

pub Evolves-append : (rs ss : List BindingRow) → Evolves rs (rs ++ ss)
Evolves-append rs ss agent_id binding_id generation s e =
    (s, find-append_some (is_exact agent_id binding_id generation) rs ss s e, Follows-refl s)

module _ (p : BindingRow → Bool) (f : BindingRow → BindingRow) where
  pub Evolves-update :
      ((s : BindingRow) → (f s).binding_id ≡ s.binding_id)
      → ((s : BindingRow) → (f s).binding_generation ≡ s.binding_generation)
      → ((s : BindingRow) → (f s).agent_id ≡ s.agent_id)
      → ((s : BindingRow) → p s ≡ true → Follows s (f s))
      → (rs : List BindingRow) → Evolves rs (update p f rs)
  Evolves-update ids generations agents h rs agent_id binding_id generation s e = (
    changed p f s,
    found,
    elim (Bool-cases (p s)) [ inl yes' ↦ rw yes' (h s yes') | inr no' ↦ rw no' (Follows-refl s) ],
  )
    where
      key : BindingRow → Bool
      key = is_exact agent_id binding_id generation

      found : find key (update p f rs) ≡ some (changed p f s)
      found =
          find-update p f key (λ r. rw (ids r, generations r, agents r) refl) rs
          ∙ ap (Option.map (changed p f)) e
