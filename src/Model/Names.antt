-- ===== src/Model/Names.antt =====
-- crates/proto/src/model.rs and session.rs: `as_str`, `ALL` and `parse` of each state.
use fleetd.Base.{String, ◌≡◌, refl, subst, ◌↔◌, List, [], ◌∷◌, Option, some, str_eq, str_eq_iff}
use fleetd.Table.{find}
use fleetd.Table.Laws.{find-holds}
use fleetd.Model.{DeliveryState, InvocationState, ExecutionCertainty, BindingState}

unfoldable pub delivery_state_name : DeliveryState → String
delivery_state_name DeliveryState.pending = "pending"
delivery_state_name DeliveryState.leased = "leased"
delivery_state_name DeliveryState.blocked = "blocked"
delivery_state_name DeliveryState.acknowledged = "acknowledged"
delivery_state_name DeliveryState.dead = "dead"

abbrev pub all_delivery_states : List DeliveryState
all_delivery_states =
    DeliveryState.pending ∷ DeliveryState.leased ∷ DeliveryState.blocked
    ∷ DeliveryState.acknowledged ∷ DeliveryState.dead ∷ []

unfoldable pub parse_delivery_state : String → Option DeliveryState
unfolding delivery_state_name find
parse_delivery_state value = find (λ s. str_eq (delivery_state_name s) value) all_delivery_states

unfoldable pub invocation_state_name : InvocationState → String
invocation_state_name InvocationState.reserved = "reserved"
invocation_state_name InvocationState.dispatch_armed = "dispatch_armed"
invocation_state_name InvocationState.terminal = "terminal"

abbrev pub all_invocation_states : List InvocationState
all_invocation_states =
    InvocationState.reserved ∷ InvocationState.dispatch_armed ∷ InvocationState.terminal ∷ []

unfoldable pub parse_invocation_state : String → Option InvocationState
unfolding invocation_state_name find
parse_invocation_state value =
    find (λ s. str_eq (invocation_state_name s) value) all_invocation_states

unfoldable pub certainty_name : ExecutionCertainty → String
certainty_name ExecutionCertainty.not_started = "not_started"
certainty_name ExecutionCertainty.outcome_known = "outcome_known"
certainty_name ExecutionCertainty.outcome_unknown = "outcome_unknown"

abbrev pub all_certainties : List ExecutionCertainty
all_certainties =
    ExecutionCertainty.not_started ∷ ExecutionCertainty.outcome_known
    ∷ ExecutionCertainty.outcome_unknown ∷ []

unfoldable pub parse_certainty : String → Option ExecutionCertainty
unfolding certainty_name find
parse_certainty value = find (λ s. str_eq (certainty_name s) value) all_certainties

unfoldable pub binding_state_name : BindingState → String
binding_state_name BindingState.opening = "opening"
binding_state_name BindingState.ready = "ready"
binding_state_name BindingState.active = "active"
binding_state_name BindingState.uncertain = "uncertain"
binding_state_name BindingState.retired = "retired"

abbrev pub all_binding_states : List BindingState
all_binding_states =
    BindingState.opening ∷ BindingState.ready ∷ BindingState.active ∷ BindingState.uncertain
    ∷ BindingState.retired ∷ []

unfoldable pub parse_binding_state : String → Option BindingState
unfolding binding_state_name find
parse_binding_state value = find (λ s. str_eq (binding_state_name s) value) all_binding_states

-- A parser over a list of all states inverts their names, if it reads each name back.
parse-name {ℓ} :
    {A : Type ℓ} (name : A → String) (all : List A)
    → ((a : A) → find (λ s. str_eq (name s) (name a)) all ≡ some a)
    → (value : String) (a : A) → (find (λ s. str_eq (name s) value) all ≡ some a) ↔ (name a ≡ value)
parse-name name all back value a = (
  (λ h. (str_eq_iff (name a) value).0 (find-holds (λ s. str_eq (name s) value) all a h)),
  (λ e. subst (λ v. find (λ s. str_eq (name s) v) all ≡ some a) e (back a)),
)

delivery_state_back :
    (s : DeliveryState)
    → find (λ t. str_eq (delivery_state_name t) (delivery_state_name s)) all_delivery_states
      ≡ some s
unfolding delivery_state_name find
delivery_state_back DeliveryState.pending = refl
delivery_state_back DeliveryState.leased = refl
delivery_state_back DeliveryState.blocked = refl
delivery_state_back DeliveryState.acknowledged = refl
delivery_state_back DeliveryState.dead = refl

-- A text parses to a delivery state exactly when it is that state's stored name.
pub parse_delivery_state-name :
    (value : String) (s : DeliveryState)
    → (parse_delivery_state value ≡ some s) ↔ (delivery_state_name s ≡ value)
unfolding parse_delivery_state
parse_delivery_state-name = parse-name delivery_state_name all_delivery_states delivery_state_back

invocation_state_back :
    (s : InvocationState)
    → find (λ t. str_eq (invocation_state_name t) (invocation_state_name s)) all_invocation_states
      ≡ some s
unfolding invocation_state_name find
invocation_state_back InvocationState.reserved = refl
invocation_state_back InvocationState.dispatch_armed = refl
invocation_state_back InvocationState.terminal = refl

-- A text parses to an invocation state exactly when it is that state's stored name.
pub parse_invocation_state-name :
    (value : String) (s : InvocationState)
    → (parse_invocation_state value ≡ some s) ↔ (invocation_state_name s ≡ value)
unfolding parse_invocation_state
parse_invocation_state-name =
    parse-name invocation_state_name all_invocation_states invocation_state_back

certainty_back :
    (s : ExecutionCertainty)
    → find (λ t. str_eq (certainty_name t) (certainty_name s)) all_certainties ≡ some s
unfolding certainty_name find
certainty_back ExecutionCertainty.not_started = refl
certainty_back ExecutionCertainty.outcome_known = refl
certainty_back ExecutionCertainty.outcome_unknown = refl

-- A text parses to an execution certainty exactly when it is that certainty's stored name.
pub parse_certainty-name :
    (value : String) (s : ExecutionCertainty)
    → (parse_certainty value ≡ some s) ↔ (certainty_name s ≡ value)
unfolding parse_certainty
parse_certainty-name = parse-name certainty_name all_certainties certainty_back

binding_state_back :
    (s : BindingState)
    → find (λ t. str_eq (binding_state_name t) (binding_state_name s)) all_binding_states ≡ some s
unfolding binding_state_name find
binding_state_back BindingState.opening = refl
binding_state_back BindingState.ready = refl
binding_state_back BindingState.active = refl
binding_state_back BindingState.uncertain = refl
binding_state_back BindingState.retired = refl

-- A text parses to a session binding state exactly when it is that state's stored name.
pub parse_binding_state-name :
    (value : String) (s : BindingState)
    → (parse_binding_state value ≡ some s) ↔ (binding_state_name s ≡ value)
unfolding parse_binding_state
parse_binding_state-name = parse-name binding_state_name all_binding_states binding_state_back
