-- ===== src/Cea/CallSites/Requeue.antt =====
-- Whether a claimed row may go round again on the receipt it has
-- (src/agent_crew/cea/callsites.py, gate_requeue).
use agent_crew.Common.{
  ℕ, zero, suc, ◌+◌, String, Bool, true, false, not, ◌||◌, if◌then◌else◌, Option, none, some, List,
  [], ◌∷◌, leb, ◌≡◌, ◌↔◌, ◌<◌, ◌≤◌, refl, inl, inr, Bool-cases, Option-cases, arith,
}
use mathlib.Core.Path.{subst}
use agent_crew.Cea.Types.{Receipt, Binding}
use agent_crew.Cea.Matrix.{Outcome}
use agent_crew.Cea.Drift.{Field, drifted_fields}
use agent_crew.Cea.Validator.Inputs.{CurrentInputs}
use agent_crew.Cea.Store.Receipts.{is_terminal}
use agent_crew.Cea.CallSites.{Config, enforcing, is_proceed}

-- the keys of REQUEUE_CALL_SITES; another path raises KeyError
pub data RequeuePath : Type 0 where
  requeue requeue_dispatcher_claim defer_push_delivery defer_provider_capacity : RequeuePath
  defer_prep_retry resume_codex_quota reset_stale_to_pending : RequeuePath

-- RequeueOutcome, without the text of the reason
pub record RequeueOutcome : Type 0 where
  pub path : RequeuePath
  pub receipt_id : String
  pub outcome : Outcome
  pub attempt : Option ℕ
  pub changed_fields : List Field
  pub proceed : Bool
  pub enforced : Bool

-- `answer`
abbrev answer : RequeuePath → String → Bool → Outcome → Option ℕ → List Field → RequeueOutcome
answer path rid enforce outcome attempt changed = record {
  path = path;
  receipt_id = rid;
  outcome = outcome;
  attempt = attempt;
  changed_fields = changed;
  proceed = is_proceed outcome || not enforce;
  enforced = enforce;
}

abbrev is_empty_list {ℓ} : {A : Type ℓ} → List A → Bool
is_empty_list [] = true
is_empty_list (_ ∷ _) = false

-- `int(x or 1)`
abbrev pub at_least_one : ℕ → ℕ
at_least_one zero = 1
at_least_one (suc n) = suc n

-- the answer to a known B′
unfoldable pub requeue_on : RequeuePath → Bool → Receipt → Binding → RequeueOutcome
unfolding drifted_fields
requeue_on path enforce r now =
    let changed = drifted_fields r.binding now in
    let attempt = at_least_one r.attempt in
    if not (is_empty_list changed)
    then answer path r.receipt_id enforce Outcome.re_admit none changed
    else if leb (at_least_one r.max_attempts) attempt
    then answer path r.receipt_id enforce Outcome.re_admit (some attempt) []
    else answer path r.receipt_id enforce Outcome.proceed (some (attempt + 1)) []

-- `gate_requeue`
unfoldable pub gate_requeue : Option Receipt → RequeuePath → CurrentInputs → Config → RequeueOutcome
unfolding requeue_on enforcing
gate_requeue none path cur config = answer path "" (enforcing config none) Outcome.block none []
gate_requeue (some r) path cur config =
    let enforce = enforcing config none in
    if is_terminal r.state
    then answer path r.receipt_id enforce Outcome.re_admit none []
    else elim cur.binding [
      | none ↦ answer path r.receipt_id enforce Outcome.held none []
      | some b ↦
          if is_empty_list cur.unavailable_inputs
          then requeue_on path enforce r b
          else answer path r.receipt_id enforce Outcome.held none []
    ]

-- what a row's receipt needs to be reused
pub Reusable : Receipt → CurrentInputs → Type 0
Reusable r cur =
    (b : Binding) × (is_terminal r.state ≡ false)
    × (cur.binding ≡ some b)
    × (cur.unavailable_inputs ≡ [])
    × (drifted_fields r.binding b ≡ [])
    × (at_least_one r.attempt < at_least_one r.max_attempts)

leb_iff : (a b : ℕ) → (leb a b ≡ true) ↔ (a ≤ b)
leb_iff a b = ground arith

empty_of : {A : Type 0} (xs : List A) → is_empty_list xs ≡ true → xs ≡ []
empty_of [] h = refl
empty_of (x ∷ xs) h = absurd (ground arith)

requeue_on-proceed :
    (path : RequeuePath) (enforce : Bool) (r : Receipt) (b : Binding)
    → (requeue_on path enforce r b).outcome ≡ Outcome.proceed
    → (drifted_fields r.binding b ≡ []) × (at_least_one r.attempt < at_least_one r.max_attempts)
unfolding requeue_on
requeue_on-proceed path enforce r b h =
    elim (Bool-cases (is_empty_list (drifted_fields r.binding b))) [
      | inl e ↦ elim (Bool-cases (leb (at_least_one r.max_attempts) (at_least_one r.attempt))) [
        | inl spent ↦ absurd (ground arith)
        | inr left ↦ (empty_of (drifted_fields r.binding b) e, ground arith)
      ]
      | inr m ↦ absurd (ground arith)
    ]

reused :
    (r : Receipt) (path : RequeuePath) (cur : CurrentInputs) (config : Config)
    → (gate_requeue (some r) path cur config).outcome ≡ Outcome.proceed
    → Reusable r cur
unfolding gate_requeue Reusable
reused r path cur config h = elim (Bool-cases (is_terminal r.state)) [
  | inl t ↦ absurd (ground arith)
  | inr l ↦ elim (Option-cases cur.binding) [
    | inl unbound ↦ absurd (ground arith)
    | inr (b, found) ↦ elim (Bool-cases (is_empty_list cur.unavailable_inputs)) [
      | inl e ↦
          let (same, left) = requeue_on-proceed path (enforcing config none) r b (ground arith) in
          (b, l, found, empty_of cur.unavailable_inputs e, same, left)
      | inr m ↦ absurd (ground arith)
    ]
  ]
]

requeue_on-reuses :
    (path : RequeuePath) (enforce : Bool) (r : Receipt) (b : Binding)
    → drifted_fields r.binding b ≡ []
    → at_least_one r.attempt < at_least_one r.max_attempts
    → (requeue_on path enforce r b).outcome ≡ Outcome.proceed
unfolding requeue_on
requeue_on-reuses path enforce r b same left =
    let more : leb (at_least_one r.max_attempts) (at_least_one r.attempt) ≡ false = ground arith in
    rw (same, more) refl

reuses :
    (r : Receipt) (path : RequeuePath) (cur : CurrentInputs) (config : Config)
    → Reusable r cur
    → (gate_requeue (some r) path cur config).outcome ≡ Outcome.proceed
unfolding gate_requeue Reusable
reuses r path cur config (b, l, found, none_missing, same, left) =
    rw (l, found, none_missing) (requeue_on-reuses path (enforcing config none) r b same left)

-- A row goes round again on its receipt exactly when the receipt is not terminal, B′ was computed
-- and shows no drift, and an attempt is left.
pub gate_requeue-proceed_iff :
    (found : Option Receipt) (path : RequeuePath) (cur : CurrentInputs) (config : Config)
    → ((gate_requeue found path cur config).outcome ≡ Outcome.proceed)
      ↔ ((r : Receipt) × (found ≡ some r) × Reusable r cur)
unfolding gate_requeue
gate_requeue-proceed_iff none path cur config =
    (λ h. absurd (ground arith), λ (r, e, u). absurd (ground arith))
gate_requeue-proceed_iff (some r) path cur config = (
  λ h. (r, refl, reused r path cur config h),
  λ (q, e, u).
      let m : q ≡ r = ground arith in reuses r path cur config (subst (λ x. Reusable x cur) m u),
)

-- the answer is about the receipt asked about
requeue_on-receipt_id :
    (path : RequeuePath) (enforce : Bool) (r : Receipt) (b : Binding)
    → (requeue_on path enforce r b).receipt_id ≡ r.receipt_id
unfolding requeue_on
requeue_on-receipt_id path enforce r b =
    elim (Bool-cases (is_empty_list (drifted_fields r.binding b))) [
      | inr m ↦ rw m refl
      | inl e ↦ elim (Bool-cases (leb (at_least_one r.max_attempts) (at_least_one r.attempt))) [
        | inl y ↦ rw (e, y) refl
        | inr n ↦ rw (e, n) refl
      ]
    ]

pub gate_requeue-receipt_id :
    (r : Receipt) (path : RequeuePath) (cur : CurrentInputs) (config : Config)
    → (gate_requeue (some r) path cur config).receipt_id ≡ r.receipt_id
unfolding gate_requeue
gate_requeue-receipt_id r path cur config = elim (Bool-cases (is_terminal r.state)) [
  | inl y ↦ rw y refl
  | inr n ↦ elim (Option-cases cur.binding) [
    | inl missing ↦ rw (n, missing) refl
    | inr (b, found) ↦ elim (Bool-cases (is_empty_list cur.unavailable_inputs)) [
      | inl e ↦ rw (n, found, e) (requeue_on-receipt_id path (enforcing config none) r b)
      | inr m ↦ rw (n, found, m) refl
    ]
  ]
]
