-- ===== src/Queue/Tasks/Dequeue/Selection.antt =====
-- The SELECTs of a dequeue (src/agent_crew/queue.py, dequeue, dequeue_discuss_for_agent,
-- _ROLE_TO_TYPE; src/agent_crew/role_mapping.py, provider_family, ROLE_BOUND_PROVIDERS).
use agent_crew.Common.{
  ℕ, String, Bool, true, false, not, ◌&&◌, ◌||◌, if◌then◌else◌, Option, none, some, List, [], ◌∷◌,
  ◌==◌, nat_eq, string_eq, option_eq, ltb, leb, elem, is_empty, is_some, codes, strip, lower,
  is_prefix, list_beq,
}
use agent_crew.Queue.Tasks.Row.{Task, pending, same_status, or_zero, nonempty}

-- the arguments of `dequeue`
pub record Request : Type 0 where
  pub agent : String
  pub role : String
  pub claimed_via : String
  pub claim_source : String
  pub skip_task_ids : List String
  pub skip_deferred : Bool
  pub override_task_type : Option String
  pub independent_review_only : Bool

-- `_ROLE_TO_TYPE.get(role)`
unfoldable pub role_to_type : String → Option String
role_to_type role =
    if role == "coder" || role == "implementer"
    then some "implement"
    else if role == "reviewer"
    then some "review"
    else if role == "tester"
    then some "test"
    else if role == "panel"
    then some "discuss"
    else none

abbrev spells : List ℕ → String → Bool
spells name s = list_beq name (codes s)

abbrev starts : List ℕ → String → Bool
starts name s = is_prefix (codes s) name

-- `provider_family`
unfoldable pub provider_family : String → List ℕ
unfolding strip lower is_prefix
provider_family agent =
    let name = lower (strip (codes agent)) in
    if spells name "claude" || (starts name "claude-" || starts name "claude_")
    then codes "claude"
    else if starts name "codex"
    then codes "codex"
    else if starts name "gemini"
    then codes "gemini"
    else if spells name "agy" || (starts name "agy-" || starts name "agy_")
    then codes "gemini"
    else name

-- ORDER BY priority ASC, created_at ASC
abbrev pub before : Task → Task → Bool
before a b =
    ltb a.priority b.priority || (a.priority == b.priority && ltb a.created_at b.created_at)

abbrev pub sooner : Task → Option Task → Task
sooner t none = t
sooner t (some u) = if before u t then u else t

-- SELECT * FROM tasks WHERE ... ORDER BY priority ASC, created_at ASC LIMIT 1
unfoldable pub first_by : (Task → Bool) → List Task → Option Task
first_by p [] = none
first_by p (t ∷ ts) = let rest = first_by p ts in if p t then some (sooner t rest) else rest

abbrev claimant_deferral : Option String → Bool
claimant_deferral reason = reason == some "codex_capacity" || reason == some "prep_transient"

-- `_defer_sql`
unfoldable pub ready : (skip_deferred : Bool) → ℕ → Task → Bool
ready skip_deferred now t =
    let not_before = or_zero t.context.push_not_before in
    if skip_deferred
    then leb not_before now
    else not (claimant_deferral t.context.push_refusal_reason && ltb now not_before)

abbrev of_type : String → Task → Bool
of_type task_type t = t.task_type == task_type

-- a review of what the agent's own provider family implemented
unfoldable pub own_review : String → Task → Bool
unfolding provider_family
own_review agent t = elim (nonempty t.context.implementer_agent) [
  | none ↦ false
  | some impl ↦ of_type "review" t && list_beq (provider_family impl) (provider_family agent)
]

-- what every SELECT of `dequeue` asks for: status, `_defer_sql`, `skip_sql`
unfoldable pub open_to : Request → ℕ → Task → Bool
unfolding ready own_review
open_to req now t =
    same_status t.status pending
    && (ready req.skip_deferred now t
        && (not (elem t.task_id req.skip_task_ids)
            && not (not (is_empty req.agent) && own_review req.agent t)))

abbrev of_type? : Option String → Task → Bool
of_type? none t = true
of_type? (some task_type) t = of_type task_type t

-- the SELECT under `independent_review_only`
abbrev pub bound_review : Request → ℕ → Task → Bool
bound_review req now t =
    open_to req now t
    && (of_type "review" t
        && (t.context.agent_override == some req.agent
            && t.context.bound_provider == some req.agent))

-- stage 1
abbrev pub overridden : Request → (bound_type : Option String) → ℕ → Task → Bool
overridden req bound_type now t =
    open_to req now t
    && (t.context.agent_override == some req.agent
        && (of_type? bound_type t && of_type? (nonempty req.override_task_type) t))

-- stage 2
abbrev pub by_role : Request → (task_type : String) → ℕ → Task → Bool
by_role req task_type now t =
    open_to req now t
    && (of_type task_type t
        && (is_empty req.agent
            || (not (is_some t.context.agent_override)
                || t.context.agent_override == some req.agent)))

-- no such role, or the row chosen
pub data Choice : Type 0 where
  unknown_role : Choice
  chosen : Option Task → Choice

-- stage 2, for the type of the role
unfoldable pub choose_of_type : Request → ℕ → List Task → (task_type : Option String) → Choice
unfolding first_by open_to
choose_of_type req now ts none = unknown_role
choose_of_type req now ts (some task_type) = chosen (first_by (by_role req task_type now) ts)

-- stages 2 and 3
unfoldable pub choose_by_role : Request → ℕ → List Task → Choice
unfolding first_by role_to_type open_to choose_of_type
choose_by_role req now ts =
    if not (is_empty req.role)
    then choose_of_type req now ts (role_to_type req.role)
    else if is_empty req.agent
    then chosen (first_by (open_to req now) ts)
    else chosen none

abbrev pub or_next : Option Task → Choice → Choice
or_next none next = next
or_next (some t) next = chosen (some t)

-- stage 1 for a role-bound agent, whose role has this type
unfoldable pub choose_bound :
    (holds : String → String → Bool)
    → Request
    → ℕ
    → List Task
    → (bound_type : Option String) → Choice
unfolding first_by choose_by_role open_to
choose_bound holds req now ts none = choose_by_role req now ts
choose_bound holds req now ts (some bound_type) =
    if holds req.agent bound_type
    then or_next (first_by (overridden req (some bound_type) now) ts) (choose_by_role req now ts)
    else chosen none

-- stage 1 for an agent, then the others
unfoldable pub choose_for_agent :
    (holds : String → String → Bool) → Request → ℕ → List Task → Choice
unfolding first_by role_to_type choose_by_role open_to choose_bound
choose_for_agent holds req now ts =
    if req.agent == "claude_cloud"
    then choose_bound holds req now ts (role_to_type req.role)
    else or_next (first_by (overridden req none now) ts) (choose_by_role req now ts)

-- the row that `dequeue` takes
unfoldable pub choose : (holds : String → String → Bool) → Request → ℕ → List Task → Choice
unfolding first_by choose_by_role choose_for_agent
choose holds req now ts =
    if is_empty req.agent
    then choose_by_role req now ts
    else if req.independent_review_only
    then if req.role == "reviewer" then chosen (first_by (bound_review req now) ts) else chosen none
    else choose_for_agent holds req now ts

-- a row that `dequeue_discuss_for_agent` may take
unfoldable pub discuss_open : (agent : String) → (skip_deferred : Bool) → ℕ → Task → Bool
discuss_open agent skip_deferred now t =
    let deferred = skip_deferred || claimant_deferral t.context.push_refusal_reason in
    same_status t.status pending
    && (of_type "discuss" t
        && (not (deferred && ltb now (or_zero t.context.push_not_before))
            && t.context.agent == some agent))

-- the row that `dequeue_discuss_for_agent` takes
unfoldable pub choose_discuss : (agent : String) → Bool → ℕ → List Task → Option Task
unfolding first_by discuss_open
choose_discuss agent skip_deferred now ts = first_by (discuss_open agent skip_deferred now) ts
