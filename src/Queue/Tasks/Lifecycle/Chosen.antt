-- ===== src/Queue/Tasks/Lifecycle/Chosen.antt =====
-- Every row that a dequeue chooses is pending and is not deferred, skipped or a review of the
-- agent's own work (src/agent_crew/queue.py, dequeue, dequeue_discuss_for_agent).
use agent_crew.Common.{
  ℕ, String, Bool, true, false, not, ◌≡◌, ◌&&◌, Option, none, some, List, is_empty, arith, ◌==◌,
  string_eq, if◌then◌else◌,
}
use agent_crew.Queue.Tasks.Row.{Task, task_of}
use agent_crew.Queue.Tasks.Dequeue.Selection.{
  Request, Choice, unknown_role, chosen, open_to, bound_review, overridden, by_role, first_by,
  role_to_type, choose_of_type, choose_by_role, choose_bound, choose_for_agent, choose, or_next,
}
use agent_crew.Queue.Tasks.Lifecycle.Keys.{Keyed, first_by-Keyed}

-- the row that a choice names, if it names one
unfoldable pub Fits : Request → ℕ → List Task → Choice → Type 0
Fits req now ts c =
    (t : Task) → c ≡ chosen (some t) → (open_to req now t ≡ true) × (task_of t.task_id ts ≡ some t)

fst : (a b : Bool) → (a && b) ≡ true → a ≡ true
fst a b h = ground arith

some_of : {a b : Option Task} → chosen a ≡ chosen b → a ≡ b
some_of e = ground arith

module _ (req : Request) (now : ℕ) (ts : List Task) (keyed : Keyed ts) where
  first_by-Fits :
      (p : Task → Bool)
      → ((t : Task) → p t ≡ true → open_to req now t ≡ true)
      → Fits req now ts (chosen (first_by p ts))
  unfolding Fits
  first_by-Fits p implied t e =
      let (holds, found) = first_by-Keyed p ts {t = t} keyed (some_of e) in (implied t holds, found)

  nothing-Fits : Fits req now ts (chosen none)
  unfolding Fits
  nothing-Fits t e = absurd (ground arith)

  unknown-Fits : Fits req now ts unknown_role
  unfolding Fits
  unknown-Fits t e = absurd (ground arith)

  if-Fits :
      (b : Bool) (c d : Choice)
      → Fits req now ts c
      → Fits req now ts d
      → Fits req now ts (if b then c else d)
  if-Fits true c d f g = f
  if-Fits false c d f g = g

  or_next-Fits :
      (o : Option Task) (c : Choice)
      → Fits req now ts (chosen o)
      → Fits req now ts c
      → Fits req now ts (or_next o c)
  or_next-Fits none c f g = g
  or_next-Fits (some t) c f g = f

  choose_of_type-Fits : (ty : Option String) → Fits req now ts (choose_of_type req now ts ty)
  unfolding choose_of_type
  choose_of_type-Fits none = unknown-Fits
  choose_of_type-Fits (some ty) =
      first_by-Fits (by_role req ty now) (λ t h. fst (open_to req now t) _ h)

  choose_by_role-Fits : Fits req now ts (choose_by_role req now ts)
  unfolding choose_by_role
  choose_by_role-Fits =
      if-Fits (not (is_empty req.role)) _ _ (choose_of_type-Fits (role_to_type req.role))
        (if-Fits (is_empty req.agent) _ _ (first_by-Fits (open_to req now) (λ t h. h)) nothing-Fits)

  overridden-Fits :
      (bound : Option String) → Fits req now ts (chosen (first_by (overridden req bound now) ts))
  overridden-Fits bound =
      first_by-Fits (overridden req bound now) (λ t h. fst (open_to req now t) _ h)

  choose_bound-Fits :
      (holds : String → String → Bool) (bound : Option String)
      → Fits req now ts (choose_bound holds req now ts bound)
  unfolding choose_bound
  choose_bound-Fits holds none = choose_by_role-Fits
  choose_bound-Fits holds (some ty) =
      if-Fits (holds req.agent ty) _ _
        (or_next-Fits (first_by (overridden req (some ty) now) ts) (choose_by_role req now ts)
          (overridden-Fits (some ty)) choose_by_role-Fits)
        nothing-Fits

  choose_for_agent-Fits :
      (holds : String → String → Bool) → Fits req now ts (choose_for_agent holds req now ts)
  unfolding choose_for_agent
  choose_for_agent-Fits holds =
      if-Fits (req.agent == "claude_cloud") _ _ (choose_bound-Fits holds (role_to_type req.role)) (
        or_next-Fits (first_by (overridden req none now) ts) (choose_by_role req now ts)
          (overridden-Fits none) choose_by_role-Fits)

  pub choose-Fits : (holds : String → String → Bool) → Fits req now ts (choose holds req now ts)
  unfolding choose
  choose-Fits holds = if-Fits (is_empty req.agent) _ _ choose_by_role-Fits (
      if-Fits req.independent_review_only _ _
        (if-Fits (req.role == "reviewer") _ _
          (first_by-Fits (bound_review req now) (λ t h. fst (open_to req now t) _ h)) nothing-Fits)
        (choose_for_agent-Fits holds))
