-- ===== src/Queue/Tasks/Claims/Ordering.antt =====
-- A dequeue takes the first row in the order of the queue (src/agent_crew/queue.py, dequeue, ORDER BY
-- priority ASC, created_at ASC LIMIT 1).
use agent_crew.Common.{
  ℕ, String, Bool, true, false, ◌≡◌, refl, sym, ◌∙◌, ◌&&◌, Option, none, some, List, [], ◌∷◌, inl,
  inr, Bool-cases, Option-cases, arith, is_empty, any, ◌==◌, nat_eq, string_eq, ◌⊎◌,
}
use mathlib.Core.Path.{subst}
use agent_crew.Queue.Tasks.Row.{Task}
use agent_crew.Queue.Tasks.Dequeue.Selection.{
  Request, Choice, chosen, choose, choose_for_agent, choose_by_role, choose_of_type, overridden,
  by_role, before, first_by, or_next, role_to_type,
}

-- a row that answers the condition and stands before another
abbrev pub precedes : (Task → Bool) → Task → List Task → Bool
precedes p t ts = any (λ u. p u && before u t) ts

later_than : (w v u : Task) → before w u ≡ true → before v u ≡ false → before w v ≡ true
later_than w v u h k = ground arith

one_way : (v u : Task) → before v u ≡ true → before u v ≡ false
one_way v u h = ground arith

not_before_self : (u : Task) → before u u ≡ false
not_before_self u = ground arith

-- if nothing precedes `v`, nothing precedes what `v` does not stand before
precedes_mono :
    (p : Task → Bool) (u v : Task) (ts : List Task)
    → before v u ≡ false
    → precedes p v ts ≡ false
    → precedes p u ts ≡ false
precedes_mono p u v [] k h = refl
precedes_mono p u v (w ∷ ws) k h = elim (Bool-cases (p w && before w u)) [
  | inl y ↦ absurd (let l = later_than w v u (ground arith) k in ground arith)
  | inr n ↦ rw n (precedes_mono p u v ws k (ground arith))
]

precedes-none :
    (p : Task → Bool) (u : Task) (ts : List Task) → first_by p ts ≡ none → precedes p u ts ≡ false
unfolding first_by
precedes-none p u [] e = refl
precedes-none p u (w ∷ ws) e = elim (Bool-cases (p w)) [
  | inl y ↦ absurd (ground arith)
  | inr n ↦ rw n (precedes-none p u ws (ground arith))
]

-- no row that answers the condition stands before the one chosen, which answers it itself
pub first_by-first :
    (p : Task → Bool) (ts : List Task) {t : Task}
    → first_by p ts ≡ some t
    → (p t ≡ true) × (precedes p t ts ≡ false)
unfolding first_by
first_by-first p [] e = absurd (ground arith)
first_by-first p (u ∷ us) {t = t} e = elim (Bool-cases (p u)) [
  | inr n ↦ let (holds, first) = first_by-first p us {t = t} (ground arith) in (holds, rw n first)
  | inl y ↦ elim (Option-cases (first_by p us)) [
    | inl nothing ↦
        let same : u ≡ t = ground arith in
        subst (λ x. (p x ≡ true) × (precedes p x (u ∷ us) ≡ false)) same
          (y, rw (y, not_before_self u) (precedes-none p u us nothing))
    | inr (v, rest) ↦
        let (holds, first) = first_by-first p us {t = v} rest in
        elim (Bool-cases (before v u)) [
          | inl sooner_v ↦
              let same : v ≡ t = ground arith in
              subst (λ x. (p x ≡ true) × (precedes p x (u ∷ us) ≡ false)) same
                (holds, rw (y, one_way v u sooner_v) first)
          | inr later_v ↦
              let same : u ≡ t = ground arith in
              subst (λ x. (p x ≡ true) × (precedes p x (u ∷ us) ≡ false)) same
                (y, rw (y, not_before_self u) (precedes_mono p u v us later_v first))
        ]
  ]
]

-- the row answers the condition, and no row that does stands before it
abbrev pub First : (Task → Bool) → Task → List Task → Type 0
First p t ts = (p t ≡ true) × (precedes p t ts ≡ false)

chosen_inj : {a b : Option Task} → chosen a ≡ chosen b → a ≡ b
chosen_inj e = ground arith

or_next-cases :
    (o : Option Task) (c : Choice) {t : Task}
    → or_next o c ≡ chosen (some t)
    → (o ≡ some t) ⊎ ((o ≡ none) × (c ≡ chosen (some t)))
or_next-cases none c h = inr (refl, h)
or_next-cases (some u) c h = inl (ground arith)

none-any : (p : Task → Bool) (ts : List Task) → first_by p ts ≡ none → any p ts ≡ false
unfolding first_by
none-any p [] e = refl
none-any p (w ∷ ws) e = elim (Bool-cases (p w)) [
  | inl y ↦ absurd (ground arith)
  | inr n ↦ rw n (none-any p ws (ground arith))
]

by_type-choice :
    (req : Request) (ty : String) (now : ℕ) (ts : List Task)
    → is_empty req.role ≡ false
    → role_to_type req.role ≡ some ty
    → choose_by_role req now ts ≡ chosen (first_by (by_role req ty now) ts)
unfolding choose_by_role choose_of_type
by_type-choice req ty now ts r known_type = rw (r, known_type) refl

agent_choice :
    (holds : String → String → Bool) (req : Request) (now : ℕ) (ts : List Task)
    → is_empty req.agent ≡ false
    → (req.agent == "claude_cloud") ≡ false
    → req.independent_review_only ≡ false
    → choose holds req now ts
      ≡ or_next (first_by (overridden req none now) ts) (choose_by_role req now ts)
unfolding choose choose_for_agent
agent_choice holds req now ts a c i = rw (a, c, i) refl

-- A named agent other than claude_cloud, which pulls for a role that has a task type and not for
-- independent reviews only, takes the first row that is routed to it, and only when there is none
-- the first row of the role's type that it may take by role; first in priority and then in age.
pub choose_order :
    (holds : String → String → Bool) (req : Request) (ty : String) (now : ℕ) (ts : List Task)
    (t : Task)
    → is_empty req.agent ≡ false
    → (req.agent == "claude_cloud") ≡ false
    → req.independent_review_only ≡ false
    → is_empty req.role ≡ false
    → role_to_type req.role ≡ some ty
    → choose holds req now ts ≡ chosen (some t)
    → First (overridden req none now) t ts
      ⊎ ((any (overridden req none now) ts ≡ false) × First (by_role req ty now) t ts)
choose_order holds req ty now ts t a c i r known_type h =
    let o = first_by (overridden req none now) ts in
    let picked = sym (agent_choice holds req now ts a c i) ∙ h in
    elim (or_next-cases o (choose_by_role req now ts) {t = t} picked) [
      | inl won ↦ inl (first_by-first (overridden req none now) ts won)
      | inr (nothing, rest) ↦
          let first = sym (by_type-choice req ty now ts r known_type) ∙ rest in
          inr (
            none-any (overridden req none now) ts nothing,
            first_by-first (by_role req ty now) ts (chosen_inj first),
          )
    ]
