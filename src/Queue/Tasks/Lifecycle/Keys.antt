-- ===== src/Queue/Tasks/Lifecycle/Keys.antt =====
-- task_id is the primary key of tasks (src/agent_crew/queue.py): the row that a SELECT chooses is the
-- row that its id finds.
use agent_crew.Common.{
  String, Bool, true, false, ◌≡◌, refl, sym, ap, ◌∙◌, if◌then◌else◌, some, List, [], ◌∷◌, inl, inr,
  Bool-cases, Option-cases, elem, find_where, beq_refl, eq_of_beq, string_eq, ◌==◌, arith, ◌⊎◌,
}
use mathlib.Core.Path.{subst}
use agent_crew.Queue.Tasks.Row.{Task, task_of}
use agent_crew.Queue.Tasks.Dequeue.Selection.{first_by, before, sooner}
use agent_crew.Queue.Tasks.Lifecycle.{ids}

unfoldable pub distinct : List String → Bool
distinct [] = true
distinct (i ∷ is) = let rest = distinct is in if elem i is then false else rest

abbrev pub Keyed : List Task → Type 0
Keyed ts = distinct (ids ts) ≡ true

pub listed :
    (i : String) (ts : List Task) {t : Task} → task_of i ts ≡ some t → elem i (ids ts) ≡ true
unfolding task_of ids find_where
listed i [] found = absurd (ground arith)
listed i (u ∷ us) {t = t} found = elim (Bool-cases (u.task_id == i)) [
  | inl y ↦ rw y refl
  | inr n ↦ rw n (listed i us {t = t} (ground arith))
]

-- the choice is the first row or the choice among the others
pub first_by-cons :
    (p : Task → Bool) (u : Task) (us : List Task) {t : Task}
    → first_by p (u ∷ us) ≡ some t
    → (p u ≡ true) × (u ≡ t) ⊎ (first_by p us ≡ some t)
unfolding first_by
first_by-cons p u us {t = t} e = elim (Bool-cases (p u)) [
  | inr n ↦ inr (ground arith)
  | inl y ↦ elim (Option-cases (first_by p us)) [
    | inl nothing ↦ inl (y, ground arith)
    | inr (v, rest) ↦ elim (Bool-cases (before v u)) [
      | inl sooner ↦ inr (ground arith)
      | inr later ↦ inl (y, ground arith)
    ]
  ]
]

head_found : (u : Task) (us : List Task) → task_of u.task_id (u ∷ us) ≡ some u
unfolding task_of find_where
head_found u us = rw (beq_refl u.task_id) refl

-- the row that `first_by` chooses answers the condition and is found by its id
pub first_by-Keyed :
    (p : Task → Bool) (ts : List Task) {t : Task}
    → Keyed ts
    → first_by p ts ≡ some t
    → (p t ≡ true) × (task_of t.task_id ts ≡ some t)
unfolding first_by distinct ids task_of find_where
first_by-Keyed p [] k e = absurd (ground arith)
first_by-Keyed p (u ∷ us) {t = t} k e = elim (first_by-cons p u us {t = t} e) [
  | inl (y, same) ↦
      (ap p (sym same) ∙ y, subst (λ x. task_of x.task_id (u ∷ us) ≡ some x) same (head_found u us))
  | inr chosen ↦
      let fresh : elem u.task_id (ids us) ≡ false = ground arith in
      let (holds, found) = first_by-Keyed p us {t = t} (ground arith) chosen in
      (
        holds,
        elim (Bool-cases (u.task_id == t.task_id)) [
          | inl y ↦
              let l = listed t.task_id us found in
              let s = ap (λ i. elem i (ids us)) (eq_of_beq u.task_id t.task_id y) in
              absurd (let c = sym l ∙ (sym s ∙ fresh) in ground arith)
          | inr n ↦ rw n found
        ],
      )
]
