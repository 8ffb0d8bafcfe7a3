-- ===== src/Cea/Drift/Fields.antt =====
-- The list of changed fields holds exactly the fields that moved
-- (src/agent_crew/cea/validator.py, _drifted_fields).
use agent_crew.Common.{
  Bool, true, false, ◌≡◌, refl, ◌∙◌, inl, inr, List, [], ◌∷◌, if◌then◌else◌, Bool-cases, arith, ap,
  ◌==◌, nat_eq, eq_of_beq,
}
use agent_crew.Cea.Types.{Binding}
use agent_crew.Cea.Drift.{
  Field, policy_generation, fields, field_rank, moved, select, drifted_fields, has_field,
}

field_of_rank : (x f : Field) → field_rank x ≡ field_rank f → x ≡ f
field_of_rank x f h = ground arith

-- Selection keeps a field exactly when the test passes on it.
has-select :
    (f : Field) (p : Field → Bool) (xs : List Field)
    → has_field f (select p xs) ≡ (if has_field f xs then p f else false)
unfolding has_field select
has-select f p [] = refl
has-select f p (x ∷ xs) = elim (Bool-cases (field_rank x == field_rank f)) [
  | inl same ↦
      let e = ap p (field_of_rank x f (eq_of_beq (field_rank x) (field_rank f) same)) in
      ground (arith, has-select f p xs)
  | inr other ↦ ground (arith, has-select f p xs)
]

has-fields : (f : Field) → has_field f fields ≡ true
unfolding has_field
has-fields policy_generation = refl
has-fields _ = refl

pub has-drifted_fields :
    (was now : Binding) (f : Field) → has_field f (drifted_fields was now) ≡ moved was now f
unfolding drifted_fields
has-drifted_fields was now f =
    has-select f (moved was now) fields
    ∙ ap (λ b. if b then moved was now f else false) (has-fields f)
