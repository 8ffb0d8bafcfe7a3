-- ===== src/Cea/CallSites/Enforcement.antt =====
-- What the rollout mode does to a verdict (src/agent_crew/cea/callsites.py, _gate and enforcing).
use agent_crew.Common.{
  String, true, false, not, ◌≡◌, ◌↔◌, ◌⊎◌, inl, inr, refl, Option, none, some, List, elem, arith,
  string_eq, Bool-cases,
}
use agent_crew.Cea.Types.{Receipt}
use agent_crew.Cea.Matrix.{Point, Outcome}
use agent_crew.Cea.Validator.Inputs.{ValidationResult}
use agent_crew.Cea.CallSites.{Mode, Config, gate, enforcing, verdict_code, is_proceed}

-- what lets work go on at a gate
pub Waved : ValidationResult → Config → Receipt → Type 0
Waved v config r =
    (v.outcome ≡ Outcome.proceed)
    ⊎ (config.mode ≡ Mode.off)
    ⊎ ((codes : List String) × (config.enforce_codes ≡ some codes)
        × (elem (verdict_code v r) codes ≡ false))

is_proceed_iff : (o : Outcome) → (is_proceed o ≡ true) ↔ (o ≡ Outcome.proceed)
is_proceed_iff o = ground arith

-- the two ways in which a verdict that is not PROCEED is advisory
advisory_iff :
    (m : Mode) (enforce_codes : Option (List String)) (code : String)
    → (not (enforcing (record { mode = m; enforce_codes = enforce_codes }) (some code)) ≡ true) ↔ (
        (m ≡ Mode.off)
        ⊎ ((codes : List String) × (enforce_codes ≡ some codes) × (elem code codes ≡ false)))
unfolding enforcing
advisory_iff Mode.off codes code = (λ _. inl refl, λ _. refl)
advisory_iff Mode.enforce none code = (λ h. absurd (ground arith), λ h. absurd (ground arith))
advisory_iff Mode.enforce (some codes) code =
    (λ h. inr (codes, refl, ground arith), λ h. ground arith)
advisory_iff Mode.test none code = (λ h. absurd (ground arith), λ h. absurd (ground arith))
advisory_iff Mode.test (some codes) code = (λ h. inr (codes, refl, ground arith), λ h. ground arith)

-- A gate lets the work go on exactly when the verdict is PROCEED, the mode is off, or the mode has
-- a list of enforced codes and the verdict's code is not on it.
pub gate-proceed_iff :
    (point : Point) (v : ValidationResult) (config : Config) (r : Receipt)
    → ((gate point v config r).proceed ≡ true) ↔ Waved v config r
unfolding gate Waved
gate-proceed_iff point v config r = elim (Bool-cases (is_proceed v.outcome)) [
  | inl y ↦ (λ _. inl ((is_proceed_iff v.outcome).0 y), λ _. rw y refl)
  | inr n ↦
      let (to, from) = advisory_iff config.mode config.enforce_codes (verdict_code v r) in
      (
        λ h. inr (to (ground arith)),
        λ w. elim w [
          | inl e ↦ absurd (let p = (is_proceed_iff v.outcome).1 e in ground arith)
          | inr a ↦ rw n (from a)
        ],
      )
]
