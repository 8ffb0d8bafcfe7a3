-- ===== src/Queue/External/Reservation.antt =====
-- A remote mutation is reserved only while the runtime is ACTIVE, and once
-- (src/agent_crew/queue.py, external_op_reserve).
use agent_crew.Common.{
  ℕ, ◌+◌, ◌≤◌, String, Bool, true, false, if◌then◌else◌, Option, none, List, [], ◌∷◌, ◌==◌, nat_eq,
  string_eq, ◌≡◌, ◌≢◌, ◌↔◌, refl, sym, ap, ◌∙◌, inl, inr, arith, Bool-cases, count_where,
  count-update_same,
}
use text.Mathlib.TextEquality.{eq_iff}
use agent_crew.Cea.Types.{RuntimeState, active, draining, quarantined, stopped, same_state}
use agent_crew.Queue.Runtime.Row.{read_stop_row}
use agent_crew.Queue.Runtime.Moves.{Signal, disarmed, armed, unreadable, reconcile_pause_signal}
use agent_crew.Queue.Runtime.Loosening.{state}
use agent_crew.Queue.Runtime.Gates.{acted-armed}
use agent_crew.Queue.External.{
  has_key, Admission, stop_blocked, admitted, Tables, insert_op, external_op_reserve,
  external_op_mark, external_op_reset_failed_head,
}

abbrev pub is_admitted : Admission → Bool
is_admitted (stop_blocked _) = false
is_admitted (admitted _ _) = true

abbrev pub is_reserved : Admission → Bool
is_reserved (stop_blocked _) = false
is_reserved (admitted _ reserved) = reserved

active_of_same : (s : RuntimeState) → (same_state s active ≡ true) ↔ (s ≡ active)
active_of_same active = (λ h. refl, λ h. refl)
active_of_same draining = (λ h. absurd (ground arith), λ h. ap (λ s. same_state s active) h)
active_of_same quarantined = (λ h. absurd (ground arith), λ h. ap (λ s. same_state s active) h)
active_of_same stopped = (λ h. absurd (ground arith), λ h. ap (λ s. same_state s active) h)

-- A remote mutation is admitted exactly when pause.json is read and disarmed and the runtime is
-- ACTIVE.
pub admitted_iff :
    (key : String) (pr : Option ℕ) (signal : Signal) (now : ℕ) (t : Tables)
    → (is_admitted (external_op_reserve key pr signal now t).1 ≡ true)
      ↔ ((signal ≡ disarmed) × (state t.runtime ≡ active))
unfolding external_op_reserve reconcile_pause_signal read_stop_row insert_op
admitted_iff key pr disarmed now t = elim (Bool-cases (same_state (state t.runtime) active)) [
  | inl runs ↦ (
    λ h. (refl, (active_of_same (state t.runtime)).0 runs),
    λ h. rw (external_op_reserve, runs) refl,
  )
  | inr shut ↦ (
    λ h. absurd (let g = rw (external_op_reserve, shut) at h in cc),
    λ (s, a). absurd (let runs = (active_of_same (state t.runtime)).1 a in cc),
  )
]
admitted_iff key pr unreadable now t = (λ h. cc, λ (s, a). cc)
admitted_iff key pr armed now t = (
  λ h. absurd (let g = rw (external_op_reserve, acted-armed now t.runtime) at h in cc),
  λ (s, a). cc,
)

-- Statements on the two tables.
pub data ExternalStep : Type 0 where
  reserve : (op_key : String) (pr_number : Option ℕ) (signal : Signal) (now : ℕ) → ExternalStep
  mark :
      (op_key phase : String) (last_error : Option String) (inc_attempt : Bool) (now : ℕ)
      → ExternalStep
  reset : (op_key head_sha : String) → ExternalStep

unfoldable pub advance : ExternalStep → Tables → Tables
advance (reserve key pr signal now) t = (external_op_reserve key pr signal now t).0
advance (mark key phase error inc now) t = record t {
  ops = external_op_mark key phase error inc now t.ops;
}
advance (reset key head) t = record t { ops = (external_op_reset_failed_head key head t.ops).0 }

-- Does this statement take a new reservation of the key?
unfoldable pub reserves : String → ExternalStep → Tables → Bool
reserves key (reserve key' pr signal now) t =
    if key' == key then is_reserved (external_op_reserve key' pr signal now t).1 else false
reserves key _ t = false

unfoldable pub times_reserved : String → List ExternalStep → Tables → ℕ
times_reserved key [] t = 0
times_reserved key (s ∷ ss) t =
    (if reserves key s t then 1 else 0) + times_reserved key ss (advance s t)

abbrev Known : String → Tables → Type 0
Known key t = count_where (has_key key) t.ops ≢ 0

advance-Known :
    (key : String) (s : ExternalStep) (t : Tables) → Known key t → Known key (advance s t)
unfolding advance external_op_reserve insert_op external_op_mark external_op_reset_failed_head
    count_where
advance-Known key (reserve key' pr signal now) t h = ground arith
advance-Known key (mark key' phase error inc now) t h =
    λ z. h (sym (count-update_same (has_key key) (has_key key') _ t.ops (λ x. ground arith)) ∙ z)
advance-Known key (reset key' head) t h = ground (
  arith,
  count-update_same (has_key key) (has_key key')
      (λ r. record r { phase = "reserved"; attempt = 0; last_error = none }) t.ops
      (λ x. ground arith),
)

reserves-Known :
    (key : String) (s : ExternalStep) (t : Tables)
    → reserves key s t ≡ true
    → Known key (advance s t)
unfolding reserves advance external_op_reserve insert_op count_where
reserves-Known key (reserve key' pr signal now) t h = ground (arith, eq_iff key' key)
reserves-Known key (mark _ _ _ _ _) t h = cc
reserves-Known key (reset _ _) t h = cc

no_new_reservation :
    (key : String) (s : ExternalStep) (t : Tables) → Known key t → reserves key s t ≡ false
unfolding reserves external_op_reserve insert_op
no_new_reservation key (reserve key' pr signal now) t h = ground (arith, eq_iff key' key)
no_new_reservation key (mark _ _ _ _ _) t h = refl
no_new_reservation key (reset _ _) t h = refl

never_reserved_again :
    (key : String) (ss : List ExternalStep) (t : Tables) → Known key t → times_reserved key ss t ≡ 0
unfolding times_reserved
never_reserved_again key [] t h = refl
never_reserved_again key (s ∷ ss) t h =
    rw (no_new_reservation key s t h)
      (omega (arith, never_reserved_again key ss (advance s t) (advance-Known key s t h)))

-- Over any schedule of reservations, marks and resets, with whatever pause signals, a new
-- reservation of a key is answered at most once.
pub times_reserved-le-one :
    (key : String) (ss : List ExternalStep) (t : Tables) → times_reserved key ss t ≤ 1
unfolding times_reserved
times_reserved-le-one key [] t = omega arith
times_reserved-le-one key (s ∷ ss) t = elim (Bool-cases (reserves key s t)) [
  | inl now ↦
      rw now (omega (arith, never_reserved_again key ss (advance s t) (reserves-Known key s t now)))
  | inr not_yet ↦ rw not_yet (omega (arith, times_reserved-le-one key ss (advance s t)))
]
