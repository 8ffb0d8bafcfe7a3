-- ===== src/Queue/Tasks/SingleUse.antt =====
-- A dispatch nonce starts one execution (src/agent_crew/queue.py, start_execution).
use agent_crew.Common.{
  ℕ, String, true, false, not, ◌≡◌, refl, ap, ◌∙◌, ◌&&◌, Option, none, some, inl, inr, Bool-cases,
  arith, is_some, is_empty, if◌then◌else◌, string_eq, count_where, count-update_none,
}
use mathlib.Core.Option
use agent_crew.Cea.Types.{Receipt, ReceiptState}
use agent_crew.Cea.Matrix.{Point, execute_start}
use agent_crew.Cea.Validator.Inputs.{conforming, CurrentInputs, ValidationResult}
use agent_crew.Cea.Validator.Contract.{validate_execute_start}
use agent_crew.Cea.Store.Nonces.{spendable, spend, is_unspent, consume_nonce, consumer_tag}
use agent_crew.Cea.CallSites.{
  Config, GateOutcome, stops_work, enforcing, recording, gate, gate_off, gate_execute_start,
}
use agent_crew.Queue.Tasks.Row.{Db, task_of, nonempty}
use agent_crew.Queue.Tasks.Engine.{Engine, config_for_receipt, receipt_for_task, inputs_of}
use agent_crew.Queue.Tasks.Start.{
  Go, who, spend_shown, start_gate, start_on, start_of, start_execution, or_empty, is_cancelled,
  presented,
}
use agent_crew.Queue.Tasks.Revocation.{cea_transition-nonces}

-- the mode stops work on every code, whatever the project
unfoldable pub EnforcesAll : Engine → Type 0
EnforcesAll e =
    (project : Option String)
    → (stops_work (e.config project).mode ≡ true) × ((e.config project).enforce_codes ≡ none)

enforcing_all :
    (c : Config) (code : Option String)
    → (stops_work c.mode ≡ true) × (c.enforce_codes ≡ none)
    → enforcing c code ≡ true
unfolding enforcing
enforcing_all c none (on, all) = rw on refl
enforcing_all c (some code) (on, all) = rw (on, all) refl

receipt_config :
    (e : Engine) (r : Receipt)
    → EnforcesAll e
    → (stops_work (config_for_receipt e (some r)).mode ≡ true)
      × ((config_for_receipt e (some r)).enforce_codes ≡ none)
unfolding config_for_receipt EnforcesAll
receipt_config e r all = all _

gate-enforced :
    (p : Point) (v : ValidationResult) (c : Config) (r : Receipt)
    → (stops_work c.mode ≡ true) × (c.enforce_codes ≡ none)
    → (gate p v c r).enforced ≡ true
unfolding gate
gate-enforced p v c r all = enforcing_all c _ all

gate_execute_start-enforced :
    (parse : String → Option ℕ) (r : Receipt) (shown : Option String) (cur : CurrentInputs)
    (c : Config)
    → (stops_work c.mode ≡ true) × (c.enforce_codes ≡ none)
    → (gate_execute_start parse r shown cur c).enforced ≡ true
unfolding gate_execute_start
gate_execute_start-enforced parse r shown cur c all =
    gate-enforced execute_start (validate_execute_start parse (conforming r) shown cur) c r all

start_gate-enforced :
    (e : Engine) (r : Receipt) (shown presenter : Option String) (now : ℕ) (db : Db)
    → EnforcesAll e
    → (start_gate e r shown presenter now db).enforced ≡ true
unfolding start_gate recording
start_gate-enforced e r shown presenter now db all =
    let (on, every) = receipt_config e r all in
    let cur : CurrentInputs = record (inputs_of e r now) {
      presenter = presenter;
      already_dispatched = true;
      nonce_unused = Option.map is_unspent (presented shown db.nonces);
    } in
    let config = config_for_receipt e (some r) in
    let gated = gate_execute_start e.parse_rfc3339 r shown cur config in
    ap (λ b. (if b then gated else gate_off execute_start r).enforced) on
    ∙ gate_execute_start-enforced e.parse_rfc3339 r shown cur config (on, every)

spend_shown-none :
    (n : String) (presenter : Option String) (i used_at : String) (db : Db)
    → count_where (spendable n) db.nonces ≡ 0
    → (spend_shown (some n) presenter i used_at db).1 ≡ false
unfolding spend_shown consume_nonce
spend_shown-none n presenter i used_at db h = elim (Bool-cases (is_empty n)) [
  | inl y ↦ rw y refl
  | inr named ↦ rw (named, h) refl
]

start_on-refuses :
    (e : Engine) (rid : String) (g : GateOutcome) (n : String) (presenter : Option String)
    (i used_at : String) (now : ℕ) (db : Db)
    → is_empty n ≡ false
    → g.enforced ≡ true
    → count_where (spendable n) db.nonces ≡ 0
    → (start_on e rid g (some n) presenter i used_at now db).1.go ≡ false
unfolding start_on
start_on-refuses e rid g n presenter i used_at now db named enforced gone =
    elim (Bool-cases g.proceed) [
      | inr stops ↦ rw stops refl
      | inl goes ↦
          let unspent = spend_shown-none n presenter i used_at db gone in
          rw (goes, unspent, named, enforced) refl
    ]

-- with its nonce spent, no task starts on it
execution_refused :
    (e : Engine) (i n : String) (presenter : Option String) (used_at : String) (now : ℕ) (db : Db)
    → EnforcesAll e
    → is_empty n ≡ false
    → count_where (spendable n) db.nonces ≡ 0
    → (start_execution e i (some n) presenter used_at now db).1.go ≡ false
unfolding start_execution EnforcesAll
execution_refused e i n presenter used_at now db all named gone =
    elim (Bool-cases (is_cancelled (task_of i db.tasks))) [
      | inl off ↦ rw off refl
      | inr live ↦ rw live (asked (receipt_for_task i db))
    ]
  where
    asked :
        (found : Option String × Option Receipt)
        → (start_of e i (some n) presenter used_at now found db).1.go ≡ false
    asked (rid, none) = rw (enforcing_all (e.config none) none (all none)) refl
    asked (rid, some r) =
        start_on-refuses e (or_empty rid) (start_gate e r (some n) presenter now db) n presenter i
          used_at now db named (start_gate-enforced e r (some n) presenter now db all) gone

module _ (e : Engine) (i n : String) (presenter : Option String) (used_at : String) (now : ℕ)
    (named : is_empty n ≡ false) where
  -- what a start on the nonce leaves
  Used : Db × Go → Type 0
  Used (db, answer) = answer.go ≡ true → count_where (spendable n) db.nonces ≡ 0

  spend_shown-used :
      (db : Db)
      → count_where (spendable n) (spend_shown (some n) presenter i used_at db).0.nonces ≡ 0
  unfolding spend_shown consume_nonce
  spend_shown-used db = rw named (
      count-update_none (spendable n) (spendable n)
        (spend used_at (some (consumer_tag "execute_start" (who presenter i)))) db.nonces
        (λ x. ground arith))

  start_on-Used :
      (rid : String) (g : GateOutcome) (db : Db)
      → Used (start_on e rid g (some n) presenter i used_at now db)
  unfolding start_on Used
  start_on-Used rid g db =
      let (db', spent) = spend_shown (some n) presenter i used_at db in
      elim (Bool-cases g.proceed) [
        | inr stops ↦ rw stops (λ h. absurd (ground arith))
        | inl goes ↦ elim (Bool-cases (is_some (nonempty (some n)) && (not spent && g.enforced))) [
          | inl lost ↦ rw (goes, lost) (λ h. absurd (ground arith))
          | inr won ↦
              rw (goes, won)
                (λ h.
                  ap (count_where (spendable n))
                    (cea_transition-nonces e rid ReceiptState.running (λ x. x) now db')
                  ∙ spend_shown-used db)
        ]
      ]

  execution-Used :
      (db : Db) → EnforcesAll e → Used (start_execution e i (some n) presenter used_at now db)
  unfolding start_execution Used EnforcesAll
  execution-Used db all = elim (Bool-cases (is_cancelled (task_of i db.tasks))) [
    | inl off ↦ rw off (λ h. absurd (ground arith))
    | inr live ↦ rw live (asked (receipt_for_task i db))
  ]
    where
      asked :
          (found : Option String × Option Receipt)
          → Used (start_of e i (some n) presenter used_at now found db)
      asked (rid, none) =
          let on = enforcing_all (e.config none) none (all none) in λ h. absurd (ground arith)
      asked (rid, some r) =
          start_on-Used (or_empty rid) (start_gate e r (some n) presenter now db) db

-- Where the mode stops work on every code, for every project: once a task was let start on a nonce,
-- no task, whoever asks and whenever, is let start on the same nonce by the next call.
pub nonce_starts_once :
    (e : Engine) (i j n : String) (presenter other : Option String) (used_at later_at : String)
    (now later : ℕ) (db : Db)
    → EnforcesAll e
    → is_empty n ≡ false
    → (start_execution e i (some n) presenter used_at now db).1.go ≡ true
    → (start_execution e j
        (some n)
        other
        later_at
        later
        (start_execution e i (some n) presenter used_at now db).0).1.go
      ≡ false
unfolding Used
nonce_starts_once e i j n presenter other used_at later_at now later db all named goes =
    execution_refused e j n other later_at later
      (start_execution e i (some n) presenter used_at now db).0 all named
      (execution-Used e i n presenter used_at now named db all goes)
