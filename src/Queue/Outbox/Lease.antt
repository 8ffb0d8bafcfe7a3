-- ===== src/Queue/Outbox/Lease.antt =====
-- A lease on a continuation excludes everybody else until it lapses (src/agent_crew/queue.py,
-- outbox_claim, outbox_mark_applied, outbox_finish_claim, outbox_reopen).
use agent_crew.Common.{
  ℕ, ◌+◌, ◌≤◌, String, Bool, true, false, not, ◌&&◌, ◌||◌, if◌then◌else◌, none, some, List, [], ◌∷◌,
  ◌==◌, nat_eq, string_eq, option_eq, leb, ◌≡◌, ◌≢◌, refl, sym, inl, inr, arith, Bool-cases,
  count_where, update_where, count-update_le, count-update_mono, count_mono, count_disjoint,
  update_none, set_where, opt_beq_iff,
}
use text.Mathlib.TextEquality.{eq_iff}
use agent_crew.Queue.Outbox.{
  pending, applied, Continuation, is_replaying, claimable, lease, leased_by, unlease, resolved,
  Resolution, reopenable, outbox_claim, outbox_mark_applied, outbox_finish_claim, outbox_reopen,
}

-- The statements that touch the table.
pub data OutboxOp : Type 0 where
  take : (parent owner attempt : String) (ttl now : ℕ) → OutboxOp
  apply_result : (parent owner : String) (now : ℕ) → OutboxOp
  finish : (parent owner : String) (to : Resolution) (now : ℕ) → OutboxOp
  reopen : (parent : String) (now : ℕ) → OutboxOp

unfoldable pub execute : OutboxOp → List Continuation → List Continuation
execute (take parent owner attempt ttl now) rows =
    (outbox_claim parent owner attempt ttl now rows).0
execute (apply_result parent owner now) rows = (outbox_mark_applied parent owner now rows).0
execute (finish parent owner to now) rows = (outbox_finish_claim parent owner to now rows).0
execute (reopen parent now) rows = (outbox_reopen parent now rows).0

unfoldable pub execute_all : List OutboxOp → List Continuation → List Continuation
execute_all [] rows = rows
execute_all (op ∷ ops) rows = execute_all ops (execute op rows)

-- The statement is another worker's, at the latest at the deadline, and does not reopen the row.
unfoldable pub respects : (parent owner : String) (deadline : ℕ) → OutboxOp → Bool
respects parent owner deadline (take parent' owner' attempt ttl now) =
    not (parent' == parent) || leb now deadline
respects parent owner deadline (apply_result parent' owner' now) =
    not (parent' == parent && owner' == owner)
respects parent owner deadline (finish parent' owner' to now) =
    not (parent' == parent && owner' == owner)
respects parent owner deadline (reopen parent' now) = not (parent' == parent)

unfoldable pub all_respect : (parent owner : String) (deadline : ℕ) → List OutboxOp → Bool
all_respect parent owner deadline [] = true
all_respect parent owner deadline (op ∷ ops) =
    if respects parent owner deadline op then all_respect parent owner deadline ops else false

-- the row is under this lease
abbrev under : String → ℕ → Continuation → Bool
under owner deadline r =
    is_replaying r.stage && (r.lease_owner == some owner && r.lease_expires_at == some deadline)

-- a row of the parent that is not
abbrev free : String → String → ℕ → Continuation → Bool
free parent owner deadline r = r.parent_task_id == parent && not (under owner deadline r)

abbrev Leased : String → String → ℕ → List Continuation → Type 0
Leased parent owner deadline rows = count_where (free parent owner deadline) rows ≡ 0

-- An update that passes over the leased rows of the parent leaves the lease alone.
update-Leased :
    (parent owner : String) (deadline : ℕ) (p : Continuation → Bool)
    (f : Continuation → Continuation) (rows : List Continuation)
    → ((r : Continuation) → (f r).parent_task_id ≡ r.parent_task_id)
    → ((r : Continuation)
        → (r.parent_task_id == parent) ≡ true
        → under owner deadline r ≡ true
        → p r ≡ false)
    → Leased parent owner deadline rows
    → Leased parent owner deadline (update_where p f rows)
update-Leased parent owner deadline p f rows keeps passes l =
    omega (arith, count-update_le (free parent owner deadline) p f rows (λ r e. still_free r e))
  where
    still_free :
        (r : Continuation)
        → free parent owner deadline (set_where p f r) ≡ true
        → free parent owner deadline r ≡ true
    still_free r e = elim (Bool-cases (p r)) [
      | inl hit ↦
          let named : (r.parent_task_id == parent) ≡ true = rw (sym (keeps r)) (ground arith) in
          elim (Bool-cases (under owner deadline r)) [
            | inl u ↦ absurd (let q = passes r named u in cc)
            | inr n ↦ rw (n, named) refl
          ]
      | inr miss ↦ ground arith
    ]

not_theirs :
    (parent owner parent' owner' : String) (deadline : ℕ) (r : Continuation)
    → not (parent' == parent && owner' == owner) ≡ true
    → (r.parent_task_id == parent) ≡ true
    → under owner deadline r ≡ true
    → leased_by parent' owner' r ≡ false
not_theirs parent owner parent' owner' deadline r h e u =
    elim (Bool-cases (leased_by parent' owner' r)) [
      | inl theirs ↦
          let mine : r.lease_owner ≡ some owner =
            (opt_beq_iff r.lease_owner (some owner)).0 (ground arith) in
          let his : r.lease_owner ≡ some owner' =
            (opt_beq_iff r.lease_owner (some owner')).0 (ground arith) in
          let same : owner' ≡ owner = ground arith in
          absurd (
            ground (
              arith,
              eq_iff owner' owner,
              eq_iff r.parent_task_id parent',
              eq_iff r.parent_task_id parent,
              eq_iff parent' parent,
            ))
      | inr clear ↦ clear
    ]

execute-Leased :
    (parent owner : String) (deadline : ℕ) (op : OutboxOp) (rows : List Continuation)
    → respects parent owner deadline op ≡ true
    → Leased parent owner deadline rows
    → Leased parent owner deadline (execute op rows)
unfolding execute respects outbox_claim outbox_mark_applied outbox_finish_claim outbox_reopen
execute-Leased parent owner deadline (take parent' owner' attempt ttl now) rows h l =
    elim (Bool-cases (count_where (claimable parent' now) rows == 1)) [
      | inl one ↦
          rw (execute, outbox_claim, one)
            (update-Leased parent owner deadline (claimable parent' now)
              (lease owner' attempt (now + ttl) now) rows (λ r. refl)
              (λ r e u. ground (
                arith,
                opt_beq_iff r.lease_expires_at (some deadline),
                eq_iff r.parent_task_id parent',
                eq_iff r.parent_task_id parent,
                eq_iff parent' parent,
              ))
              l)
      | inr many ↦ rw (execute, outbox_claim, many) l
    ]
execute-Leased parent owner deadline (apply_result parent' owner' now) rows h l =
    update-Leased parent owner deadline (leased_by parent' owner')
      (λ r. record r { stage = applied; updated_at = now }) rows (λ r. refl)
      (λ r e u. not_theirs parent owner parent' owner' deadline r h e u) l
execute-Leased parent owner deadline (finish parent' owner' to now) rows h l =
    update-Leased parent owner deadline (leased_by parent' owner') (unlease (resolved to) now) rows
      (λ r. refl) (λ r e u. not_theirs parent owner parent' owner' deadline r h e u) l
execute-Leased parent owner deadline (reopen parent' now) rows h l =
    update-Leased parent owner deadline (reopenable parent') (unlease pending now) rows (λ r. refl)
      (λ r e u. ground (
        arith,
        eq_iff r.parent_task_id parent',
        eq_iff r.parent_task_id parent,
        eq_iff parent' parent,
      ))
      l

execute_all-Leased :
    (parent owner : String) (deadline : ℕ) (ops : List OutboxOp) (rows : List Continuation)
    → all_respect parent owner deadline ops ≡ true
    → Leased parent owner deadline rows
    → Leased parent owner deadline (execute_all ops rows)
unfolding execute_all all_respect
execute_all-Leased parent owner deadline [] rows h l = l
execute_all-Leased parent owner deadline (op ∷ ops) rows h l =
    execute_all-Leased parent owner deadline ops (execute op rows) (ground arith)
      (execute-Leased parent owner deadline op rows (ground arith) l)

-- a row of the parent that a claim passes over
abbrev unclaimed : String → ℕ → Continuation → Bool
unclaimed parent now r = r.parent_task_id == parent && not (claimable parent now r)

lease_covers_rows :
    (parent owner attempt : String) (ttl now : ℕ) (rows : List Continuation)
    → count_where (λ r. r.parent_task_id == parent) rows ≤ 1
    → (count_where (claimable parent now) rows == 1) ≡ true
    → Leased parent owner
        (now + ttl)
        (update_where (claimable parent now) (lease owner attempt (now + ttl) now) rows)
lease_covers_rows parent owner attempt ttl now rows single one =
    let rest =
      count-update_mono (free parent owner (now + ttl)) (unclaimed parent now)
        (claimable parent now) (lease owner attempt (now + ttl) now) rows
        (λ r e. ground (arith, eq_iff owner owner)) in
    let both =
      count_disjoint (claimable parent now) (unclaimed parent now) (λ r. r.parent_task_id == parent)
        rows (λ r e. ground arith) (λ r e. ground arith) in
    ground arith

claim-Leased :
    (parent owner attempt : String) (ttl now : ℕ) (rows : List Continuation)
    → count_where (λ r. r.parent_task_id == parent) rows ≤ 1
    → (outbox_claim parent owner attempt ttl now rows).1 ≢ none
    → Leased parent owner (now + ttl) (outbox_claim parent owner attempt ttl now rows).0
unfolding outbox_claim
claim-Leased parent owner attempt ttl now rows single won =
    elim (Bool-cases (count_where (claimable parent now) rows == 1)) [
      | inl one ↦
          rw (outbox_claim, one) (lease_covers_rows parent owner attempt ttl now rows single one)
      | inr many ↦ absurd (won (rw (outbox_claim, many) refl))
    ]

excluded :
    (parent owner other attempt : String) (deadline ttl now : ℕ) (to : Resolution)
    (rows : List Continuation)
    → Leased parent owner deadline rows
    → now ≤ deadline
    → other ≢ owner
    → (outbox_claim parent other attempt ttl now rows ≡ (rows, none))
      × (outbox_mark_applied parent other now rows ≡ (rows, false))
      × (outbox_finish_claim parent other to now rows ≡ (rows, false))
unfolding outbox_claim outbox_mark_applied outbox_finish_claim
excluded parent owner other attempt deadline ttl now to rows l in_time differ =
    let claims : count_where (claimable parent now) rows ≡ 0 = omega (
      arith,
      count_mono (claimable parent now) (free parent owner deadline) rows
          (λ r e. ground (arith, opt_beq_iff r.lease_expires_at (some deadline))),
    ) in
    let theirs : count_where (leased_by parent other) rows ≡ 0 = omega (
      arith,
      count_mono (leased_by parent other) (free parent owner deadline) rows (λ r e.
          ground (
            arith,
            opt_beq_iff r.lease_owner (some other),
            opt_beq_iff r.lease_owner (some owner),
          )),
    ) in
    (
      rw claims refl,
      rw
          (
            update_none (leased_by parent other)
                (λ r. record r { stage = applied; updated_at = now }) rows theirs,
            theirs,
          )
          refl,
      rw (update_none (leased_by parent other) (unlease (resolved to) now) rows theirs, theirs)
          refl,
    )

-- If the table has at most one row for a task and a worker claims it, then, through any statements of
-- others up to the deadline that do not reopen the row, nobody else can claim it, mark it applied or
-- resolve it before the lease lapses: each write leaves the table alone and says so.
pub lease_excludes :
    (parent owner attempt : String) (ttl now : ℕ) (rows : List Continuation) (ops : List OutboxOp)
    (other attempt' : String) (ttl' later : ℕ) (to : Resolution)
    → count_where (λ r. r.parent_task_id == parent) rows ≤ 1
    → (outbox_claim parent owner attempt ttl now rows).1 ≢ none
    → all_respect parent owner (now + ttl) ops ≡ true
    → later ≤ now + ttl
    → other ≢ owner
    → let after = execute_all ops (outbox_claim parent owner attempt ttl now rows).0 in
      (outbox_claim parent other attempt' ttl' later after ≡ (after, none))
      × (outbox_mark_applied parent other later after ≡ (after, false))
      × (outbox_finish_claim parent other to later after ≡ (after, false))
lease_excludes parent owner attempt ttl now rows ops other attempt' ttl' later to single won
      respected in_time differ =
    excluded parent owner other attempt' (now + ttl) ttl' later to _
      (execute_all-Leased parent owner (now + ttl) ops _ respected
        (claim-Leased parent owner attempt ttl now rows single won))
      in_time differ
