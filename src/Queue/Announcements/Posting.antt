-- ===== src/Queue/Announcements/Posting.antt =====
-- A notice is posted at most once (src/agent_crew/queue.py, pr_announcements).
use agent_crew.Common.{
  ℕ, ◌+◌, ◌≤◌, String, Bool, true, false, not, ◌&&◌, if◌then◌else◌, none, List, [], ◌∷◌, ◌==◌,
  nat_eq, string_eq, ◌≡◌, ◌≢◌, refl, sym, ap, ◌∙◌, inl, inr, arith, Bool-cases, Option-cases,
  find_where, count_where, find_none, count-delete_le, delete_none, count_disjoint,
  count-delete_same, count-update_mono, count-update_same, count-update_le, count_mono,
}
use text.Mathlib.TextEquality.{eq_iff}
use agent_crew.Queue.Announcements.{
  Announcement, about, unposted, owned, reclaim, post, claim_pr_announcement,
  mark_pr_announcement_posted, release_pr_announcement,
}

-- The statements that touch the table.
pub data NoticeOp : Type 0 where
  claim : (pr_number : ℕ) (kind claimed_by token : String) (stale_after now : ℕ) → NoticeOp
  mark : (pr_number : ℕ) (kind token : String) (now : ℕ) → NoticeOp
  release : (pr_number : ℕ) (kind token : String) → NoticeOp

unfoldable pub perform : NoticeOp → List Announcement → List Announcement
perform (claim pr kind by token stale_after now) rows =
    (claim_pr_announcement pr kind by token stale_after now rows).0
perform (mark pr kind token now) rows = (mark_pr_announcement_posted pr kind token now rows).0
perform (release pr kind token) rows = (release_pr_announcement pr kind token rows).0

-- Was the notice reported as posted by this statement?
unfoldable pub posts : ℕ → String → NoticeOp → List Announcement → Bool
posts pr kind (mark pr' kind' token now) rows =
    if pr' == pr && kind' == kind
    then (mark_pr_announcement_posted pr' kind' token now rows).1
    else false
posts pr kind _ rows = false

unfoldable pub times_posted : ℕ → String → List NoticeOp → List Announcement → ℕ
times_posted pr kind [] rows = 0
times_posted pr kind (op ∷ ops) rows =
    (if posts pr kind op rows then 1 else 0) + times_posted pr kind ops (perform op rows)

-- The one row of the notice is posted.
abbrev Posted : ℕ → String → List Announcement → Type 0
Posted pr kind rows =
    (count_where (unposted pr kind) rows ≡ 0) × (count_where (about pr kind) rows ≢ 0)

-- The primary key of the table, at one notice.
abbrev pub IsSingle : ℕ → String → List Announcement → Type 0
IsSingle pr kind rows = count_where (about pr kind) rows ≤ 1

-- The notices that a search selects are the same after a claim of a notice without a row.
no_row :
    (pr pr' : ℕ) (kind kind' : String) (rows : List Announcement)
    → find_where (about pr' kind') rows ≡ none
    → (pr' == pr && kind' == kind) ≡ true
    → count_where (about pr kind) rows ≡ 0
no_row pr pr' kind kind' rows nobody same =
    let e : pr' ≡ pr = ground arith in
    let f : kind' ≡ kind = (eq_iff kind' kind).0 (ground arith) in
    ap (λ k. count_where (about pr k) rows) (sym f)
    ∙ (ap (λ n. count_where (about n kind') rows) (sym e) ∙ find_none (about pr' kind') rows nobody)

perform-IsSingle :
    (pr : ℕ) (kind : String) (op : NoticeOp) (rows : List Announcement)
    → IsSingle pr kind rows
    → IsSingle pr kind (perform op rows)
unfolding perform claim_pr_announcement mark_pr_announcement_posted release_pr_announcement
perform-IsSingle pr kind (claim pr' kind' by token stale_after now) rows h =
    elim (Option-cases (find_where (about pr' kind') rows)) [
      | inl nobody ↦ elim (Bool-cases (pr' == pr && kind' == kind)) [
        | inl same ↦ ground (arith, no_row pr pr' kind kind' rows nobody same)
        | inr other ↦ ground arith
      ]
      | inr (r, found) ↦ ground (
        arith,
        count-update_same (about pr kind) (unposted pr' kind') (reclaim by token now) rows
            (λ x. ground arith),
      )
    ]
perform-IsSingle pr kind (mark pr' kind' token now) rows h = omega (
  arith,
  count-update_same (about pr kind) (owned pr' kind' token) (post now) rows (λ x. ground arith),
)
perform-IsSingle pr kind (release pr' kind' token) rows h =
    omega (arith, count-delete_le (about pr kind) (owned pr' kind' token) rows)

perform-Posted :
    (pr : ℕ) (kind : String) (op : NoticeOp) (rows : List Announcement)
    → Posted pr kind rows
    → Posted pr kind (perform op rows)
unfolding perform claim_pr_announcement mark_pr_announcement_posted release_pr_announcement
perform-Posted pr kind (claim pr' kind' by token stale_after now) rows h =
    elim (Option-cases (find_where (about pr' kind') rows)) [
      | inl nobody ↦ elim (Bool-cases (pr' == pr && kind' == kind)) [
        | inl same ↦ absurd (h.1 (no_row pr pr' kind kind' rows nobody same))
        | inr other ↦ ground arith
      ]
      | inr (r, found) ↦ ground (
        arith,
        count-update_same (about pr kind) (unposted pr' kind') (reclaim by token now) rows
            (λ x. ground arith),
        count-update_same (unposted pr kind) (unposted pr' kind') (reclaim by token now) rows
            (λ x. ground arith),
      )
    ]
perform-Posted pr kind (mark pr' kind' token now) rows h =
    let kept =
      count-update_same (about pr kind) (owned pr' kind' token) (post now) rows
        (λ x. ground arith) in
    let fewer =
      count-update_le (unposted pr kind) (owned pr' kind' token) (post now) rows
        (λ x e. ground arith) in
    (omega arith, rw kept h.1)
perform-Posted pr kind (release pr' kind' token) rows h =
    elim (Bool-cases (pr' == pr && kind' == kind)) [
      | inl same ↦
          rw
            (delete_none (owned pr' kind' token) rows (
              omega (
                arith,
                count_mono (owned pr' kind' token) (unposted pr kind) rows (λ x e.
                    ground (arith, eq_iff x.kind kind', eq_iff kind' kind, eq_iff x.kind kind)),
              )))
            h
      | inr other ↦
          let kept =
            count-delete_same (about pr kind) (owned pr' kind' token) rows
              (λ x e. ground (arith, eq_iff x.kind kind', eq_iff x.kind kind, eq_iff kind' kind)) in
          (
            omega (arith, count-delete_le (unposted pr kind) (owned pr' kind' token) rows),
            rw kept h.1,
          )
    ]

-- What an unowned row of the notice looks like.
abbrev left_over : ℕ → String → String → Announcement → Bool
left_over pr kind token r = unposted pr kind r && not (owned pr kind token r)

mark-Posted :
    (pr : ℕ) (kind token : String) (now : ℕ) (rows : List Announcement)
    → IsSingle pr kind rows
    → (mark_pr_announcement_posted pr kind token now rows).1 ≡ true
    → Posted pr kind (mark_pr_announcement_posted pr kind token now rows).0
unfolding mark_pr_announcement_posted
mark-Posted pr kind token now rows single done =
    let kept =
      count-update_same (about pr kind) (owned pr kind token) (post now) rows (λ x. ground arith) in
    let rest =
      count-update_mono (unposted pr kind) (left_over pr kind token) (owned pr kind token)
        (post now) rows (λ x e. ground arith) in
    let all_rows =
      count_disjoint (owned pr kind token) (left_over pr kind token) (about pr kind) rows
        (λ x e. ground arith) (λ x e. ground arith) in
    ground arith

no_second_post :
    (pr : ℕ) (kind : String) (op : NoticeOp) (rows : List Announcement)
    → Posted pr kind rows
    → posts pr kind op rows ≡ false
unfolding posts mark_pr_announcement_posted
no_second_post pr kind (mark pr' kind' token now) rows h =
    elim (Bool-cases (pr' == pr && kind' == kind)) [
      | inl same ↦ ground (
        arith,
        count_mono (owned pr' kind' token) (unposted pr kind) rows
            (λ x e. ground (arith, eq_iff x.kind kind', eq_iff kind' kind, eq_iff x.kind kind)),
      )
      | inr other ↦ ground arith
    ]
no_second_post pr kind (claim _ _ _ _ _ _) rows h = refl
no_second_post pr kind (release _ _ _) rows h = refl

posts-Posted :
    (pr : ℕ) (kind : String) (op : NoticeOp) (rows : List Announcement)
    → IsSingle pr kind rows
    → posts pr kind op rows ≡ true
    → Posted pr kind (perform op rows)
unfolding posts perform
posts-Posted pr kind (mark pr' kind' token now) rows single h =
    let e : pr' ≡ pr = ground arith in
    let f : kind' ≡ kind = (eq_iff kind' kind).0 (ground arith) in
    let done : (mark_pr_announcement_posted pr' kind' token now rows).1 ≡ true = ground arith in
    rw (e, f) (mark-Posted pr kind token now rows single (rw (e, f) at done))
posts-Posted pr kind (claim _ _ _ _ _ _) rows single h = cc
posts-Posted pr kind (release _ _ _) rows single h = cc

no_more_posts :
    (pr : ℕ) (kind : String) (ops : List NoticeOp) (rows : List Announcement)
    → Posted pr kind rows
    → times_posted pr kind ops rows ≡ 0
unfolding times_posted
no_more_posts pr kind [] rows h = refl
no_more_posts pr kind (op ∷ ops) rows h =
    rw (no_second_post pr kind op rows h) (
      omega (arith, no_more_posts pr kind ops (perform op rows) (perform-Posted pr kind op rows h)))

-- If the table has at most one row for a notice, then over any schedule of claims, posts and
-- releases, whatever tokens they carry, the notice is reported as posted at most once.
pub times_posted-le-one :
    (pr : ℕ) (kind : String) (ops : List NoticeOp) (rows : List Announcement)
    → IsSingle pr kind rows
    → times_posted pr kind ops rows ≤ 1
unfolding times_posted
times_posted-le-one pr kind [] rows single = omega arith
times_posted-le-one pr kind (op ∷ ops) rows single = elim (Bool-cases (posts pr kind op rows)) [
  | inl now ↦ rw now (
      omega (
        arith,
        no_more_posts pr kind ops (perform op rows) (posts-Posted pr kind op rows single now),
      ))
  | inr not_yet ↦ rw not_yet (
      omega (
        arith,
        times_posted-le-one pr kind ops (perform op rows) (perform-IsSingle pr kind op rows single),
      ))
]
