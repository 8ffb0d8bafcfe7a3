-- ===== src/Queue/Announcements/Fencing.antt =====
-- A worker whose claim was taken over can do nothing with it any longer (src/agent_crew/queue.py,
-- claim_pr_announcement and the writes that a claim token guards).
use agent_crew.Common.{
  ℕ, String, Bool, false, none, some, List, [], ◌∷◌, nat_eq, string_eq, ◌≡◌, ◌≢◌, refl, inl, inr,
  arith, Bool-cases, Option-cases, find_where, count_where, find_none, update_none, delete_none,
  count-update_none, count_mono,
}
use text.Mathlib.TextEquality.{eq_iff}
use agent_crew.Queue.Announcements.{
  Announcement, about, unposted, owned, reclaim, post, claim_pr_announcement, owns_pr_announcement,
  mark_pr_announcement_posted, release_pr_announcement,
}

count_none :
    {A : Type 0} (q : A → Bool) (xs : List A) → count_where q xs ≡ 0 → find_where q xs ≡ none
unfolding count_where find_where
count_none q [] e = refl
count_none q (x ∷ xs) e = elim (Bool-cases (q x)) [
  | inl y ↦ absurd (ground arith)
  | inr n ↦ ground (arith, count_none q xs (ground arith))
]

fenced :
    (pr : ℕ) (kind old : String) (later : ℕ) (rows : List Announcement)
    → count_where (owned pr kind old) rows ≡ 0
    → (owns_pr_announcement pr kind old rows ≡ false)
      × (mark_pr_announcement_posted pr kind old later rows ≡ (rows, false))
      × (release_pr_announcement pr kind old rows ≡ (rows, false))
unfolding owns_pr_announcement mark_pr_announcement_posted release_pr_announcement
fenced pr kind old later rows none_owned = (
  ground (arith, count_none (owned pr kind old) rows none_owned),
  rw (update_none (owned pr kind old) (post later) rows none_owned, none_owned) refl,
  rw (delete_none (owned pr kind old) rows none_owned, none_owned) refl,
)

unowned :
    (pr : ℕ) (kind by token old : String) (stale_after now : ℕ) (rows : List Announcement)
    → (claim_pr_announcement pr kind by token stale_after now rows).1 ≡ some token
    → old ≢ token
    → count_where
        (owned pr kind old)
        (claim_pr_announcement pr kind by token stale_after now rows).0
      ≡ 0
unfolding claim_pr_announcement
unowned pr kind by token old stale_after now rows won other =
    elim (Option-cases (find_where (about pr kind) rows)) [
      | inl nobody ↦
          rw (claim_pr_announcement, nobody)
            (unfold count_where in
              ground (
                arith,
                eq_iff token old,
                find_none (about pr kind) rows nobody,
                count_mono (owned pr kind old) (about pr kind) rows (λ x e. ground arith),
              ))
      | inr (r, found) ↦ ground (
        arith,
        count-update_none (owned pr kind old) (unposted pr kind) (reclaim by token now) rows
            (λ x. ground (arith, eq_iff token old)),
      )
    ]

-- When a claim has been granted, no other token owns the notice any longer, and none posts or
-- releases it: both writes leave the table alone and say so.
pub takeover_fences :
    (pr : ℕ) (kind by token old : String) (stale_after now later : ℕ) (rows : List Announcement)
    → (claim_pr_announcement pr kind by token stale_after now rows).1 ≡ some token
    → old ≢ token
    → let after = (claim_pr_announcement pr kind by token stale_after now rows).0 in
      (owns_pr_announcement pr kind old after ≡ false)
      × (mark_pr_announcement_posted pr kind old later after ≡ (after, false))
      × (release_pr_announcement pr kind old after ≡ (after, false))
takeover_fences pr kind by token old stale_after now later rows won other =
    fenced pr kind old later (claim_pr_announcement pr kind by token stale_after now rows).0
      (unowned pr kind by token old stale_after now rows won other)
