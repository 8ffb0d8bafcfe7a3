-- ===== src/Queue/Announcements.antt =====
-- The claims on a notice for a pull request (src/agent_crew/queue.py, pr_announcements). A claim
-- token is a fresh uuid4: it is given, like the time.
pub mod Posting
pub mod Fencing
use agent_crew.Common.{
  ℕ, ◌+◌, String, Bool, true, false, not, ◌&&◌, if◌then◌else◌, Option, none, some, List, [], ◌∷◌,
  ◌==◌, nat_eq, string_eq, ltb, is_some, is_empty, find_where, count_where, update_where,
  delete_where,
}

pub record Announcement : Type 0 where
  pub pr_number : ℕ
  pub kind : String
  pub claimed_at : ℕ
  pub claimed_by : String
  pub claim_token : String
  pub posted_at : Option ℕ

-- WHERE pr_number = ? AND kind = ?
abbrev pub about : ℕ → String → Announcement → Bool
about pr kind r = r.pr_number == pr && r.kind == kind

-- ... AND posted_at IS NULL
abbrev pub unposted : ℕ → String → Announcement → Bool
unposted pr kind r = about pr kind r && not (is_some r.posted_at)

-- ... AND claim_token = ?
abbrev pub owned : ℕ → String → String → Announcement → Bool
owned pr kind token r = unposted pr kind r && r.claim_token == token

abbrev pub reclaim : (by token : String) (now : ℕ) → Announcement → Announcement
reclaim by token now r = record r { claimed_at = now; claimed_by = by; claim_token = token }

abbrev pub post : (now : ℕ) → Announcement → Announcement
post now r = record r { posted_at = some now }

-- `claim_pr_announcement`: the table, and the token if the caller won it
unfoldable pub claim_pr_announcement :
    (pr_number : ℕ) (kind claimed_by token : String) (stale_after now : ℕ)
    → List Announcement
    → List Announcement × Option String
unfolding find_where update_where
claim_pr_announcement pr kind by token stale_after now rows =
    elim (find_where (about pr kind) rows) [
      | none ↦ (
        record {
          pr_number = pr;
          kind = kind;
          claimed_at = now;
          claimed_by = by;
          claim_token = token;
          posted_at = none;
        }
            ∷ rows,
        some token,
      )
      | some row ↦
          if is_some row.posted_at
          then (rows, none)
          else if ltb now (row.claimed_at + stale_after)
          then (rows, none)
          else (update_where (unposted pr kind) (reclaim by token now) rows, some token)
    ]

-- `owns_pr_announcement`
unfoldable pub owns_pr_announcement :
    (pr_number : ℕ) (kind token : String) → List Announcement → Bool
unfolding find_where
owns_pr_announcement pr kind token rows =
    if is_empty token then false else is_some (find_where (owned pr kind token) rows)

-- `mark_pr_announcement_posted`: the table, and whether a row was changed
unfoldable pub mark_pr_announcement_posted :
    (pr_number : ℕ) (kind token : String) (now : ℕ) → List Announcement → List Announcement × Bool
unfolding count_where update_where
mark_pr_announcement_posted pr kind token now rows = (
  update_where (owned pr kind token) (post now) rows,
  ltb 0 (count_where (owned pr kind token) rows),
)

-- `release_pr_announcement`: the table, and whether a row was deleted
unfoldable pub release_pr_announcement :
    (pr_number : ℕ) (kind token : String) → List Announcement → List Announcement × Bool
unfolding count_where delete_where
release_pr_announcement pr kind token rows =
    (delete_where (owned pr kind token) rows, ltb 0 (count_where (owned pr kind token) rows))
