-- ===== src/Queue/Store/Due.antt =====
-- internal/queue/store.go, ListRetryableFailed: which failed jobs are retried.
use dlq_download_queue.Queue.Store.{is_due, retryable}
use dlq_download_queue.Queue.Job.{Job, failed, same_status, is_live, same_status→eq, is_live→none}
use mathlib.Core.List.Perm
use mathlib.Core.List.{Perm, perm_middle}
use dlq_download_queue.Prelude.{
  ◌<◌, ◌++◌, ◌&&◌, refl, Option, none, some, true, not, ltb, ltb→lt, lt→ltb, le→leb, and_parts, ℕ,
  ◌≤◌, ◌≡◌, List, [], ◌∷◌, All, keep_if, Bool-cases, inl, inr, leb→le,
}

-- Failed, visible, past its retry time, and with attempts left.
abbrev pub IsRetried : ℕ → Job → Type 0
IsRetried at j =
    (j.status ≡ failed)
    × (j.deleted_at ≡ none)
    × ((t : ℕ) × (j.next_retry_at ≡ some t) × (t ≤ at))
    × (j.attempts < j.max_attempts)

is_due-time : (at : ℕ) (o : Option ℕ) → is_due at o ≡ true → (t : ℕ) × (o ≡ some t) × (t ≤ at)
is_due-time at none h = absurd cc
is_due-time at (some t) h = (t, refl, leb→le t at h)

retryable-IsRetried : (at : ℕ) (j : Job) → retryable at j ≡ true → IsRetried at j
unfolding retryable
retryable-IsRetried at j h =
    let (timed, left) =
      and_parts (same_status j.status failed && is_live j && is_due at j.next_retry_at)
        (ltb j.attempts j.max_attempts) h in
    let (shown, time) =
      and_parts (same_status j.status failed && is_live j) (is_due at j.next_retry_at) timed in
    let (status, live) = and_parts (same_status j.status failed) (is_live j) shown in
    (
      same_status→eq j.status failed status,
      is_live→none j live,
      is_due-time at j.next_retry_at time,
      ltb→lt j.attempts j.max_attempts left,
    )

IsRetried-retryable : (at : ℕ) (j : Job) → IsRetried at j → retryable at j ≡ true
unfolding retryable
IsRetried-retryable at j (status, live, (t, time, past), left) =
    rw (status, live, time, le→leb t at past, lt→ltb j.attempts j.max_attempts left) refl

-- The rows that the test leaves out.
abbrev pub others : ℕ → List Job → List Job
others at rows = keep_if (λ j. not (retryable at j)) rows

pub kept : (at : ℕ) (rows : List Job) → All (IsRetried at) (keep_if (retryable at) rows)
kept at [] = tt
kept at (j ∷ rows) = elim (Bool-cases (retryable at j)) [
  | inl e ↦ rw e (retryable-IsRetried at j e, kept at rows)
  | inr e ↦ rw e (kept at rows)
]

pub left_out : (at : ℕ) (rows : List Job) → All (λ j. ¬ (IsRetried at j)) (others at rows)
left_out at [] = tt
left_out at (j ∷ rows) = elim (Bool-cases (retryable at j)) [
  | inl e ↦ rw e (left_out at rows)
  | inr e ↦ rw e ((λ h. let is = IsRetried-retryable at j h in cc), left_out at rows)
]

pub parted : (at : ℕ) (rows : List Job) → Perm (keep_if (retryable at) rows ++ others at rows) rows
parted at [] = Perm.refl []
parted at (j ∷ rows) = elim (Bool-cases (retryable at j)) [
  | inl e ↦ rw e (Perm.cons j (parted at rows))
  | inr e ↦ rw e (
      Perm.trans (perm_middle (keep_if (retryable at) rows) (others at rows))
        (Perm.cons j (parted at rows)))
]
