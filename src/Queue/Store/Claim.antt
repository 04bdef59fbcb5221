-- ===== src/Queue/Store/Claim.antt =====
-- internal/queue/store.go, ClaimNextQueued: the transaction that takes the next job.
pub mod Keeps
pub mod Drops
pub mod Atomic
pub mod Search
pub mod Oldest
pub mod Rounds
pub mod Empty
use dlq_download_queue.Prelude.{
  ℕ, zero, suc, Bool, true, ◌&&◌, reverse, Option, none, some, leb, ◌==◌, if◌then◌else◌, find_first,
  count_if,
}
use dlq_download_queue.Go.Strings.{codes}
use dlq_download_queue.Go.Error.{Result, ok, err, plain}
use dlq_download_queue.Queue.Job.{queued, resolving, same_status, Job, is_live}
use dlq_download_queue.Queue.World.{
  Db, M, pure, fail, ◌>>=◌, ◌>>◌, now, statement, exec, query, commit, roll_back,
}
use dlq_download_queue.Queue.Store.{has_id, no_rows_error}
use dlq_download_queue.Queue.Store.Marks.{update_rows, update_where}

abbrev not_before : ℕ → Option ℕ → Bool
not_before at none = true
not_before at (some t) = leb t at

unfoldable pub ready : ℕ → Job → Bool
ready at j = same_status j.status queued && is_live j && not_before at j.next_retry_at

abbrev pub claim_row : ℕ → Job → Job
claim_row at j = record j { status = resolving; updated_at = at; started_at = some at }

abbrev pub claim_target : ℕ → Job → Bool
claim_target id j = has_id id j && same_status j.status queued

-- The guarded UPDATE, with the number of rows that it changed.
abbrev pub claim_update : ℕ → ℕ → Db → Result ℕ × Db
claim_update at id db =
    (ok (count_if (claim_target id) db.jobs), update_where (claim_target id) (claim_row at) db)

-- What one transaction comes to: a row of another status was changed in between (`again`), or the
-- job is taken.
pub data Claim : Type 0 where
  again : Claim
  taken : Job → Claim

-- `res.RowsAffected()`, behind the UPDATE.
abbrev pub rows_affected : ℕ → M ℕ
rows_affected n = query (λ db. n)

abbrev pub claim_found : ℕ → Option Job → M Claim
claim_found at none = fail no_rows_error
claim_found at (some j) = do
  affected ← statement (claim_update at j.id)
  n ← rows_affected affected
  pure (if n == 0 then again else taken (record j { status = resolving }))

unfoldable pub claim_body : ℕ → M Claim
unfolding ready update_rows statement
claim_body at = do row ← query (λ db. find_first (ready at) (reverse db.jobs)); claim_found at row

-- ROLLBACK where no row was affected or a step failed, also behind the UPDATE, else COMMIT.
abbrev pub end_claim : Db → Result Claim → M Claim
end_claim saved (ok again) = roll_back saved (ok again)
end_claim saved (ok (taken j)) = commit saved (taken j)
end_claim saved (err e) = roll_back saved (err e)

abbrev pub run_claim : ℕ → M Claim
run_claim at env w = let (r, w') = claim_body at env w in end_claim w.db r env w'

unfoldable pub claim_once : ℕ → M Claim
unfolding claim_body statement
claim_once at = do exec (λ db. db); run_claim at

abbrev pub claimed_or : M Job → Claim → M Job
claimed_or rest again = rest
claimed_or rest (taken j) = pure j

-- The loop, by the rounds that are left; `again` goes round.
unfoldable pub claim_loop : ℕ → ℕ → M Job
unfolding claim_once
claim_loop zero at = fail (plain (codes "claim: out of rounds"))
claim_loop (suc n) at = let rest = claim_loop n at in do c ← claim_once at; claimed_or rest c

unfoldable pub claim_next_queued : M Job
unfolding claim_loop now
claim_next_queued = do at ← now; claim_loop 1 at
