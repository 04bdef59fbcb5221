-- ===== src/Queue/Runner/Tick.antt =====
-- internal/queue/runner.go: the tick of the ticker.
pub mod Ends
pub mod Bound
pub mod Fills
use dlq_download_queue.Prelude.{
  Bool, true, false, ℕ, zero, suc, List, [], ◌∷◌, ◌++◌, ltb, length, false, Bool,
}
use dlq_download_queue.Go.Strings.{codes}
use dlq_download_queue.Go.Error.{Result, ok, err, plain}
use dlq_download_queue.Queue.Job.{downloading, status_text, Job, info, error_level}
use dlq_download_queue.Queue.World.{M, pure, fail, ◌>>=◌, ◌>>◌, attempt, ignore}
use dlq_download_queue.Queue.Store
use dlq_download_queue.Queue.Store.Marks
use dlq_download_queue.Queue.Store.Claim.{claim_next_queued}
use dlq_download_queue.Queue.Runner.{Runner, concurrency}
use dlq_download_queue.Queue.Runner.Start.{resolve_and_start}
use dlq_download_queue.Queue.Runner.Active.{update_active, dispatch_completed_decrypt}

abbrev pub requeued : ℕ → Result (Unit {0}) → M (Unit {0})
requeued id (ok _) = ignore (Store.add_event id info (codes "auto retry queued"))
requeued id (err e) =
    ignore (Store.add_event id error_level (codes "auto requeue failed: " ++ e.text))

unfoldable pub requeue_all : List ℕ → M (Unit {0})
requeue_all [] = pure tt
requeue_all (id ∷ ids) = do done ← attempt (Marks.requeue id); requeued id done; requeue_all ids

unfoldable pub requeue_failed : M (Unit {0})
unfolding requeue_all
requeue_failed = do ids ← Store.list_retryable_failed 0; requeue_all ids

abbrev number_of : Result (List Job) → ℕ
number_of (ok jobs) = length jobs
number_of (err e) = 0

unfoldable pub count_downloading : M ℕ
unfolding status_text
count_downloading = do
  jobs ← attempt (Store.list_jobs (status_text downloading) false)
  pure (number_of jobs)

abbrev pub start_claimed : Runner → (ℕ → M (Unit {0})) → Result Job → M (Unit {0})
start_claimed r rest (err e) = pure tt
start_claimed r rest (ok job) = do
  ignore (resolve_and_start r job)
  active ← count_downloading
  rest active

-- One round: with room for one more download, claim a job and start it, and go on.
unfoldable pub start_round : Runner → (ℕ → M (Unit {0})) → Bool → M (Unit {0})
unfolding count_downloading
start_round r rest false = pure tt
start_round r rest true = do claimed ← attempt claim_next_queued; start_claimed r rest claimed

-- The loop that starts jobs, by the rounds that are left, with the number of running downloads. A
-- claim that fails ends it.
unfoldable pub start_jobs : Runner → ℕ → ℕ → M (Unit {0})
unfolding concurrency start_round
start_jobs r zero active = fail (plain (codes "start_jobs: out of rounds"))
start_jobs r (suc n) active = do
  limit ← concurrency r
  start_round r (start_jobs r n) (ltb active limit)

-- More rounds than there are rows, since each round takes a queued row.
unfoldable pub rounds : M ℕ
rounds env w = (ok (suc (length w.db.jobs)), w)

unfoldable pub start_all : Runner → ℕ → M (Unit {0})
unfolding rounds start_jobs
start_all r active = do n ← rounds; start_jobs r n active

unfoldable pub tick : Runner → M (Unit {0})
unfolding update_active dispatch_completed_decrypt requeue_failed count_downloading start_all
tick r = do
  ignore (update_active r)
  ignore (dispatch_completed_decrypt r)
  ignore requeue_failed
  active ← count_downloading
  start_all r active
