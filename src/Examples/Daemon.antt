-- ===== src/Examples/Daemon.antt =====
-- The theorems on ticks, claims and decryptions, applied to concrete tables.
use dlq_download_queue.Examples.{
  asked, failing_env, quiet_env, runner, service, two_jobs, world, none,
}
use dlq_download_queue.Queue.Runner.Decrypt.{run_decrypt, is_pending}
use dlq_download_queue.Queue.Daemon.{serve, Action, create, tick, pause}
use dlq_download_queue.Queue.Job.{Job, failed, resolving}
use dlq_download_queue.Go.Error.{ok, err, plain}
use dlq_download_queue.Queue.Consistent.{IsConsistent, RowOk}
use dlq_download_queue.Queue.Store.Claim.Rounds.{claim_loop_rounds}
use dlq_download_queue.Queue.Runner.Decrypt.Settles.{SettledOf, run_decrypt-SettledOf}
use dlq_download_queue.Queue.Runner.Decrypt.Unmarks.{run_decrypt_unmarks}
use dlq_download_queue.Queue.Store.{list_retryable_failed, new_row}
use dlq_download_queue.Queue.Store.Retries.{Lists, list_retryable_failed-Ordered}
use dlq_download_queue.Prelude.{
  if◌then◌else◌, ◌==◌, refl, List, some, [], ℕ, arith, ◌∷◌, pos, false, ◌≡◌, ◌≤◌, true,
}
use dlq_download_queue.Go.Strings.{codes}
use dlq_download_queue.Queue.Service.{requested_job}
use dlq_download_queue.Queue.Runner.{Runner, concurrency_at}
use dlq_download_queue.Queue.World.{Env, World, DecryptTask}
use dlq_download_queue.Queue.Daemon.Consistent.{serve-IsConsistent}
use dlq_download_queue.Queue.Runner.Tick
use dlq_download_queue.Queue.Runner.Tick.Ends.{tick_ends}
use dlq_download_queue.Queue.Runner.Tick.Bound.{start_jobs_bounded, running}
use dlq_download_queue.Queue.Runner.Tick.Fills.{tick_fills, Filled}
use dlq_download_queue.Queue.Store.Claim.{claim_next_queued, claim_loop}
use dlq_download_queue.Queue.Store.Claim.Oldest.{claim_next_queued-IsOldest, Claimed}
use dlq_download_queue.Queue.Store.Claim.Atomic.{claim_error_unchanged}

new_row-RowOk : (id at : ℕ) (j : Job) → RowOk (new_row id at j)
unfolding new_row
new_row-RowOk id at j = ground arith

two_jobs-IsConsistent : IsConsistent two_jobs
unfolding new_row requested_job
two_jobs-IsConsistent = record {
  job_ids = (omega arith, (omega arith, tt));
  event_ids = tt;
  rows = (
    new_row-RowOk 2 1 (asked (codes "https://a/2")),
    (new_row-RowOk 1 1 (asked (codes "https://a/1")), tt),
  );
  known = tt;
}

-- A job is asked for, the ticker runs against a failing database, and the job is paused.
abbrev some_run : List (Env × Action)
some_run =
    (quiet_env, create (codes "https://a/3") (codes "/data") [] [] [] (pos 0))
    ∷ (failing_env, tick)
    ∷ (quiet_env, pause 1)
    ∷ []

serve-IsConsistent_example : IsConsistent (serve service runner some_run world).db
serve-IsConsistent_example = serve-IsConsistent service runner some_run world two_jobs-IsConsistent

tick_ends_example : (Tick.tick runner failing_env world).0 ≡ ok tt
tick_ends_example = tick_ends runner failing_env world

start_jobs_bounded_example :
    running (Tick.start_jobs runner 5 (running world) quiet_env world).1 ≤ 2
unfolding concurrency_at new_row requested_job
start_jobs_bounded_example =
    start_jobs_bounded runner 2 5 quiet_env world (λ n. refl) (λ k. omega arith)
      two_jobs-IsConsistent (omega arith)

tick_fills_example : Filled 2 (Tick.tick runner quiet_env world).1
unfolding concurrency_at
tick_fills_example =
    tick_fills runner 2 quiet_env world (λ n. refl) (λ k. omega arith) two_jobs-IsConsistent

claim_next_queued-IsOldest_example :
    Claimed 0 two_jobs.jobs
      (record (new_row 1 1 (asked (codes "https://a/1"))) { status = resolving })
unfolding claim_next_queued new_row requested_job
claim_next_queued-IsOldest_example =
    claim_next_queued-IsOldest quiet_env world _ two_jobs-IsConsistent refl

-- The count of the affected rows fails, behind the UPDATE of the first job.
abbrev uncounted_env : Env
uncounted_env = record {
  clock = λ n. n;
  db_error = λ n. if n == 4 then some (codes "disk full") else none;
  commit_kept = λ n. false;
}

claim_error_unchanged_example : (claim_next_queued uncounted_env world).1.db ≡ two_jobs
unfolding claim_next_queued new_row requested_job
claim_error_unchanged_example = claim_error_unchanged uncounted_env world (λ n t e. refl) refl

claim_loop_rounds_example : claim_loop 4 9 failing_env world ≡ claim_loop 1 9 failing_env world
claim_loop_rounds_example = claim_loop_rounds 3 9 failing_env world

-- A decryption of the archive of the first job, which the tool refuses.
abbrev unpacking : DecryptTask
unpacking = record {
  job_id = 1;
  mega_path = [];
  archive_path = codes "/data/films/a.zip";
  out_dir = codes "/data/films";
  password = codes "secret";
  raw_url = codes "https://a/1";
  site = [];
  decrypt_mega = false;
  decrypt_arch = true;
}

abbrev refusing : Runner
refusing = record runner {
  archive_decryptor = some (λ path out password n. err (plain (codes "wrong password")));
}

run_decrypt-SettledOf_example :
    SettledOf 1 (run_decrypt refusing unpacking true quiet_env world).1.db
run_decrypt-SettledOf_example = run_decrypt-SettledOf refusing unpacking quiet_env world (λ n. refl)

run_decrypt_unmarks_example :
    ((run_decrypt refusing unpacking true failing_env world).0 ≡ ok tt)
    × (is_pending 1 (run_decrypt refusing unpacking true failing_env world).1.pending ≡ false)
run_decrypt_unmarks_example = run_decrypt_unmarks refusing unpacking true failing_env world

-- A job that failed with its retry time given.
abbrev failed_row : ℕ → ℕ → Job
failed_row id retry = record (new_row id 0 (asked (codes "https://a"))) {
  status = failed;
  attempts = 1;
  next_retry_at = some retry;
}

-- Three failed jobs, the last of which is not due yet.
abbrev failures : World
failures = record world {
  db = record two_jobs {
    jobs = failed_row 3 900 ∷ failed_row 2 40 ∷ failed_row 1 60 ∷ [];
    job_seq = 3;
  };
  steps = 100;
}

list_retryable_failed-Ordered_example : Lists 100 failures.db.jobs (2 ∷ 1 ∷ [])
unfolding list_retryable_failed new_row requested_job
list_retryable_failed-Ordered_example =
    list_retryable_failed-Ordered quiet_env failures (2 ∷ 1 ∷ []) refl
