-- ===== src/Queue/Runner/Tick/Bound.antt =====
-- The loop of a tick respects the limit on running downloads, as long as the database answers.
use dlq_download_queue.Prelude.{
  ℕ, zero, suc, ◌+◌, ◌≤◌, ◌<◌, Bool, true, false, ◌≡◌, refl, ◌∙◌, ap, count_if, arith,
  length-keep_if, ltb→lt,
}
use dlq_download_queue.Go.Error.{Result, ok, err}
use dlq_download_queue.Queue.Job.{Job, downloading, status_text}
use dlq_download_queue.Queue.World.{◌>>=◌, World, Env, M, tick, statement, Quiet}
use dlq_download_queue.Queue.Store
use dlq_download_queue.Queue.Store.Claim.{claim_next_queued}
use dlq_download_queue.Queue.Count.{
  is_running, is_other, shown-downloading, count-ext, count-is_other, count-is_other_le,
}
use dlq_download_queue.Queue.Count.Store.{start-is_running, claim-is_running}
use dlq_download_queue.Queue.Consistent.{IsConsistent}
use dlq_download_queue.Queue.Consistent.Store.{claim_next_queued-Safe}
use dlq_download_queue.Queue.Consistent.Runner.Start.{resolve_and_start-Safe}
use dlq_download_queue.Queue.Runner.{Runner, concurrency_at}
use dlq_download_queue.Queue.Runner.Start.{resolve_and_start}
use dlq_download_queue.Queue.Runner.Start.Keeps.{resolve_and_start-Keeps}
use dlq_download_queue.Queue.Runner.Tick

abbrev pub running : World → ℕ
running w = count_if is_running w.db.jobs

-- What countDownloading returns.
pub count_downloading_lem :
    (env : Env) (w : World) → Quiet env → Tick.count_downloading env w ≡ (ok (running w), tick w)
unfolding Tick.count_downloading Store.list_jobs statement
count_downloading_lem env w q =
    rw (q w.steps, statement)
      (ap (λ n. (ok n, tick w))
        (length-keep_if (Store.shown (status_text downloading) false) w.db.jobs
          ∙ count-ext _ is_running shown-downloading w.db.jobs))

-- Starting one job adds one running download at most.
resolve_and_start-running :
    (r : Runner) (j : Job) (env : Env) (w : World)
    → IsConsistent w.db
    → running (resolve_and_start r j env w).1 ≤ running w + 1
resolve_and_start-running r j env w h =
    let others : ℕ = count_if (is_other j.id is_running) w.db.jobs in
    let w' : World = (resolve_and_start r j env w).1 in
    let kept : count_if (is_other j.id is_running) w'.db.jobs ≤ others =
      (resolve_and_start-Keeps j (start-is_running others j.id) r).at env w (omega arith) in
    omega (
      arith,
      kept,
      count-is_other_le is_running j.id w.db.jobs,
      count-is_other is_running j.id (suc w'.db.job_seq) w'.db.jobs
          ((resolve_and_start-Safe r j).at env w h).job_ids,
    )

abbrev Bounded : ℕ → M (Unit {0}) → Env → World → Type 0
Bounded c m env w = running (m env w).1 ≤ c

-- What the rest of the loop does from a state with the right count.
abbrev RestBounded : ℕ → (ℕ → M (Unit {0})) → Env → Type 0
RestBounded c rest env =
    (w : World) → IsConsistent w.db → running w ≤ c → Bounded c (rest (running w)) env w

counted-Bounded :
    (c : ℕ) (rest : ℕ → M (Unit {0})) (env : Env) (w : World)
    → Quiet env
    → RestBounded c rest env
    → IsConsistent w.db
    → running w ≤ c
    → Bounded c (Tick.count_downloading >>= rest) env w
counted-Bounded c rest env w q next h le = rw (count_downloading_lem env w q) (next (tick w) h le)

start_claimed-Bounded :
    (r : Runner) (c : ℕ) (rest : ℕ → M (Unit {0})) (claimed : Result Job) (env : Env) (w : World)
    → Quiet env
    → RestBounded c rest env
    → IsConsistent w.db
    → running w < c
    → Bounded c (Tick.start_claimed r rest claimed) env w
start_claimed-Bounded r c rest (err e) env w q next h lt = omega arith
start_claimed-Bounded r c rest (ok j) env w q next h lt =
    counted-Bounded c rest env (resolve_and_start r j env w).1 q next
      ((resolve_and_start-Safe r j).at env w h)
      (omega (arith, resolve_and_start-running r j env w h))

start_round-Bounded :
    (r : Runner) (c : ℕ) (rest : ℕ → M (Unit {0})) (b : Bool) (env : Env) (w : World)
    → Quiet env
    → RestBounded c rest env
    → IsConsistent w.db
    → running w ≤ c
    → (b ≡ true → running w < c)
    → Bounded c (Tick.start_round r rest b) env w
unfolding Tick.start_round
start_round-Bounded r c rest false env w q next h le room = le
start_round-Bounded r c rest true env w q next h le room =
    start_claimed-Bounded r c rest (claim_next_queued env w).0 env (claim_next_queued env w).1 q
      next (claim_next_queued-Safe.at env w h)
      (omega (arith, room refl, (claim-is_running (running w)).at env w (omega arith)))

-- From consistent tables and an exact count, the loop that starts jobs leaves no more running
-- downloads than the larger of the limit and the number that it found, if the database answers at
-- every step and the setting never exceeds the limit meanwhile.
pub start_jobs_bounded :
    (r : Runner) (c n : ℕ) (env : Env) (w : World)
    → Quiet env
    → ((k : ℕ) → concurrency_at r k ≤ c)
    → IsConsistent w.db
    → running w ≤ c
    → running (Tick.start_jobs r n (running w) env w).1 ≤ c
unfolding Tick.start_jobs
start_jobs_bounded r c zero env w q limit h le = le
start_jobs_bounded r c (suc n) env w q limit h le =
    start_round-Bounded r c (Tick.start_jobs r n) _ env (tick w) q
      (λ w' h' le'. start_jobs_bounded r c n env w' q limit h' le') h le
      (λ room. omega (arith, limit w.steps, ltb→lt (running w) _ room))
