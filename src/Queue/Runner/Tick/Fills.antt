-- ===== src/Queue/Runner/Tick/Fills.antt =====
-- The loop of a tick starts jobs while there are queued ones and there is room, as long as the
-- database answers.
use dlq_download_queue.Prelude.{
  ℕ, zero, suc, ◌≤◌, ◌<◌, Bool, true, false, ◌≡◌, refl, ◌∙◌, ap, ◌⊎◌, inl, inr, count_if, arith,
  ltb, length,
}
use dlq_download_queue.Go.Error.{Error, Result, ok, err}
use dlq_download_queue.Queue.Job.{Job}
use dlq_download_queue.Queue.World.{◌>>=◌, Db, World, Env, M, tick, Quiet, CommitsOrNot}
use dlq_download_queue.Queue.Store.Claim.{claim_next_queued}
use dlq_download_queue.Queue.Store.Claim.Atomic.{claim_error_unchanged}
use dlq_download_queue.Queue.Store.Claim.Drops.{claim_next_queued-Drops}
use dlq_download_queue.Queue.Store.Claim.Empty.{claim_next_queued-empty}
use dlq_download_queue.Queue.Count.{is_queued}
use dlq_download_queue.Queue.Count.Store.{start-is_queued}
use dlq_download_queue.Queue.Consistent.{IsConsistent}
use dlq_download_queue.Queue.Consistent.Store.{claim_next_queued-Safe}
use dlq_download_queue.Queue.Consistent.Runner.Start.{resolve_and_start-Safe}
use dlq_download_queue.Queue.Runner.{Runner, concurrency_at}
use dlq_download_queue.Queue.Runner.Start.{resolve_and_start}
use dlq_download_queue.Queue.Runner.Start.Keeps.{resolve_and_start-Keeps}
use dlq_download_queue.Queue.Runner.Tick
use dlq_download_queue.Queue.Runner.Tick.Bound.{running, count_downloading_lem}
use dlq_download_queue.Queue.Runner.Tick.Ends.{queue_length, count_le_length}
use dlq_download_queue.Queue.Runner.Active.{update_active, dispatch_completed_decrypt}
use dlq_download_queue.Queue.Consistent.Runner.Active.{
  update_active-Safe, dispatch_completed_decrypt-Safe,
}
use dlq_download_queue.Queue.Consistent.Runner.Tick.{requeue_failed-Safe}

-- Downloads run up to the limit, or the queue is empty.
abbrev pub Filled : ℕ → World → Type 0
Filled c w = (c ≤ running w) ⊎ (queue_length w ≡ 0)

abbrev Fills : ℕ → M (Unit {0}) → Env → World → Type 0
Fills c m env w = Filled c (m env w).1

-- What the rest of the loop does from consistent tables, the right count and a shorter queue.
abbrev RestFills : ℕ → ℕ → (ℕ → M (Unit {0})) → Env → Type 0
RestFills c n rest env =
    (w : World) → IsConsistent w.db → queue_length w < n → Fills c (rest (running w)) env w

counted-Fills :
    (c n : ℕ) (rest : ℕ → M (Unit {0})) (env : Env) (w : World)
    → Quiet env
    → RestFills c n rest env
    → IsConsistent w.db
    → queue_length w < n
    → Fills c (Tick.count_downloading >>= rest) env w
counted-Fills c n rest env w q next h lt = rw (count_downloading_lem env w q) (next (tick w) h lt)

start_claimed-Fills :
    (r : Runner) (c n : ℕ) (rest : ℕ → M (Unit {0})) (claimed : Result Job) (env : Env) (w : World)
    → Quiet env
    → RestFills c n rest env
    → IsConsistent w.db
    → ((e : Error) → claimed ≡ err e → queue_length w ≡ 0)
    → ((j : Job) → claimed ≡ ok j → queue_length w < n)
    → Fills c (Tick.start_claimed r rest claimed) env w
start_claimed-Fills r c n rest (err e) env w q next h empty short = inr (empty e refl)
start_claimed-Fills r c n rest (ok j) env w q next h empty short =
    counted-Fills c n rest env (resolve_and_start r j env w).1 q next
      ((resolve_and_start-Safe r j).at env w h)
      (omega (
        arith,
        short j refl,
        (resolve_and_start-Keeps j (start-is_queued (queue_length w) j.id) r).at env w,
      ))

Quiet-CommitsOrNot : (env : Env) → Quiet env → CommitsOrNot env
Quiet-CommitsOrNot env q n t e = let answered = q n in absurd cc

-- A claim that fails leaves the queue as it was, which is empty.
claim-empty :
    (env : Env) (w : World) (e : Error)
    → Quiet env
    → IsConsistent w.db
    → (claim_next_queued env w).0 ≡ err e
    → queue_length (claim_next_queued env w).1 ≡ 0
claim-empty env w e q h failed =
    ap (λ (db : Db). count_if is_queued db.jobs)
      (claim_error_unchanged env w (Quiet-CommitsOrNot env q) failed)
    ∙ claim_next_queued-empty env w q h failed

start_round-Fills :
    (r : Runner) (c n : ℕ) (rest : ℕ → M (Unit {0})) (b : Bool) (env : Env) (w : World)
    → Quiet env
    → RestFills c n rest env
    → IsConsistent w.db
    → queue_length w < suc n
    → (b ≡ false → c ≤ running w)
    → Fills c (Tick.start_round r rest b) env w
unfolding Tick.start_round
start_round-Fills r c n rest false env w q next h lt full = inl (full refl)
start_round-Fills r c n rest true env w q next h lt full =
    start_claimed-Fills r c n rest (claim_next_queued env w).0 env (claim_next_queued env w).1 q
      next (claim_next_queued-Safe.at env w h) (λ e failed. claim-empty env w e q h failed)
      (λ j e. omega (arith, claim_next_queued-Drops env w j e))

no_room : (a limit : ℕ) → ltb a limit ≡ false → limit ≤ a
no_room a limit h = ground arith

start_jobs_fills :
    (r : Runner) (c n : ℕ) (env : Env) (w : World)
    → Quiet env
    → ((k : ℕ) → c ≤ concurrency_at r k)
    → IsConsistent w.db
    → queue_length w < n
    → Filled c (Tick.start_jobs r n (running w) env w).1
unfolding Tick.start_jobs
start_jobs_fills r c zero env w q limit h lt = absurd (omega arith)
start_jobs_fills r c (suc n) env w q limit h lt =
    start_round-Fills r c n (Tick.start_jobs r n) _ env (tick w) q
      (λ w' h' lt'. start_jobs_fills r c n env w' q limit h' lt') h lt
      (λ full. omega (arith, limit w.steps, no_room (running w) _ full))

start_all-Fills :
    (r : Runner) (c : ℕ) (env : Env) (w : World)
    → Quiet env
    → ((k : ℕ) → c ≤ concurrency_at r k)
    → IsConsistent w.db
    → Fills c (Tick.start_all r (running w)) env w
unfolding Tick.start_all
start_all-Fills r c env w q limit h =
    start_jobs_fills r c (suc (length w.db.jobs)) env w q limit h
      (omega (arith, count_le_length is_queued w.db.jobs))

counted_all-Fills :
    (r : Runner) (c : ℕ) (env : Env) (w : World)
    → Quiet env
    → ((k : ℕ) → c ≤ concurrency_at r k)
    → IsConsistent w.db
    → Fills c (Tick.count_downloading >>= Tick.start_all r) env w
counted_all-Fills r c env w q limit h =
    rw (count_downloading_lem env w q) (start_all-Fills r c env (tick w) q limit h)

-- What a tick does before it counts the running downloads.
abbrev before_count : Runner → Env → World → World
before_count r env w =
    (Tick.requeue_failed env (dispatch_completed_decrypt r env (update_active r env w).1).1).1

-- The tables before the running downloads are counted.
before_count-IsConsistent :
    (r : Runner) (env : Env) (w : World)
    → IsConsistent w.db
    → IsConsistent (before_count r env w).db
before_count-IsConsistent r env w h =
    requeue_failed-Safe.at env _
      ((dispatch_completed_decrypt-Safe r).at env _ ((update_active-Safe r).at env w h))

-- Where the database answers at every step and the setting of concurrency is at least c at any
-- moment, after a tick from consistent tables at least c downloads run, or no queued job is left.
pub tick_fills :
    (r : Runner) (c : ℕ) (env : Env) (w : World)
    → Quiet env
    → ((k : ℕ) → c ≤ concurrency_at r k)
    → IsConsistent w.db
    → Filled c (Tick.tick r env w).1
unfolding Tick.tick
tick_fills r c env w q limit h =
    counted_all-Fills r c env (before_count r env w) q limit (before_count-IsConsistent r env w h)
