-- ===== src/Queue/Runner/Tick/Ends.antt =====
-- The loop of a tick ends: each round that starts a job takes a row off the queue.
use dlq_download_queue.Prelude.{
  ℕ, zero, suc, ◌≤◌, ◌<◌, Bool, true, false, ◌≡◌, refl, count_if, arith, List, [], ◌∷◌, length,
}
use dlq_download_queue.Go.Error.{Result, ok, err}
use dlq_download_queue.Queue.Job.{Job}
use dlq_download_queue.Queue.World.{Db, World, Env, M, ignore, tick}
use dlq_download_queue.Queue.World.Keeps.{Keeps, keeps_rules}
use dlq_download_queue.Queue.Store.Claim.{claim_next_queued}
use dlq_download_queue.Queue.Store.Claim.Drops.{claim_next_queued-Drops}
use dlq_download_queue.Queue.Count.{AtMost, is_queued}
use dlq_download_queue.Queue.Count.Store.{start-is_queued}
use dlq_download_queue.Queue.Runner.{Runner}
use dlq_download_queue.Queue.Runner.Start.{resolve_and_start}
use dlq_download_queue.Queue.Runner.Start.Keeps.{resolve_and_start-Keeps, list_jobs-Keeps}
use dlq_download_queue.Queue.Runner.Tick

abbrev pub queue_length : World → ℕ
queue_length w = count_if is_queued w.db.jobs

count_downloading-Keeps : {P : Db → Type 0} → Keeps P Tick.count_downloading
unfolding Tick.count_downloading
count_downloading-Keeps = search (keeps_rules, list_jobs-Keeps)

abbrev Ends : M (Unit {0}) → Env → World → Type 0
Ends m env w = (m env w).0 ≡ ok tt

start_claimed-Ends :
    (r : Runner) (rest : ℕ → M (Unit {0})) (n : ℕ) (c : Result Job) (env : Env) (w : World)
    → ((j : Job) → c ≡ ok j → queue_length w < n)
    → ((active : ℕ) (w' : World) → queue_length w' < n → Ends (rest active) env w')
    → Ends (Tick.start_claimed r rest c) env w
unfolding Tick.count_downloading
start_claimed-Ends r rest n (err e) env w short next = refl
start_claimed-Ends r rest n (ok j) env w short next = next _ _ (
    omega (
      arith,
      short j refl,
      (resolve_and_start-Keeps j (start-is_queued (queue_length w) j.id) r).at env w,
      (count_downloading-Keeps {P = AtMost is_queued (queue_length w)}).at env
          (ignore (resolve_and_start r j) env w).1,
    ))

start_round-Ends :
    (r : Runner) (rest : ℕ → M (Unit {0})) (n : ℕ) (b : Bool) (env : Env) (w : World)
    → queue_length w < suc n
    → ((active : ℕ) (w' : World) → queue_length w' < n → Ends (rest active) env w')
    → Ends (Tick.start_round r rest b) env w
unfolding Tick.start_round
start_round-Ends r rest n false env w h next = refl
start_round-Ends r rest n true env w h next =
    start_claimed-Ends r rest n (claim_next_queued env w).0 env (claim_next_queued env w).1
      (λ j e. omega (arith, claim_next_queued-Drops env w j e)) next

start_jobs-Ends :
    (r : Runner) (n active : ℕ) (env : Env) (w : World)
    → queue_length w < n
    → Ends (Tick.start_jobs r n active) env w
unfolding Tick.start_jobs
start_jobs-Ends r zero active env w h = absurd (omega arith)
start_jobs-Ends r (suc n) active env w h =
    start_round-Ends r (Tick.start_jobs r n) n _ env (tick w) h
      (λ active' w' h'. start_jobs-Ends r n active' env w' h')

pub count_le_length : (q : Job → Bool) (jobs : List Job) → count_if q jobs ≤ length jobs
count_le_length q [] = omega arith
count_le_length q (j ∷ jobs) = ground (arith, count_le_length q jobs)

start_all-Ends :
    (r : Runner) (active : ℕ) (env : Env) (w : World) → Ends (Tick.start_all r active) env w
unfolding Tick.start_all
start_all-Ends r active env w =
    start_jobs-Ends r (suc (length w.db.jobs)) active env w
      (omega (arith, count_le_length is_queued w.db.jobs))

-- A tick returns without an error and never runs out of the rounds that its loop is given, whatever
-- the database, aria2, the resolvers and the settings answer at each step.
pub tick_ends : (r : Runner) (env : Env) (w : World) → (Tick.tick r env w).0 ≡ ok tt
unfolding Tick.tick
tick_ends r env w = start_all-Ends r _ env _
