-- ===== src/Queue/Consistent/Runner/Tick.antt =====
-- A tick keeps the tables consistent.
use dlq_download_queue.Queue.World.Keeps.{Keeps-bind, Keeps-attempt}
use dlq_download_queue.Prelude.{ℕ, zero, suc, Bool, true, false, List, [], ◌∷◌}
use dlq_download_queue.Go.Error.{Result, ok, err}
use dlq_download_queue.Queue.Job.{Job}
use dlq_download_queue.Queue.World.{M}
use dlq_download_queue.Queue.Consistent.Marks.{Safe, requeue-Safe}
use dlq_download_queue.Queue.Consistent.Store.{store_rules}
use dlq_download_queue.Queue.Consistent.Runner.Start.{resolve_and_start-Safe}
use dlq_download_queue.Queue.Consistent.Runner.Active.{
  update_active-Safe, dispatch_completed_decrypt-Safe,
}
use dlq_download_queue.Queue.Runner.{Runner}
use dlq_download_queue.Queue.Runner.Tick

requeued-Safe : (id : ℕ) (r : Result (Unit {0})) → Safe (Tick.requeued id r)
requeued-Safe id (ok _) = search store_rules
requeued-Safe id (err e) = search store_rules

requeue_all-Safe : (ids : List ℕ) → Safe (Tick.requeue_all ids)
unfolding Tick.requeue_all
requeue_all-Safe [] = search store_rules
requeue_all-Safe (id ∷ ids) =
    Keeps-bind _ _ (Keeps-attempt _ (requeue-Safe id))
      (λ done. Keeps-bind _ _ (requeued-Safe id done) (λ _. requeue_all-Safe ids))

pub requeue_failed-Safe : Safe Tick.requeue_failed
unfolding Tick.requeue_failed
requeue_failed-Safe = search (store_rules, requeue_all-Safe)

count_downloading-Safe : Safe Tick.count_downloading
unfolding Tick.count_downloading
count_downloading-Safe = search store_rules

start_claimed-Safe :
    (r : Runner) (rest : ℕ → M (Unit {0})) (c : Result Job)
    → ((n : ℕ) → Safe (rest n))
    → Safe (Tick.start_claimed r rest c)
start_claimed-Safe r rest (err e) h = search store_rules
start_claimed-Safe r rest (ok j) h =
    search (store_rules, resolve_and_start-Safe, count_downloading-Safe)

start_round-Safe :
    (r : Runner) (rest : ℕ → M (Unit {0})) (b : Bool)
    → ((n : ℕ) → Safe (rest n))
    → Safe (Tick.start_round r rest b)
unfolding Tick.start_round
start_round-Safe r rest false h = search store_rules
start_round-Safe r rest true h = search (store_rules, start_claimed-Safe)

start_jobs-Safe : (r : Runner) (n active : ℕ) → Safe (Tick.start_jobs r n active)
unfolding Tick.start_jobs
start_jobs-Safe r zero active = search store_rules
start_jobs-Safe r (suc n) active = search (store_rules, start_round-Safe, start_jobs-Safe r n)

rounds-Safe : Safe Tick.rounds
unfolding Tick.rounds
rounds-Safe = record { at = λ env w h. h }

start_all-Safe : (r : Runner) (active : ℕ) → Safe (Tick.start_all r active)
unfolding Tick.start_all
start_all-Safe r active = search (store_rules, rounds-Safe, start_jobs-Safe)

pub tick-Safe : (r : Runner) → Safe (Tick.tick r)
unfolding Tick.tick
tick-Safe r =
    search
      (
        store_rules, update_active-Safe, dispatch_completed_decrypt-Safe, requeue_failed-Safe,
        count_downloading-Safe, start_all-Safe,
      )
      depth 9
