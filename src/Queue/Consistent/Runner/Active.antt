-- ===== src/Queue/Consistent/Runner/Active.antt =====
-- updateActive and dispatchCompletedDecrypt keep the tables consistent.
use dlq_download_queue.Queue.World.Keeps.{Keeps-bind}
use dlq_download_queue.Prelude.{ℕ, Bool, true, Option, none, some, List, [], ◌∷◌, ℤ}
use dlq_download_queue.Go.Strings.{Text}
use dlq_download_queue.Go.Error.{Error, Result, ok, err}
use dlq_download_queue.Queue.Job.{Job, completed, downloading}
use dlq_download_queue.Queue.Engine.{EngineStatus}
use dlq_download_queue.Queue.Consistent.Marks.{Safe, update_progress-Safe}
use dlq_download_queue.Queue.Consistent.Store.{store_rules}
use dlq_download_queue.Queue.Consistent.Runner.Decrypt.{
  build_decrypt_task-Safe, schedule_decrypt-Safe, auto_decrypt_enabled-Safe,
}
use dlq_download_queue.Queue.Runner.{Runner}
use dlq_download_queue.Queue.Runner.Decrypt.{Plan}
use dlq_download_queue.Queue.Runner.Active
use dlq_download_queue.Queue.Store.Marks

postprocess_failed-Safe : (id : ℕ) (msg : Text) → Safe (Active.postprocess_failed id msg)
postprocess_failed-Safe id msg = search store_rules

decrypting_marked-Safe :
    (id : ℕ) (p : Plan) (r : Result (Unit {0})) → Safe (Active.decrypting_marked id p r)
decrypting_marked-Safe id p (err e) = search store_rules
decrypting_marked-Safe id p (ok _) = search (store_rules, schedule_decrypt-Safe)

queue_decrypt_from_status-Safe :
    (r : Runner) (j : Job) (st : EngineStatus) (bytes : ℤ)
    → Safe (Active.queue_decrypt_from_status r j st bytes)
unfolding Active.queue_decrypt_from_status
queue_decrypt_from_status-Safe r j st bytes =
    search (store_rules, build_decrypt_task-Safe, decrypting_marked-Safe, postprocess_failed-Safe)
      depth 8

completed_progress-Safe :
    (id : ℕ) (bytes speed eta : ℤ) → Safe (Marks.update_progress id bytes completed speed eta)
completed_progress-Safe id bytes speed eta =
    update_progress-Safe id bytes completed speed eta (λ e. cc) (λ e. cc)

finish_download-Safe : (id : ℕ) (bytes : ℤ) → Safe (Active.finish_download id bytes)
finish_download-Safe id bytes = search (store_rules, completed_progress-Safe)

engine_failed-Safe : (id : ℕ) (msg : Text) → Safe (Active.engine_failed id msg)
engine_failed-Safe id msg = search store_rules

downloading_progress-Safe :
    (id : ℕ) (bytes speed eta : ℤ) → Safe (Marks.update_progress id bytes downloading speed eta)
downloading_progress-Safe id bytes speed eta =
    update_progress-Safe id bytes downloading speed eta (λ e. cc) (λ e. cc)

follow_status-Safe : (r : Runner) (j : Job) (st : EngineStatus) → Safe (Active.follow_status r j st)
unfolding Active.follow_status
follow_status-Safe r j st =
    search
      (
        store_rules, queue_decrypt_from_status-Safe, finish_download-Safe, engine_failed-Safe,
        downloading_progress-Safe,
      )
      depth 8

gid_lost-Safe : (id : ℕ) (e : Error) → Safe (Active.gid_lost id e)
gid_lost-Safe id e = search store_rules

told-Safe : (r : Runner) (j : Job) (st : Result EngineStatus) → Safe (Active.told r j st)
told-Safe r j (ok st) = follow_status-Safe r j st
told-Safe r j (err e) = search (store_rules, gid_lost-Safe)

follow_gid-Safe : (r : Runner) (j : Job) (gid : Option Text) → Safe (Active.follow_gid r j gid)
follow_gid-Safe r j none = search store_rules
follow_gid-Safe r j (some gid) = search (store_rules, told-Safe)

follow_job-Safe : (r : Runner) (j : Job) → Safe (Active.follow_job r j)
unfolding Active.follow_job
follow_job-Safe r j = follow_gid-Safe r j j.engine_gid

follow_all-Safe : (r : Runner) (jobs : List Job) → Safe (Active.follow_all r jobs)
unfolding Active.follow_all
follow_all-Safe r [] = search store_rules
follow_all-Safe r (j ∷ jobs) = Keeps-bind _ _ (follow_job-Safe r j) (λ _. follow_all-Safe r jobs)

pub update_active-Safe : (r : Runner) → Safe (Active.update_active r)
unfolding Active.update_active
update_active-Safe r = search (store_rules, follow_all-Safe)

nothing_to_do-Safe : (j : Job) → Safe (Active.nothing_to_do j)
nothing_to_do-Safe j = search store_rules depth 8

wait_or_schedule-Safe : (j : Job) (p : Plan) (b : Bool) → Safe (Active.wait_or_schedule j p b)
wait_or_schedule-Safe j p b = search (store_rules, schedule_decrypt-Safe)

dispatch_marked-Safe :
    (j : Job) (p : Plan) (r : Result (Unit {0})) → Safe (Active.dispatch_marked j p r)
dispatch_marked-Safe j p (err e) = search store_rules
dispatch_marked-Safe j p (ok _) = wait_or_schedule-Safe j p true

dispatch_plan-Safe : (j : Job) (p : Plan) → Safe (Active.dispatch_plan j p)
dispatch_plan-Safe j p =
    search
      (
        store_rules, nothing_to_do-Safe, postprocess_failed-Safe, wait_or_schedule-Safe,
        dispatch_marked-Safe,
      )
      depth 8

dispatch_job-Safe : (r : Runner) (j : Job) → Safe (Active.dispatch_job r j)
unfolding Active.dispatch_job
dispatch_job-Safe r j =
    search (store_rules, auto_decrypt_enabled-Safe, build_decrypt_task-Safe, dispatch_plan-Safe)

dispatch_all-Safe : (r : Runner) (jobs : List Job) → Safe (Active.dispatch_all r jobs)
unfolding Active.dispatch_all
dispatch_all-Safe r [] = search store_rules
dispatch_all-Safe r (j ∷ jobs) =
    Keeps-bind _ _ (dispatch_job-Safe r j) (λ _. dispatch_all-Safe r jobs)

pub dispatch_completed_decrypt-Safe : (r : Runner) → Safe (Active.dispatch_completed_decrypt r)
unfolding Active.dispatch_completed_decrypt
dispatch_completed_decrypt-Safe r = search (store_rules, dispatch_all-Safe)
