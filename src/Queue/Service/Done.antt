-- ===== src/Queue/Service/Done.antt =====
-- internal/queue/service.go: what a request that returned without an error has done to its job.
use dlq_download_queue.Queue.Store.Rows.{RowsOf, RowsOf-update_rows}
use dlq_download_queue.Queue.Store.Events.{add_event-Keeps}
use dlq_download_queue.Queue.Service.{
  pause_engine, pause_answer, paused_with, Service, resume_requeue, unpaused, resume_engine,
  retry_decrypt, attempt, retry_download, request, drop_engine_task, is_webshare_job,
  resume_webshare,
}
use dlq_download_queue.Queue.Engine.{Downloader}
use dlq_download_queue.Go.Error.{ok, Result, err}
use dlq_download_queue.Go.Strings.{Text, codes}
use dlq_download_queue.Queue.World.Does.{
  Does, Does-then, Does-statement, Does-both, Does-first, Does-exec, Does-fail, Does-if,
}
use dlq_download_queue.Queue.Store.Marks.{update_rows, update_job, update_where}
use dlq_download_queue.Queue.Store.{has_id, insert_event, add_event}
use dlq_download_queue.Queue.World.{Db, now, ◌>>◌, Env, World}
use dlq_download_queue.Queue.Job.{
  Job, Level, paused, deleted, queued, is_live, downloading, decrypting, info, same_status,
  decrypt_failed,
}
use dlq_download_queue.Queue.Store.Marks
use dlq_download_queue.Queue.Store
use dlq_download_queue.Queue.Service
use dlq_download_queue.Queue.World
use dlq_download_queue.Prelude.{
  refl, ℕ, true, false, ◌≡◌, Option, none, some, inl, inr, any_of, arith, ◌⊎◌, pos,
}

-- The tables have a row of the id, and `R` holds of every row of the id.
abbrev pub Shows : ℕ → (Job → Type 0) → Db → Type 0
Shows id R db = (any_of (has_id id) db.jobs ≡ true) × RowsOf id R db.jobs

module _ (id : ℕ) (R : Job → Type 0) where
  update_job-Does :
      (f : ℕ → Job → Job)
      → ((at : ℕ) (j : Job) → R (f at j))
      → Does (λ db. RowsOf id R db.jobs) (update_job id f)
  unfolding update_job
  update_job-Does f r = Does-then now _ (λ at.
      Does-exec (update_where (has_id id) (f at))
        (λ db. RowsOf-update_rows id R (f at) db.jobs (r at)))

  insert_event-known :
      (at : ℕ) (level : Level) (message : Text) (db : Db) (a : Unit {0})
      → (insert_event at id level message db).0 ≡ ok a
      → any_of (has_id id) (insert_event at id level message db).1.jobs ≡ true
  unfolding insert_event
  insert_event-known at level message db a h = ground arith

  -- An update of the row and the event behind it.
  marked-Shows :
      (f : ℕ → Job → Job) (level : Level) (message : Text)
      → ((at : ℕ) (j : Job) → R (f at j))
      → Does (Shows id R) (update_job id f >> add_event id level message)
  unfolding add_event
  marked-Shows f level message r =
      Does-both _
        (Does-then _ _ (λ _. Does-then now _ (λ at.
          Does-statement (insert_event at id level message) (insert_event-known at level message))))
        (Does-first _ _ (update_job-Does f r) (λ _. record {
          at = λ env w h. rw ((add_event-Keeps w.db.jobs id level message).at env w refl) h;
        }))

abbrev pub Paused : Job → Type 0
Paused j = j.status ≡ paused

abbrev pub Removed : Job → Type 0
Removed j = (j.status ≡ deleted) × (is_live j ≡ false)

-- Waiting for the next tick, with no task in aria2, no error and no bytes done.
abbrev Requeued : Job → Type 0
Requeued j =
    (j.status ≡ queued) × ((j.engine_gid ≡ none) × ((j.error ≡ none) × (j.bytes_done ≡ pos 0)))

abbrev pub Resumed : Job → Type 0
Resumed j = Requeued j ⊎ (j.status ≡ downloading)

abbrev pub Retried : Job → Type 0
Retried j = Requeued j ⊎ (j.status ≡ decrypting)

paused_with-Shows : (id : ℕ) (message : Text) → Does (Shows id Paused) (paused_with id message)
unfolding Marks.mark_paused Marks.set_status_row
paused_with-Shows id message =
    marked-Shows id Paused (Marks.set_status_row paused) info message (λ at j. refl)

pause_engine-Shows :
    (d : Option Downloader) (id : ℕ) (message : Text) (gid : Option Text)
    → Does (Shows id Paused) (pause_engine d id message gid)
pause_engine-Shows none id message gid = Does-fail _
pause_engine-Shows (some d) id message none = Does-fail _
pause_engine-Shows (some d) id message (some gid) =
    Does-then (attempt (request (World.pause gid) (d.pause gid))) _ answer
  where
    answer : (r : Result (Unit {0})) → Does (Shows id Paused) (pause_answer id message r)
    answer (ok _) = paused_with-Shows id message
    answer (err e) = Does-fail _

-- A pause that returns without an error, whatever aria2 answered, leaves the job in the table with
-- the status paused.
pub pause-Shows :
    (s : Service) (id : ℕ) (env : Env) (w : World)
    → (Service.pause s id env w).0 ≡ ok tt
    → Shows id Paused (Service.pause s id env w).1.db
unfolding Service.pause
pause-Shows s id env w =
    (Does-then (Store.get_job id) _ (λ (j : Job).
        Does-if _ _ _ (paused_with-Shows id _)
          (pause_engine-Shows s.downloader id _ j.engine_gid))).at
      env w tt

-- A removal that returns without an error leaves the job in the table, marked deleted and hidden.
pub remove-Shows :
    (s : Service) (id : ℕ) (env : Env) (w : World)
    → (Service.remove s id env w).0 ≡ ok tt
    → Shows id Removed (Service.remove s id env w).1.db
unfolding Service.remove Marks.remove Marks.remove_row
remove-Shows s id env w =
    (Does-then (Store.get_job id) _ (λ (j : Job). Does-then _ _ (λ _.
        marked-Shows id Removed Marks.remove_row info (codes "removed") (λ at k. (refl, refl))))).at
      env w tt

requeue-Shows :
    (id : ℕ) (R : Job → Type 0) (message : Text)
    → ((j : Job) → Requeued j → R j)
    → Does (Shows id R) (Marks.requeue id >> Store.add_event id info message)
unfolding Marks.requeue Marks.requeue_row
requeue-Shows id R message weaken =
    marked-Shows id R Marks.requeue_row info message
      (λ at k. weaken (Marks.requeue_row at k) (refl, (refl, (refl, refl))))

resume_requeue-Shows : (id : ℕ) → Does (Shows id Resumed) (resume_requeue id)
resume_requeue-Shows id = requeue-Shows id Resumed _ (λ j q. inl q)

unpaused-Shows : (id : ℕ) (r : Result (Unit {0})) → Does (Shows id Resumed) (unpaused id r)
unfolding Marks.mark_downloading_status Marks.set_status_row
unpaused-Shows id (ok _) =
    marked-Shows id Resumed (Marks.set_status_row downloading) info (codes "resumed")
      (λ at j. inr refl)
unpaused-Shows id (err e) = Does-if _ _ _ (resume_requeue-Shows id) (Does-fail _)

resume_engine-Shows :
    (d : Option Downloader) (id : ℕ) (gid : Option Text)
    → Does (Shows id Resumed) (resume_engine d id gid)
resume_engine-Shows none id gid = Does-fail _
resume_engine-Shows (some d) id none = resume_requeue-Shows id
resume_engine-Shows (some d) id (some gid) =
    Does-then (attempt (request (World.unpause gid) (d.unpause gid))) _ (unpaused-Shows id)

-- A resumption that returns without an error leaves the job in the table, downloading, or queued
-- anew with no task in aria2, no error and no bytes done.
pub resume-Shows :
    (s : Service) (id : ℕ) (env : Env) (w : World)
    → (Service.resume s id env w).0 ≡ ok tt
    → Shows id Resumed (Service.resume s id env w).1.db
unfolding Service.resume
resume-Shows s id env w =
    (Does-then (Store.get_job id) _ (λ (j : Job).
        Does-if (is_webshare_job s.host j.site j.url) (resume_webshare s id j)
          (resume_engine s.downloader id j.engine_gid)
          (Does-then (drop_engine_task s.downloader j.engine_gid) _ (λ _. resume_requeue-Shows id))
          (resume_engine-Shows s.downloader id j.engine_gid))).at
      env w tt

retry_decrypt-Shows : (id : ℕ) (j : Job) → Does (Shows id Retried) (retry_decrypt id j)
unfolding Marks.mark_decrypting_retry Marks.mark_decrypting_retry_row
retry_decrypt-Shows id j =
    marked-Shows id Retried (Marks.mark_decrypting_retry_row j.bytes_done) info
      (codes "retry decrypt queued") (λ at k. inr refl)

retry_download-Shows :
    (s : Service) (id : ℕ) (j : Job) → Does (Shows id Retried) (retry_download s id j)
retry_download-Shows s id j =
    Does-then (drop_engine_task s.downloader j.engine_gid) _
      (λ _. requeue-Shows id Retried (codes "retried") (λ k q. inl q))

-- A retry that returns without an error leaves the job in the table, queued anew with no task in
-- aria2, no error and no bytes done, or decrypting.
pub retry-Shows :
    (s : Service) (id : ℕ) (env : Env) (w : World)
    → (Service.retry s id env w).0 ≡ ok tt
    → Shows id Retried (Service.retry s id env w).1.db
unfolding Service.retry
retry-Shows s id env w =
    (Does-then (Store.get_job id) _ (λ (j : Job).
        Does-if (same_status j.status decrypt_failed) (retry_decrypt id j) (retry_download s id j)
          (retry_decrypt-Shows id j) (retry_download-Shows s id j))).at
      env w tt
