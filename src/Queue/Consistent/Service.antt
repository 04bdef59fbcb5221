-- ===== src/Queue/Consistent/Service.antt =====
-- Every method of the service keeps the tables consistent, whatever aria2 answers and whichever
-- statements fail.
use dlq_download_queue.Prelude.{ℕ, ℤ, Option, none, some}
use dlq_download_queue.Go.Strings.{Text}
use dlq_download_queue.Go.Error.{Result, ok, err}
use dlq_download_queue.Queue.Job.{Job}
use dlq_download_queue.Queue.Engine.{Downloader}
use dlq_download_queue.Queue.Consistent.Marks.{Safe}
use dlq_download_queue.Queue.Consistent.Store.{store_rules}
use dlq_download_queue.Queue.Service
use dlq_download_queue.Queue.Service.{Service}

lift-Safe : {A : Type 0} (r : Result A) → Safe (Service.lift r)
lift-Safe r = record { at = λ env w h. h }

removed-Safe : (r : Result (Unit {0})) → Safe (Service.removed r)
removed-Safe (ok _) = search store_rules
removed-Safe (err e) = search store_rules

remove_engine_task-Safe :
    (d : Option Downloader) (gid : Text) → Safe (Service.remove_engine_task d gid)
unfolding Service.remove_engine_task
remove_engine_task-Safe none gid = search store_rules
remove_engine_task-Safe (some d) gid = search (store_rules, removed-Safe)

drop_engine_task-Safe :
    (d : Option Downloader) (gid : Option Text) → Safe (Service.drop_engine_task d gid)
unfolding Service.drop_engine_task
drop_engine_task-Safe d none = search store_rules
drop_engine_task-Safe d (some gid) = remove_engine_task-Safe d gid

ruleset service_rules = (store_rules, lift-Safe, drop_engine_task-Safe)

pub create_job-Safe :
    (s : Service) (url out_dir name site password : Text) (max : ℤ)
    → Safe (Service.create_job s url out_dir name site password max)
unfolding Service.create_job
create_job-Safe s url out_dir name site password max = search service_rules depth 12

pub retry-Safe : (s : Service) (id : ℕ) → Safe (Service.retry s id)
unfolding Service.retry
retry-Safe s id = search service_rules depth 9

pub remove-Safe : (s : Service) (id : ℕ) → Safe (Service.remove s id)
unfolding Service.remove
remove-Safe s id = search service_rules depth 9

pub clear-Safe : Safe Service.clear
unfolding Service.clear
clear-Safe = search store_rules

pub purge-Safe : Safe Service.purge
unfolding Service.purge
purge-Safe = search store_rules

paused_with-Safe : (id : ℕ) (message : Text) → Safe (Service.paused_with id message)
paused_with-Safe id message = search store_rules

pause_answer-Safe :
    (id : ℕ) (message : Text) (r : Result (Unit {0})) → Safe (Service.pause_answer id message r)
pause_answer-Safe id message (ok _) = paused_with-Safe id message
pause_answer-Safe id message (err e) = search store_rules

pause_engine-Safe :
    (d : Option Downloader) (id : ℕ) (message : Text) (gid : Option Text)
    → Safe (Service.pause_engine d id message gid)
pause_engine-Safe none id message gid = search store_rules
pause_engine-Safe (some d) id message none = search store_rules
pause_engine-Safe (some d) id message (some gid) = search (store_rules, pause_answer-Safe)

pub pause-Safe : (s : Service) (id : ℕ) → Safe (Service.pause s id)
unfolding Service.pause
pause-Safe s id = search (store_rules, pause_engine-Safe, paused_with-Safe)

resume_requeue-Safe : (id : ℕ) → Safe (Service.resume_requeue id)
resume_requeue-Safe id = search store_rules

unpaused-Safe : (id : ℕ) (r : Result (Unit {0})) → Safe (Service.unpaused id r)
unpaused-Safe id (ok _) = search store_rules
unpaused-Safe id (err e) = search (store_rules, resume_requeue-Safe)

resume_engine-Safe :
    (d : Option Downloader) (id : ℕ) (gid : Option Text) → Safe (Service.resume_engine d id gid)
resume_engine-Safe none id gid = search store_rules
resume_engine-Safe (some d) id none = resume_requeue-Safe id
resume_engine-Safe (some d) id (some gid) = search (store_rules, unpaused-Safe)

resume_webshare-Safe : (s : Service) (id : ℕ) (j : Job) → Safe (Service.resume_webshare s id j)
resume_webshare-Safe s id j = search (service_rules, resume_requeue-Safe)

pub resume-Safe : (s : Service) (id : ℕ) → Safe (Service.resume s id)
unfolding Service.resume
resume-Safe s id = search (store_rules, resume_engine-Safe, resume_webshare-Safe)
