-- ===== src/Queue/Consistent/Store.antt =====
-- The queries, the INSERTs, MarkFailed, the claim and ClearAll keep the tables consistent.
use dlq_download_queue.Queue.Store.Claim.Keeps.{claim_next_queued-Keeps}
use dlq_download_queue.Queue.Consistent.Marks.{
  update_resolving-Safe, mark_downloading-Safe, mark_paused-Safe, mark_downloading_status-Safe,
  mark_completed-Safe, mark_decrypting-Safe, mark_decrypting_retry-Safe,
  mark_postprocess_failed-Safe, clear_archive_password-Safe, requeue-Safe, remove-Safe, Safe,
  update_job-Safe,
}
use dlq_download_queue.Prelude.{
  ℕ, suc, ◌+◌, Bool, ◌≡◌, refl, List, [], ◌∷◌, any_of, All, arith, Option, none, some, Bool-cases,
  inl, inr, Descending-weaken,
}
use dlq_download_queue.Go.Strings.{Text}
use dlq_download_queue.Go.Error.{Result, ok, err}
use dlq_download_queue.Queue.Job.{Job, Level, Event, same_status, completed}
use dlq_download_queue.Queue.World.{Db, ◌>>=◌, now, query, attempt}
use dlq_download_queue.Queue.World.Keeps.{
  Keeps, Keeps-statement, Keeps-bind, Keeps-now, Keeps-transaction, finish_tx-at, keeps_rules,
  Keeps-exec, Keeps-fail, Keeps-query, Keeps-pure, exec-then,
}
use dlq_download_queue.Queue.Store.{
  has_id, found, create_job, insert_job, new_row, get_job, list_jobs, list_pending_postprocess,
  add_event, insert_event, list_events, list_retryable_failed,
}
use dlq_download_queue.Queue.Store.Marks
use dlq_download_queue.Queue.Store.Marks.{update_job, update_where}
use dlq_download_queue.Queue.Store.Claim.{claim_row, claim_target, claim_next_queued}
use dlq_download_queue.Queue.Consistent.{IsConsistent, Known, job_key, event_key}
use dlq_download_queue.Queue.Consistent.Rows.{update_where-IsConsistent}

Known-cons :
    (j : Job) (jobs : List Job) (events : List Event)
    → All (Known jobs) events
    → All (Known (j ∷ jobs)) events
Known-cons j jobs [] h = tt
Known-cons j jobs (v ∷ events) h = (ground arith, Known-cons j jobs events h.1)

insert_job-IsConsistent :
    (at : ℕ) (j : Job) (db : Db) → IsConsistent db → IsConsistent (insert_job at j db).1
unfolding insert_job
insert_job-IsConsistent at j db h = record {
  job_ids = (
    omega arith,
    Descending-weaken job_key (suc db.job_seq) (db.job_seq + 1) db.jobs (omega arith) h.job_ids,
  );
  event_ids = h.event_ids;
  rows = (ground arith, h.rows);
  known = Known-cons (new_row (db.job_seq + 1) at j) db.jobs db.events h.known;
}

pub create_job-Safe : (j : Job) → Safe (create_job j)
unfolding create_job
create_job-Safe j =
    Keeps-bind now _ Keeps-now
      (λ at. Keeps-statement (insert_job at j) (insert_job-IsConsistent at j))

insert_event-IsConsistent :
    (at id : ℕ) (level : Level) (message : Text) (db : Db)
    → IsConsistent db
    → IsConsistent (insert_event at id level message db).1
unfolding insert_event
insert_event-IsConsistent at id level message db h =
    elim (Bool-cases (any_of (has_id id) db.jobs)) [
      | inl e ↦ rw e (record {
        job_ids = h.job_ids;
        event_ids = (
          omega arith,
          Descending-weaken event_key (suc db.event_seq) (db.event_seq + 1) db.events (omega arith)
              h.event_ids,
        );
        rows = h.rows;
        known = (e, h.known);
      })
      | inr e ↦ rw e h
    ]

pub add_event-Safe : (id : ℕ) (level : Level) (message : Text) → Safe (add_event id level message)
unfolding add_event
add_event-Safe id level message = Keeps-bind now _ Keeps-now (λ at.
    Keeps-statement (insert_event at id level message)
      (insert_event-IsConsistent at id level message))

found-Safe : (o : Option Job) → Safe (found o)
found-Safe none = Keeps-fail _
found-Safe (some j) = Keeps-pure j

pub get_job-Safe : (id : ℕ) → Safe (get_job id)
unfolding get_job
get_job-Safe id = search (keeps_rules, found-Safe)

pub list_jobs-Safe : (status : Text) (all : Bool) → Safe (list_jobs status all)
unfolding list_jobs
list_jobs-Safe status all = Keeps-query _

pub list_pending_postprocess-Safe : (limit : ℕ) → Safe (list_pending_postprocess limit)
unfolding list_pending_postprocess
list_pending_postprocess-Safe limit = Keeps-query _

pub list_events-Safe : (id limit : ℕ) → Safe (list_events id limit)
unfolding list_events
list_events-Safe id limit = Keeps-query _

pub list_retryable_failed-Safe : (limit : ℕ) → Safe (list_retryable_failed limit)
unfolding list_retryable_failed
list_retryable_failed-Safe limit = search keeps_rules

report_attempts-Safe : (id : ℕ) (j : Job) → Safe (Marks.report_attempts id j)
unfolding Marks.report_attempts
report_attempts-Safe id j = search (keeps_rules, add_event-Safe)

mark_failed_update-Safe :
    (id : ℕ) (code msg : Text) (retry : Option ℕ)
    → Safe (update_job id (Marks.mark_failed_row code msg retry))
unfolding Marks.mark_failed_row
mark_failed_update-Safe id code msg retry =
    update_job-Safe id (Marks.mark_failed_row code msg retry)
      (λ at. record { same_id = λ j. refl; row_ok = λ j _ h. ground arith })

pub mark_failed-Safe :
    (id : ℕ) (code msg : Text) (retry : Option ℕ) → Safe (Marks.mark_failed id code msg retry)
unfolding Marks.mark_failed
mark_failed-Safe id code msg retry =
    search (keeps_rules, mark_failed_update-Safe, found-Safe, report_attempts-Safe)

abbrev is_completed : Job → Bool
is_completed j = same_status j.status completed

pub clear_completed-Safe : Safe Marks.clear_completed
unfolding Marks.clear_completed
clear_completed-Safe = Keeps-bind now _ Keeps-now (λ at.
    Keeps-exec (update_where is_completed (Marks.remove_row at)) (
      update_where-IsConsistent is_completed (Marks.remove_row at)
        (record { same_id = λ j. refl; row_ok = λ j _ h. ground arith })))

no_events : (db : Db) → IsConsistent db → IsConsistent (record db { events = [] })
no_events db h = record { job_ids = h.job_ids; event_ids = tt; rows = h.rows; known = tt }

-- With both tables empty the counters may begin anew.
no_rows_left : (db : Db) → db.events ≡ [] → IsConsistent (record db { jobs = [] })
no_rows_left db e = record { job_ids = tt; event_ids = rw e tt; rows = tt; known = rw e tt }

abbrev IsBlank : Db → Type 0
IsBlank db = (db.jobs ≡ []) × (db.events ≡ [])

reset_sequences-Keeps : (r : Result (Unit {0})) → Keeps IsBlank (Marks.reset_sequences r)
reset_sequences-Keeps (ok _) = Keeps-exec _ (λ db h. h)
reset_sequences-Keeps (err e) = Keeps-pure tt

reset_tail-Keeps : Keeps IsBlank (attempt (query (λ db. tt)) >>= Marks.reset_sequences)
reset_tail-Keeps = search (keeps_rules, reset_sequences-Keeps)

IsConsistent-IsBlank : (db : Db) → IsBlank db → IsConsistent db
IsConsistent-IsBlank db h =
    rw (h.0, h.1) (record { job_ids = tt; event_ids = tt; rows = tt; known = tt })

delete_all-Safe : Safe Marks.delete_all
delete_all-Safe = record {
  at = λ env w h. exec-then IsConsistent _ _ env w h λ w1 e1.
      exec-then IsConsistent _ _ env w1 (rw e1 (no_events w.db h))
        λ w2 e2. IsConsistent-IsBlank _ (reset_tail-Keeps.at env w2 (rw (e2, e1) (refl, refl)));
}

pub clear_all-Safe : Safe Marks.clear_all
unfolding Marks.clear_all
clear_all-Safe = Keeps-transaction Marks.delete_all delete_all-Safe

pub claim_next_queued-Safe : Safe claim_next_queued
claim_next_queued-Safe = claim_next_queued-Keeps (λ at id db h.
    update_where-IsConsistent (claim_target id) (claim_row at)
      (record { same_id = λ j. refl; row_ok = λ j _ h. ground arith }) db h)

pub ruleset store_rules = (
  keeps_rules, create_job-Safe, add_event-Safe, get_job-Safe, list_jobs-Safe,
  list_pending_postprocess-Safe, list_events-Safe, list_retryable_failed-Safe,
  update_resolving-Safe, mark_downloading-Safe, mark_paused-Safe, mark_downloading_status-Safe,
  mark_completed-Safe, mark_decrypting-Safe, mark_decrypting_retry-Safe,
  mark_postprocess_failed-Safe, clear_archive_password-Safe, requeue-Safe, remove-Safe,
  mark_failed-Safe, clear_completed-Safe, clear_all-Safe, claim_next_queued-Safe,
)
