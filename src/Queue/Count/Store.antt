-- ===== src/Queue/Count/Store.antt =====
-- The operations of the store that resolveAndStart and the claim use, and the numbers of rows.
use dlq_download_queue.Prelude.{ℕ, Bool, true, ◌≡◌, Option, arith, any_of, Bool-cases, inl, inr}
use dlq_download_queue.Go.Strings.{Text}
use dlq_download_queue.Queue.Job.{Job, Level}
use dlq_download_queue.Queue.World.{Db, now}
use dlq_download_queue.Queue.World.Keeps.{
  Keeps, Keeps-statement, Keeps-exec, Keeps-bind, Keeps-now, keeps_rules,
}
use dlq_download_queue.Queue.Store.{has_id, add_event, insert_event}
use dlq_download_queue.Queue.Store.Marks
use dlq_download_queue.Queue.Store.Marks.{update_job, update_where}
use dlq_download_queue.Queue.Store.Claim.{claim_target, claim_row, claim_next_queued}
use dlq_download_queue.Queue.Store.Claim.Keeps.{claim_next_queued-Keeps}
use dlq_download_queue.Queue.Runner.Start.Keeps.{StartKeeps, found-Keeps}
use dlq_download_queue.Queue.Count.{AtMost, is_queued, is_running, is_other, count-update_rows}

update_where-AtMost :
    (q p : Job → Bool) (f : Job → Job) (n : ℕ)
    → ((j : Job) → p j ≡ true → q (f j) ≡ true → q j ≡ true)
    → (db : Db) → AtMost q n db
    → AtMost q n (update_where p f db)
update_where-AtMost q p f n h db a = omega (arith, count-update_rows q p f h db.jobs)

update_job-AtMost :
    (q : Job → Bool) (n id : ℕ) (f : ℕ → Job → Job)
    → ((at : ℕ) (j : Job) → has_id id j ≡ true → q (f at j) ≡ true → q j ≡ true)
    → Keeps (AtMost q n) (update_job id f)
unfolding update_job
update_job-AtMost q n id f h = Keeps-bind now _ Keeps-now (λ at.
    Keeps-exec (update_where (has_id id) (f at))
      (update_where-AtMost q (has_id id) (f at) n (h at)))

insert_event-AtMost :
    (q : Job → Bool) (n at id : ℕ) (level : Level) (msg : Text) (db : Db)
    → AtMost q n db
    → AtMost q n (insert_event at id level msg db).1
unfolding insert_event
insert_event-AtMost q n at id level msg db h = elim (Bool-cases (any_of (has_id id) db.jobs)) [
  | inl e ↦ rw e h
  | inr e ↦ rw e h
]

add_event-AtMost :
    (q : Job → Bool) (n id : ℕ) (level : Level) (msg : Text)
    → Keeps (AtMost q n) (add_event id level msg)
unfolding add_event
add_event-AtMost q n id level msg =
    Keeps-bind now _ Keeps-now (λ at.
      Keeps-statement (insert_event at id level msg) (insert_event-AtMost q n at id level msg))

report_attempts-AtMost :
    (q : Job → Bool) (n id : ℕ) (j : Job) → Keeps (AtMost q n) (Marks.report_attempts id j)
unfolding Marks.report_attempts
report_attempts-AtMost q n id j = search (keeps_rules, add_event-AtMost)

mark_failed-AtMost :
    (q : Job → Bool) (n id : ℕ) (code msg : Text) (retry : Option ℕ)
    → ((at : ℕ) (j : Job)
        → has_id id j ≡ true
        → q (Marks.mark_failed_row code msg retry at j) ≡ true
        → q j ≡ true)
    → Keeps (AtMost q n) (Marks.mark_failed id code msg retry)
unfolding Marks.mark_failed
mark_failed-AtMost q n id code msg retry h =
    Keeps-bind _ _ (update_job-AtMost q n id (Marks.mark_failed_row code msg retry) h)
      (λ _. search (keeps_rules, found-Keeps, report_attempts-AtMost))

-- Starting a job puts no job into the queue.
pub start-is_queued : (n id : ℕ) → StartKeeps (AtMost is_queued n) id
unfolding Marks.update_resolving Marks.mark_downloading Marks.mark_failed_row
start-is_queued n id = record {
  event = add_event-AtMost is_queued n id;
  resolving = λ url name size.
      update_job-AtMost is_queued n id (Marks.update_resolving_row url name size) (λ at j e h. h);
  failing = λ code msg retry. mark_failed-AtMost is_queued n id code msg retry (λ at j e h. cc);
  starting = λ engine gid.
      update_job-AtMost is_queued n id (Marks.mark_downloading_row engine gid) (λ at j e h. cc);
}

-- Starting a job starts no other one.
pub start-is_running : (n id : ℕ) → StartKeeps (AtMost (is_other id is_running) n) id
unfolding Marks.update_resolving Marks.mark_downloading Marks.mark_failed_row
start-is_running n id = record {
  event = add_event-AtMost _ n id;
  resolving = λ url name size.
      update_job-AtMost _ n id (Marks.update_resolving_row url name size) (λ at j e h. h);
  failing = λ code msg retry. mark_failed-AtMost _ n id code msg retry (λ at j e h. ground arith);
  starting = λ engine gid.
      update_job-AtMost _ n id (Marks.mark_downloading_row engine gid) (λ at j e h. ground arith);
}

-- A claim starts nothing.
pub claim-is_running : (n : ℕ) → Keeps (AtMost is_running n) claim_next_queued
claim-is_running n = claim_next_queued-Keeps (λ at id.
    update_where-AtMost is_running (claim_target id) (claim_row at) n (λ j e h. ground arith))

-- Nor does it queue anything.
claim-is_queued : (n : ℕ) → Keeps (AtMost is_queued n) claim_next_queued
claim-is_queued n = claim_next_queued-Keeps (λ at id.
    update_where-AtMost is_queued (claim_target id) (claim_row at) n (λ j e h. ground arith))
