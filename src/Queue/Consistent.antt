-- ===== src/Queue/Consistent.antt =====
-- What holds of the tables at all times: the invariant of the database, kept by every statement.
pub mod Rows
pub mod Marks
pub mod Store
pub mod Service
pub mod Runner
use dlq_download_queue.Prelude.{
  ℕ, suc, Bool, true, false, ◌≡◌, refl, List, [], ◌∷◌, Option, none, some, any_of, All, Descending,
}
use dlq_download_queue.Queue.Job.{Status, queued, deleted, Job, Event, is_some}
use dlq_download_queue.Queue.World.{Db}
use dlq_download_queue.Queue.Store.{has_id}

-- A row that is marked deleted is hidden from lists, and a queued row is visible, has no task in
-- aria2 and does not wait for a time.
pub record RowOk (j : Job) : Type 0 where
  pub deleted_hidden : j.status ≡ deleted → is_some j.deleted_at ≡ true
  pub queued_shown : j.status ≡ queued → j.deleted_at ≡ none
  pub queued_now : j.status ≡ queued → j.next_retry_at ≡ none
  pub queued_unstarted : j.status ≡ queued → j.engine_gid ≡ none

abbrev pub job_key : Job → ℕ
job_key j = j.id

abbrev pub event_key : Event → ℕ
event_key v = v.id

abbrev pub Known : List Job → Event → Type 0
Known jobs v = any_of (has_id v.job_id) jobs ≡ true

pub record IsConsistent (db : Db) : Type 0 where
  pub job_ids : Descending job_key (suc db.job_seq) db.jobs
  pub event_ids : Descending event_key (suc db.event_seq) db.events
  pub rows : All RowOk db.jobs
  pub known : All (Known db.jobs) db.events
