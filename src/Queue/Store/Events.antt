-- ===== src/Queue/Store/Events.antt =====
-- internal/queue/store.go, AddEvent: an event leaves the rows of the jobs.
use dlq_download_queue.Queue.Store.{insert_event, add_event, Level, Job, Text, Db, now}
use dlq_download_queue.Queue.World.Keeps.{Keeps, Keeps-now, Keeps-bind, Keeps-statement}
use dlq_download_queue.Prelude.{ℕ, ◌≡◌, List, ◌∙◌, arith}

insert_event-jobs :
    (at id : ℕ) (level : Level) (message : Text) (db : Db)
    → (insert_event at id level message db).1.jobs ≡ db.jobs
unfolding insert_event
insert_event-jobs at id level message db = ground arith

-- An event leaves the rows of the jobs.
pub add_event-Keeps :
    (rows : List Job) (id : ℕ) (level : Level) (message : Text)
    → Keeps (λ db. db.jobs ≡ rows) (add_event id level message)
unfolding add_event
add_event-Keeps rows id level message = Keeps-bind now _ Keeps-now (λ at.
    Keeps-statement (insert_event at id level message)
      (λ db h. insert_event-jobs at id level message db ∙ h))
