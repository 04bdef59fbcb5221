-- ===== src/Queue/Store/Rows.antt =====
-- What an UPDATE of one id says of the rows of that id.
use dlq_download_queue.Queue.Store.Marks.{update_rows, update_job, update_where}
use dlq_download_queue.Queue.Store.{has_id, now}
use dlq_download_queue.Queue.Job.{Job}
use dlq_download_queue.Queue.World.Keeps.{Keeps, Keeps-now, Keeps-bind, Keeps-exec}
use dlq_download_queue.Prelude.{ℕ, Bool, true, false, ◌≡◌, refl, List, [], ◌∷◌, All, if◌then◌else◌}

-- `R` holds of every row of the id.
abbrev pub RowsOf : ℕ → (Job → Type 0) → List Job → Type 0
RowsOf id R jobs = All (λ j. has_id id j ≡ true → R j) jobs

module _ (id : ℕ) (R : Job → Type 0) where
  updated :
      (b : Bool) (f : Job → Job) (j : Job)
      → has_id id j ≡ b
      → R (f j)
      → has_id id (if b then f j else j) ≡ true
      → R (if b then f j else j)
  updated true f j e r h = r
  updated false f j e r h = cc

  pub RowsOf-update_rows :
      (f : Job → Job) (jobs : List Job)
      → ((j : Job) → R (f j))
      → RowsOf id R (update_rows (has_id id) f jobs)
  unfolding update_rows
  RowsOf-update_rows f [] r = tt
  RowsOf-update_rows f (j ∷ jobs) r =
      (updated (has_id id j) f j refl (r j), RowsOf-update_rows f jobs r)

  still :
      (b : Bool) (f : Job → Job) (j : Job)
      → has_id id j ≡ b
      → (R j → R (f j))
      → (has_id id j ≡ true → R j)
      → has_id id (if b then f j else j) ≡ true
      → R (if b then f j else j)
  still true f j e r held h = r (held e)
  still false f j e r held h = held h

  RowsOf-kept :
      (f : Job → Job) (jobs : List Job)
      → ((j : Job) → R j → R (f j))
      → RowsOf id R jobs
      → RowsOf id R (update_rows (has_id id) f jobs)
  unfolding update_rows
  RowsOf-kept f [] r h = tt
  RowsOf-kept f (j ∷ jobs) r h = (still (has_id id j) f j refl (r j) h.0, RowsOf-kept f jobs r h.1)

  pub Keeps-update_job :
      (f : ℕ → Job → Job)
      → ((at : ℕ) (j : Job) → R j → R (f at j))
      → Keeps (λ db. RowsOf id R db.jobs) (update_job id f)
  unfolding update_job
  Keeps-update_job f r = Keeps-bind now _ Keeps-now (λ at.
      Keeps-exec (update_where (has_id id) (f at)) (λ db h. RowsOf-kept (f at) db.jobs (r at) h))
