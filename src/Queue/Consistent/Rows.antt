-- ===== src/Queue/Consistent/Rows.antt =====
-- An UPDATE that keeps the ids and keeps each row in order keeps the tables consistent.
use dlq_download_queue.Prelude.{
  ℕ, suc, Bool, true, ◌≡◌, refl, inl, inr, List, [], ◌∷◌, any_of, All, Descending, if◌then◌else◌,
  Bool-cases,
}
use dlq_download_queue.Queue.Job.{Job, Event}
use dlq_download_queue.Queue.World.{Db}
use dlq_download_queue.Queue.Store.{has_id}
use dlq_download_queue.Queue.Store.Marks.{update_rows, update_where}
use dlq_download_queue.Queue.Consistent.{RowOk, IsConsistent, Known, job_key}

-- A change of the rows that `p` holds of, which keeps the id and the order of a row.
pub record IsRowStepAt (p : Job → Bool) (f : Job → Job) : Type 0 where
  pub same_id : (j : Job) → (f j).id ≡ j.id
  pub row_ok : (j : Job) → p j ≡ true → RowOk j → RowOk (f j)

abbrev row : (Job → Bool) → (Job → Job) → Job → Job
row p f j = if p j then f j else j

row-id : (p : Job → Bool) (f : Job → Job) (s : IsRowStepAt p f) (j : Job) → (row p f j).id ≡ j.id
row-id p f s j = elim (Bool-cases (p j)) [ inl e ↦ rw e (s.same_id j) | inr e ↦ rw e refl ]

row-RowOk :
    (p : Job → Bool) (f : Job → Job) (s : IsRowStepAt p f) (j : Job) → RowOk j → RowOk (row p f j)
row-RowOk p f s j h = elim (Bool-cases (p j)) [ inl e ↦ rw e (s.row_ok j e h) | inr e ↦ rw e h ]

module _ (p : Job → Bool) (f : Job → Job) (s : IsRowStepAt p f) where
  Descending-update_rows :
      (b : ℕ) (jobs : List Job)
      → Descending job_key b jobs
      → Descending job_key b (update_rows p f jobs)
  unfolding update_rows
  Descending-update_rows b [] h = tt
  Descending-update_rows b (j ∷ jobs) h =
      rw (row-id p f s j) (h.0, Descending-update_rows j.id jobs h.1)

  RowOk-update_rows : (jobs : List Job) → All RowOk jobs → All RowOk (update_rows p f jobs)
  unfolding update_rows
  RowOk-update_rows [] h = tt
  RowOk-update_rows (j ∷ jobs) h = (row-RowOk p f s j h.0, RowOk-update_rows jobs h.1)

  any_of-update_rows :
      (id : ℕ) (jobs : List Job)
      → any_of (has_id id) (update_rows p f jobs) ≡ any_of (has_id id) jobs
  unfolding update_rows
  any_of-update_rows id [] = refl
  any_of-update_rows id (j ∷ jobs) = rw (row-id p f s j, any_of-update_rows id jobs)

  Known-update_rows :
      (jobs : List Job) (events : List Event)
      → All (Known jobs) events
      → All (Known (update_rows p f jobs)) events
  Known-update_rows jobs [] h = tt
  Known-update_rows jobs (v ∷ events) h =
      (rw (any_of-update_rows v.job_id jobs) h.0, Known-update_rows jobs events h.1)

  pub update_where-IsConsistent : (db : Db) → IsConsistent db → IsConsistent (update_where p f db)
  update_where-IsConsistent db h = record {
    job_ids = Descending-update_rows (suc db.job_seq) db.jobs h.job_ids;
    event_ids = h.event_ids;
    rows = RowOk-update_rows db.jobs h.rows;
    known = Known-update_rows db.jobs db.events h.known;
  }
