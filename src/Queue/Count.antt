-- ===== src/Queue/Count.antt =====
-- How many rows pass a test, and what an UPDATE does to that number.
pub mod Store
use dlq_download_queue.Prelude.{
  ℕ, suc, ◌+◌, ◌≤◌, Bool, true, false, not, ◌&&◌, ◌≡◌, refl, List, [], ◌∷◌, count_if, if◌then◌else◌,
  arith, ◌==◌, Descending, ◌<◌, ==_iff, Bool-cases, inl, inr,
}
use dlq_download_queue.Queue.Job.{
  Job, queued, downloading, same_status, is_live, status_text, text_eq-status_text,
}
use dlq_download_queue.Queue.World.{Db}
use dlq_download_queue.Queue.Store.{has_id, shown}
use dlq_download_queue.Queue.Store.Marks.{update_rows}
use dlq_download_queue.Queue.Consistent.{job_key}

abbrev pub AtMost : (Job → Bool) → ℕ → Db → Type 0
AtMost q n db = count_if q db.jobs ≤ n

-- A row that is waiting to be claimed, and one that takes up room in aria2.
abbrev pub is_queued : Job → Bool
is_queued j = same_status j.status queued

abbrev pub is_running : Job → Bool
is_running j = is_live j && same_status j.status downloading

-- A change of rows that makes no row pass the test anew does not raise the number.
pub count-update_rows :
    (q p : Job → Bool) (f : Job → Job)
    → ((j : Job) → p j ≡ true → q (f j) ≡ true → q j ≡ true)
    → (jobs : List Job) → count_if q (update_rows p f jobs) ≤ count_if q jobs
unfolding update_rows
count-update_rows q p f h [] = omega arith
count-update_rows q p f h (j ∷ jobs) = ground (arith, h j, count-update_rows q p f h jobs)

-- The test behind `ListJobs(downloading, false)`.
pub shown-downloading : (j : Job) → shown (status_text downloading) false j ≡ is_running j
unfolding shown
shown-downloading j = rw (text_eq-status_text j.status downloading) (ground arith)

pub count-ext :
    (p q : Job → Bool)
    → ((j : Job) → p j ≡ q j)
    → (jobs : List Job) → count_if p jobs ≡ count_if q jobs
count-ext p q h [] = refl
count-ext p q h (j ∷ jobs) = rw (h j, count-ext p q h jobs)

abbrev pub is_other : ℕ → (Job → Bool) → Job → Bool
is_other id q j = q j && not (has_id id j)

-- Below the ids of a table there is no row of the id.
count-below :
    (q : Job → Bool) (id b : ℕ) (jobs : List Job)
    → Descending job_key b jobs
    → b ≤ id
    → count_if q jobs ≤ count_if (is_other id q) jobs
count-below q id b [] d h = omega arith
count-below q id b (j ∷ jobs) d h = ground (arith, count-below q id j.id jobs d.1, ==_iff j.id id)

-- The ids of a table are distinct, so that one row at most is left out.
pub count-is_other :
    (q : Job → Bool) (id b : ℕ) (jobs : List Job)
    → Descending job_key b jobs
    → count_if q jobs ≤ count_if (is_other id q) jobs + 1
count-is_other q id b [] d = omega arith
count-is_other q id b (j ∷ jobs) d =
    ground
      (arith, count-below q id j.id jobs d.1, count-is_other q id j.id jobs d.1, ==_iff j.id id)

pub count-is_other_le :
    (q : Job → Bool) (id : ℕ) (jobs : List Job) → count_if (is_other id q) jobs ≤ count_if q jobs
count-is_other_le q id [] = omega arith
count-is_other_le q id (j ∷ jobs) = ground (arith, count-is_other_le q id jobs)
