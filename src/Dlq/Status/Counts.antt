-- ===== src/Dlq/Status/Counts.antt =====
-- cmd/dlq/jobs.go, cmdStatus: the numbers that it prints, and when its loop goes on.
use dlq_download_queue.Prelude.{
  ℕ, ◌+◌, Bool, true, ◌≡◌, refl, sym, ap, ◌∙◌, ◌||◌, List, [], ◌∷◌, if◌then◌else◌, text_eq, length,
  ltb, arith, All,
}
use dlq_download_queue.Go.Strings.{Text, codes}
use dlq_download_queue.Queue.Job.{
  Status, queued, resolving, downloading, paused, decrypting, completed, failed, decrypt_failed,
  deleted, status_text,
}
use dlq_download_queue.Dlq.Status.{
  JobView, counts, active, done, is_active, has_active_jobs, watches_on,
}

abbrev one : Bool → ℕ
one b = if b then 1 else 0

counts-cons :
    (status : Text) (j : JobView) (jobs : List JobView)
    → counts status (j ∷ jobs) ≡ one (text_eq j.status status) + counts status jobs
unfolding counts
counts-cons status j jobs = ground arith

-- What one job adds to the numbers.
abbrev done_one : Text → ℕ
done_one s =
    one (text_eq s (codes "completed"))
    + one (text_eq s (codes "failed"))
    + one (text_eq s (codes "decrypt_failed"))

abbrev active_one : Text → ℕ
active_one s =
    one (text_eq s (codes "queued"))
    + one (text_eq s (codes "resolving"))
    + one (text_eq s (codes "downloading"))
    + one (text_eq s (codes "paused"))
    + one (text_eq s (codes "decrypting"))

-- A status is an active one, a done one or `deleted`.
one_status :
    (s : Status)
    → active_one (status_text s)
        + done_one (status_text s)
        + one (text_eq (status_text s) (codes "deleted"))
      ≡ 1
unfolding status_text text_eq
one_status queued = refl
one_status resolving = refl
one_status downloading = refl
one_status paused = refl
one_status decrypting = refl
one_status decrypt_failed = refl
one_status completed = refl
one_status failed = refl
one_status deleted = refl

active-cons :
    (j : JobView) (jobs : List JobView) → active (j ∷ jobs) ≡ active_one j.status + active jobs
unfolding active
active-cons j jobs = omega (
  arith,
  counts-cons (codes "queued") j jobs,
  counts-cons (codes "resolving") j jobs,
  counts-cons (codes "downloading") j jobs,
  counts-cons (codes "paused") j jobs,
  counts-cons (codes "decrypting") j jobs,
)

done-cons : (j : JobView) (jobs : List JobView) → done (j ∷ jobs) ≡ done_one j.status + done jobs
unfolding done
done-cons j jobs = omega (
  arith,
  counts-cons (codes "completed") j jobs,
  counts-cons (codes "failed") j jobs,
  counts-cons (codes "decrypt_failed") j jobs,
)

-- The status of a job of the server.
abbrev IsKnown : JobView → Type 0
IsKnown j = (s : Status) × (j.status ≡ status_text s)

counted_once :
    (jobs : List JobView)
    → All IsKnown jobs
    → active jobs + done jobs + counts (codes "deleted") jobs ≡ length jobs
unfolding active done counts
counted_once [] h = refl
counted_once (j ∷ jobs) h =
    let (s, e) = h.0 in
    let one_of : active_one j.status + done_one j.status + one (text_eq j.status (codes "deleted"))
        ≡ 1 =
      rw e (one_status s) in
    omega (
      arith,
      one_of,
      active-cons j jobs,
      done-cons j jobs,
      counts-cons (codes "deleted") j jobs,
      counted_once jobs h.1,
    )

or_one :
    (a b c d e : Bool) → (a || b || c || d || e) ≡ ltb 0 (one a + one b + one c + one d + one e)
or_one a b c d e = ground arith

is_active_one : (s : Text) → is_active s ≡ ltb 0 (active_one s)
unfolding is_active
is_active_one s = or_one (text_eq s (codes "queued")) _ _ _ _

positive_sum : (a b : ℕ) → (if ltb 0 a then true else ltb 0 b) ≡ ltb 0 (a + b)
positive_sum a b = ground arith

-- The loop's test is that some active job was counted.
has_active_jobs_lem : (jobs : List JobView) → has_active_jobs jobs ≡ ltb 0 (active jobs)
unfolding has_active_jobs active counts
has_active_jobs_lem [] = refl
has_active_jobs_lem (j ∷ jobs) =
    ap (λ b. if b then true else has_active_jobs jobs) (is_active_one j.status)
    ∙ ap (λ b. if ltb 0 (active_one j.status) then true else b) (has_active_jobs_lem jobs)
    ∙ positive_sum (active_one j.status) (active jobs)
    ∙ ap (ltb 0) (sym (active-cons j jobs))

-- Where every job has a status of the server, each job that is not deleted is counted once, as
-- active or as done, and the command goes on watching just while the number of active jobs that it
-- has printed is positive.
pub status_counts :
    (jobs : List JobView)
    → All IsKnown jobs
    → (active jobs + done jobs + counts (codes "deleted") jobs ≡ length jobs)
      × (watches_on true jobs ≡ ltb 0 (active jobs))
unfolding watches_on
status_counts jobs h = (counted_once jobs h, has_active_jobs_lem jobs)
