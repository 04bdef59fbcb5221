-- ===== src/Queue/Store/Retries.antt =====
-- internal/queue/store.go, ListRetryableFailed: which failed jobs are retried, and in which order.
use dlq_download_queue.Queue.World.{statement, Env, World, tick}
use dlq_download_queue.Queue.Store.{
  insert_by_retry, sort_by_retry, list_retryable_failed, retry_time, Db, query, ok, retryable,
}
use dlq_download_queue.Queue.Job.{Job}
use dlq_download_queue.Queue.Store.Due.{IsRetried, others, kept, left_out, parted}
use mathlib.Core.List.Perm
use mathlib.Core.List.{Perm, reverse_perm, reverse-cons}
use dlq_download_queue.Prelude.{
  ◌++◌, ap, some, All-append, ℕ, ◌≤◌, ◌≡◌, arith, List, [], ◌∷◌, All, leb, map, reverse, keep_if,
  Bool-cases, inl, inr, Option-cases, leb→le,
}

abbrev due_time : Job → ℕ
due_time j = retry_time j.next_retry_at

-- By the number that the sort compares.
abbrev ByTime : List Job → Type 0
ByTime [] = Unit
ByTime (j ∷ rows) = All (λ (k : Job). due_time j ≤ due_time k) rows × ByTime rows

insert_by_retry-Perm : (j : Job) (rows : List Job) → Perm (insert_by_retry j rows) (j ∷ rows)
unfolding insert_by_retry
insert_by_retry-Perm j [] = Perm.refl (j ∷ [])
insert_by_retry-Perm j (k ∷ rows) = elim (Bool-cases (leb (due_time j) (due_time k))) [
  | inl e ↦ rw e (Perm.refl (j ∷ k ∷ rows))
  | inr e ↦ rw e (Perm.trans (Perm.cons k (insert_by_retry-Perm j rows)) (Perm.swap j k rows))
]

sort_by_retry-Perm : (rows : List Job) → Perm (sort_by_retry rows) rows
unfolding sort_by_retry
sort_by_retry-Perm [] = Perm.refl []
sort_by_retry-Perm (j ∷ rows) =
    Perm.trans (insert_by_retry-Perm j (sort_by_retry rows)) (Perm.cons j (sort_by_retry-Perm rows))

insert_by_retry-All :
    (b : ℕ) (j : Job) (rows : List Job)
    → b ≤ due_time j
    → All (λ (k : Job). b ≤ due_time k) rows
    → All (λ (k : Job). b ≤ due_time k) (insert_by_retry j rows)
unfolding insert_by_retry
insert_by_retry-All b j [] h a = (h, tt)
insert_by_retry-All b j (k ∷ rows) h a = elim (Bool-cases (leb (due_time j) (due_time k))) [
  | inl e ↦ rw e (h, a)
  | inr e ↦ rw e (a.0, insert_by_retry-All b j rows h a.1)
]

All-weaken :
    (a b : ℕ) (rows : List Job)
    → a ≤ b
    → All (λ (k : Job). b ≤ due_time k) rows
    → All (λ (k : Job). a ≤ due_time k) rows
All-weaken a b [] h all = tt
All-weaken a b (k ∷ rows) h all = (omega (arith, h, all.0), All-weaken a b rows h all.1)

insert_by_retry-ByTime : (j : Job) (rows : List Job) → ByTime rows → ByTime (insert_by_retry j rows)
unfolding insert_by_retry
insert_by_retry-ByTime j [] o = (tt, tt)
insert_by_retry-ByTime j (k ∷ rows) o = elim (Bool-cases (leb (due_time j) (due_time k))) [
  | inl e ↦
      let le : due_time j ≤ due_time k = leb→le (due_time j) (due_time k) e in
      rw e ((le, All-weaken (due_time j) (due_time k) rows le o.0), o)
  | inr e ↦
      let le : due_time k ≤ due_time j = ground arith in
      rw e (insert_by_retry-All (due_time k) j rows le o.0, insert_by_retry-ByTime j rows o.1)
]

sort_by_retry-ByTime : (rows : List Job) → ByTime (sort_by_retry rows)
unfolding sort_by_retry
sort_by_retry-ByTime [] = tt
sort_by_retry-ByTime (j ∷ rows) =
    insert_by_retry-ByTime j (sort_by_retry rows) (sort_by_retry-ByTime rows)

-- What is read where the query is carried out.
listed :
    (f : Db → List ℕ) (env : Env) (w : World) (ids : List ℕ)
    → (query f env w).0 ≡ ok ids
    → f w.db ≡ ids
unfolding statement
listed f env w ids = elim (Option-cases (env.db_error w.steps)) [
  | inl e ↦ rw (e, statement) (λ h. cc)
  | inr (t, e) ↦ rw (e, statement) (λ h. cc)
]

-- Each row is before or beside those behind it, by the time of the retry.
abbrev pub NotLater : Job → Job → Type 0
NotLater j k = (t u : ℕ) → j.next_retry_at ≡ some t → k.next_retry_at ≡ some u → t ≤ u

abbrev pub Ordered : List Job → Type 0
Ordered [] = Unit
Ordered (j ∷ rows) = All (NotLater j) rows × Ordered rows

NotLater-all :
    (j : Job) (rows : List Job)
    → All (λ (k : Job). due_time j ≤ due_time k) rows
    → All (NotLater j) rows
NotLater-all j [] a = tt
NotLater-all j (k ∷ rows) a =
    (λ t u e g. omega (arith, a.0, ap retry_time e, ap retry_time g), NotLater-all j rows a.1)

ByTime-Ordered : (rows : List Job) → ByTime rows → Ordered rows
ByTime-Ordered [] o = tt
ByTime-Ordered (j ∷ rows) o = (NotLater-all j rows o.0, ByTime-Ordered rows o.1)

-- What holds of all rows holds of them in another order.
module _ (P : Job → Type 0) where
  All-reverse : (rows : List Job) → All P rows → All P (reverse rows)
  All-reverse [] a = tt
  All-reverse (j ∷ rows) a =
      rw (reverse-cons j rows)
        (All-append P (reverse rows) (j ∷ []) (All-reverse rows a.1) (a.0, tt))

  All-insert_by_retry :
      (j : Job) (rows : List Job) → P j → All P rows → All P (insert_by_retry j rows)
  unfolding insert_by_retry
  All-insert_by_retry j [] h a = (h, tt)
  All-insert_by_retry j (k ∷ rows) h a = elim (Bool-cases (leb (due_time j) (due_time k))) [
    | inl e ↦ rw e (h, a)
    | inr e ↦ rw e (a.0, All-insert_by_retry j rows h a.1)
  ]

  All-sort_by_retry : (rows : List Job) → All P rows → All P (sort_by_retry rows)
  unfolding sort_by_retry
  All-sort_by_retry [] a = tt
  All-sort_by_retry (j ∷ rows) a =
      All-insert_by_retry j (sort_by_retry rows) a.0 (All-sort_by_retry rows a.1)

-- The list has the ids of the rows that are to be retried, in the order of their times.
abbrev pub Lists : ℕ → List Job → List ℕ → Type 0
Lists at jobs ids =
    (rows : List Job) × (rest : List Job) × (map (λ (j : Job). j.id) rows ≡ ids)
    × Perm (rows ++ rest) jobs
    × All (IsRetried at) rows
    × All (λ j. ¬ (IsRetried at j)) rest
    × Ordered rows

-- A list of jobs to retry, without a limit, that is returned has the ids of just those rows that have
-- failed, are not deleted, are past their retry time and have attempts left, those with the earliest
-- retry time first.
pub list_retryable_failed-Ordered :
    (env : Env) (w : World) (ids : List ℕ)
    → (list_retryable_failed 0 env w).0 ≡ ok ids
    → Lists (env.clock w.steps) w.db.jobs ids
unfolding list_retryable_failed
list_retryable_failed-Ordered env w ids h =
    let at : ℕ = env.clock w.steps in
    let due : Db → List Job = λ db. reverse (keep_if (retryable at) db.jobs) in
    let sorted : List Job = sort_by_retry (due w.db) in
    let same : Perm sorted (keep_if (retryable at) w.db.jobs) =
      Perm.trans (sort_by_retry-Perm (due w.db))
        (reverse_perm (keep_if (retryable at) w.db.jobs)) in
    (
      sorted,
      others at w.db.jobs,
      listed (λ db. map (λ (j : Job). j.id) (sort_by_retry (due db))) env (tick w) ids h,
      Perm.trans (Perm.append_right (others at w.db.jobs) same) (parted at w.db.jobs),
      All-sort_by_retry (IsRetried at) (due w.db)
          (All-reverse (IsRetried at) (keep_if (retryable at) w.db.jobs) (kept at w.db.jobs)),
      left_out at w.db.jobs,
      ByTime-Ordered sorted (sort_by_retry-ByTime (due w.db)),
    )
