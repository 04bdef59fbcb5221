-- ===== src/Queue/Store/Claim/Drops.antt =====
-- A claim that returns a job has taken one row, at least, off the queue.
use dlq_download_queue.Queue.World.Then.{query-then, exec-then_result}
use dlq_download_queue.Prelude.{
  ℕ, suc, ◌+◌, ◌≤◌, ◌≡◌, refl, List, [], ◌∷◌, Option, none, some, count_if, arith, reverse,
  find_first,
}
use mathlib.Core.Path.{subst}
use dlq_download_queue.Go.Error.{Result, ok, err}
use dlq_download_queue.Queue.Job.{Job}
use dlq_download_queue.Queue.World.{Db, World, Env, statement, tick, continue}
use dlq_download_queue.Queue.Store.Marks.{update_rows}
use dlq_download_queue.Queue.Store.Claim.{
  Claim, again, taken, claim_target, claim_row, claim_found, claim_body, end_claim, run_claim,
  claim_once, claim_loop, claim_next_queued, ready, claimed_or,
}
use dlq_download_queue.Queue.Count.{is_queued}

count-claim :
    (at id : ℕ) (jobs : List Job)
    → count_if is_queued (update_rows (claim_target id) (claim_row at) jobs)
        + count_if (claim_target id) jobs
      ≡ count_if is_queued jobs
unfolding update_rows
count-claim at id [] = omega arith
count-claim at id (j ∷ jobs) = ground (arith, count-claim at id jobs)

abbrev Drops : Db → Db → Type 0
Drops before after = suc (count_if is_queued after.jobs) ≤ count_if is_queued before.jobs

-- What a claim comes to, from the tables before it: with a job the queue is shorter.
abbrev Shorter : Db → Result Claim × World → Type 0
Shorter before (r, w) = (j : Job) → r ≡ ok (taken j) → Drops before w.db

claim_found-Drops :
    (at : ℕ) (o : Option Job) (env : Env) (w : World) (j : Job)
    → (claim_found at o env w).0 ≡ ok (taken j)
    → Drops w.db (claim_found at o env w).1.db
unfolding statement
claim_found-Drops at none env w j h = cc
claim_found-Drops at (some k) env w j h = ground (arith, count-claim at k.id w.db.jobs)

claim_body-Drops : (at : ℕ) (env : Env) (w : World) → Shorter w.db (claim_body at env w)
unfolding claim_body
claim_body-Drops at env w =
    query-then (Shorter w.db) env w (λ db. find_first (ready at) (reverse db.jobs)) (claim_found at)
      (λ e w' same j h. cc)
      (λ w' same j h.
        subst (λ db. Drops db (claim_found at row env w').1.db) same
          (claim_found-Drops at row env w' j h))
  where
    row : Option Job
    row = find_first (ready at) (reverse w.db.jobs)

end_claim-Drops :
    (saved : Db) (r : Result Claim) (env : Env) (w : World) (j : Job)
    → (r ≡ ok (taken j) → Drops saved w.db)
    → (end_claim saved r env w).0 ≡ ok (taken j)
    → Drops saved (end_claim saved r env w).1.db
end_claim-Drops saved (ok again) env w j d h = cc
end_claim-Drops saved (err e) env w j d h = cc
end_claim-Drops saved (ok (taken k)) env w j d h = ground (arith, d)

run_claim-Drops : (at : ℕ) (env : Env) (w : World) → Shorter w.db (run_claim at env w)
run_claim-Drops at env w j =
    end_claim-Drops w.db (claim_body at env w).0 env (claim_body at env w).1 j
      (claim_body-Drops at env w j)

claim_once-Drops : (at : ℕ) (env : Env) (w : World) → Shorter w.db (claim_once at env w)
unfolding claim_once
claim_once-Drops at env w =
    exec-then_result (Shorter w.db) env w (λ db. db) (run_claim at) (λ e w' same j h. cc)
      (λ w' same j h. rw (← same) (run_claim-Drops at env w' j h))

claimed-Drops :
    (at : ℕ) (r : Result Claim) (env : Env) (w : World) (before : Db) (j : Job)
    → ((k : Job) → r ≡ ok (taken k) → Drops before w.db)
    → (continue r (claimed_or (claim_loop 0 at)) env w).0 ≡ ok j
    → Drops before (continue r (claimed_or (claim_loop 0 at)) env w).1.db
unfolding claim_loop
claimed-Drops at (err e) env w before j d h = cc
claimed-Drops at (ok again) env w before j d h = cc
claimed-Drops at (ok (taken k)) env w before j d h = d k refl

-- With a job the queue is shorter.
pub claim_next_queued-Drops :
    (env : Env) (w : World) (j : Job)
    → (claim_next_queued env w).0 ≡ ok j
    → suc (count_if is_queued (claim_next_queued env w).1.db.jobs) ≤ count_if is_queued w.db.jobs
unfolding claim_next_queued
claim_next_queued-Drops env w j h =
    claimed-Drops (env.clock w.steps) _ env _ w.db j
      (claim_once-Drops (env.clock w.steps) env (tick w)) h
