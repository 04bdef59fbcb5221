-- ===== src/Queue/Store/Claim/Oldest.antt =====
-- Which job a claim takes.
use mathlib.Core.Path.{subst}
use dlq_download_queue.Queue.Store.Claim.Search.{oldest, find_first-Memᴰ}
use mathlib.Core.List.{Memᴰ}
use dlq_download_queue.Prelude.{
  and_parts, leb→le, ◌&&◌, ◌⊎◌, ◌∙◌, ℕ, suc, ◌≤◌, true, ◌≡◌, refl, List, [], ◌∷◌, Option, none,
  some, arith, reverse, find_first, inl, inr, All,
}
use dlq_download_queue.Go.Error.{Result, ok, err}
use dlq_download_queue.Queue.Job.{
  Job, queued, resolving, is_live, same_status, same_status→eq, is_live→none,
}
use dlq_download_queue.Queue.World.{Db, World, Env, statement, tick, continue}
use dlq_download_queue.Queue.World.Then.{query-then, exec-then_result}
use dlq_download_queue.Queue.Store.Claim.{
  Claim, again, taken, claim_found, claim_body, end_claim, run_claim, claim_once, claimed_or,
  claim_loop, claim_next_queued, ready, not_before,
}
use dlq_download_queue.Queue.Count.{is_queued}
use dlq_download_queue.Queue.Consistent.{RowOk, IsConsistent}

-- The queued rows of a table are all at least the id.
abbrev pub IsOldest : ℕ → List Job → Type 0
IsOldest id jobs = All (λ (k : Job). is_queued k ≡ true → id ≤ k.id) jobs

-- A consistent queued row is ready at any time.
pub ready-queued : (at : ℕ) (j : Job) → RowOk j → is_queued j ≡ true → ready at j ≡ true
unfolding ready
ready-queued at j h e = ground arith

queued-All :
    (at n : ℕ) (jobs : List Job)
    → All RowOk jobs
    → All (λ k. ready at k ≡ true → n ≤ k.id) jobs
    → IsOldest n jobs
queued-All at n [] h a = tt
queued-All at n (j ∷ jobs) h a = (λ e. a.0 (ready-queued at j h.0 e), queued-All at n jobs h.1 a.1)

-- The row that the query finds is the one that is returned, with its new status.
abbrev Chosen : ℕ → Db → Result Claim × World → Type 0
Chosen at before (r, w) =
    (j : Job)
    → r ≡ ok (taken j)
    → (k : Job) × (find_first (ready at) (reverse before.jobs) ≡ some k)
      × (j ≡ record k { status = resolving })

claim_found-row :
    (at : ℕ) (o : Option Job) (env : Env) (w : World) (j : Job)
    → (claim_found at o env w).0 ≡ ok (taken j)
    → (k : Job) × (o ≡ some k) × (j ≡ record k { status = resolving })
unfolding statement
claim_found-row at none env w j h = cc
claim_found-row at (some k) env w j h = (k, refl, ground arith)

claim_body-Chosen : (at : ℕ) (env : Env) (w : World) → Chosen at w.db (claim_body at env w)
unfolding claim_body
claim_body-Chosen at env w =
    query-then (Chosen at w.db) env w (λ db. find_first (ready at) (reverse db.jobs))
      (claim_found at) (λ e w' same j h. cc)
      (λ w' same j h. claim_found-row at (find_first (ready at) (reverse w.db.jobs)) env w' j h)

end_claim-taken :
    (saved : Db) (r : Result Claim) (env : Env) (w : World) (j : Job)
    → (end_claim saved r env w).0 ≡ ok (taken j)
    → r ≡ ok (taken j)
end_claim-taken saved (ok again) env w j h = cc
end_claim-taken saved (err e) env w j h = cc
end_claim-taken saved (ok (taken k)) env w j h = ground arith

claim_once-Chosen : (at : ℕ) (env : Env) (w : World) → Chosen at w.db (claim_once at env w)
unfolding claim_once
claim_once-Chosen at env w =
    exec-then_result (Chosen at w.db) env w (λ db. db) (run_claim at) (λ e w' same j h. cc)
      (λ w' same j h.
        subst (λ (db : Db). Chosen at db (ok (taken j), w')) same
          (λ i g.
            claim_body-Chosen at env w' i (
              end_claim-taken w'.db (claim_body at env w').0 env (claim_body at env w').1 i
                (h ∙ g)))
          j refl)

claimed-taken :
    (at : ℕ) (r : Result Claim) (env : Env) (w : World) (j : Job)
    → (continue r (claimed_or (claim_loop 0 at)) env w).0 ≡ ok j
    → r ≡ ok (taken j)
unfolding claim_loop
claimed-taken at (err e) env w j h = cc
claimed-taken at (ok again) env w j h = cc
claimed-taken at (ok (taken k)) env w j h = cc

-- Queued, visible, and with no retry time ahead.
abbrev pub IsClaimable : ℕ → Job → Type 0
IsClaimable at k =
    (k.status ≡ queued)
    × (k.deleted_at ≡ none)
    × ((k.next_retry_at ≡ none) ⊎ ((t : ℕ) × (k.next_retry_at ≡ some t) × (t ≤ at)))

due :
    (at : ℕ) (o : Option ℕ)
    → not_before at o ≡ true
    → (o ≡ none) ⊎ ((t : ℕ) × (o ≡ some t) × (t ≤ at))
due at none h = inl refl
due at (some t) h = inr (t, refl, leb→le t at h)

ready-IsClaimable : (at : ℕ) (k : Job) → ready at k ≡ true → IsClaimable at k
unfolding ready
ready-IsClaimable at k h =
    let (shown, time) =
      and_parts (same_status k.status queued && is_live k) (not_before at k.next_retry_at) h in
    let (status, live) = and_parts (same_status k.status queued) (is_live k) shown in
    (same_status→eq k.status queued status, is_live→none k live, due at k.next_retry_at time)

-- The job is a claimable row of the table, the oldest of the queued ones, with its new status.
abbrev pub Claimed : ℕ → List Job → Job → Type 0
Claimed at jobs j =
    (k : Job) × Memᴰ k jobs
    × IsClaimable at k
    × (j ≡ record k { status = resolving })
    × IsOldest k.id jobs

-- From consistent tables, a claim that returns a job has found a row of the table that is
-- queued, not deleted and without a retry time ahead, whose id is the smallest of the queued rows, and
-- returns this row with the status resolving, also where some statements of the database fail.
pub claim_next_queued-IsOldest :
    (env : Env) (w : World) (j : Job)
    → IsConsistent w.db
    → (claim_next_queued env w).0 ≡ ok j
    → Claimed (env.clock w.steps) w.db.jobs j
unfolding claim_next_queued
claim_next_queued-IsOldest env w j c h =
    let at = env.clock w.steps in
    let (k, f, same) =
      claim_once-Chosen at env (tick w) j
        (claimed-taken at (claim_once at env (tick w)).0 env _ j h) in
    let (there, is_ready) = find_first-Memᴰ (ready at) w.db.jobs k f in
    (
      k,
      there,
      ready-IsClaimable at k is_ready,
      same,
      queued-All at k.id w.db.jobs c.rows
          (oldest (ready at) (suc w.db.job_seq) w.db.jobs k c.job_ids f).1,
    )
