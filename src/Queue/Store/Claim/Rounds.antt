-- ===== src/Queue/Store/Claim/Rounds.antt =====
-- internal/queue/store.go, ClaimNextQueued: the loop goes round once.
use dlq_download_queue.Queue.Store.Claim.Search.{held-or_else, find_first-reverse}
use dlq_download_queue.Queue.World.{statement, Db, Env, World, continue}
use dlq_download_queue.Go.Error.{Result, ok, err}
use dlq_download_queue.Queue.Store.Claim.{
  ready, claim_body, claim_once, claim_loop, claim_target, Claim, claim_found, run_claim, again,
  end_claim, claimed_or, taken,
}
use dlq_download_queue.Queue.Job.{Job}
use dlq_download_queue.Queue.World.Then.{query-then, exec-then_result}
use dlq_download_queue.Prelude.{
  ℕ, suc, ◌≤◌, ◌≡◌, ◌≢◌, refl, sym, ◌∙◌, inl, inr, List, [], ◌∷◌, Option, none, some, count_if,
  arith, reverse, find_first, ap,
}

-- The row that the query finds is one that the guarded UPDATE changes.
targeted :
    (at : ℕ) (jobs : List Job) (j : Job)
    → find_first (ready at) (reverse jobs) ≡ some j
    → 1 ≤ count_if (claim_target j.id) jobs
unfolding ready
targeted at [] j h = cc
targeted at (x ∷ jobs) j h =
    elim (held-or_else (find_first (ready at) (reverse jobs)) (ready at x) x j
      (sym (find_first-reverse (ready at) x jobs) ∙ h)) [
        | inl f ↦ let rest = targeted at jobs j f in ground arith
        | inr (b, e) ↦ let same = ap (λ (k : Job). k.id) e in ground arith
      ]

abbrev Taken : Result Claim × World → Type 0
Taken (r, w) = r ≢ ok again

claim_found-Taken :
    (at : ℕ) (jobs : List Job) (o : Option Job) (env : Env) (w : World)
    → w.db.jobs ≡ jobs
    → find_first (ready at) (reverse jobs) ≡ o
    → Taken (claim_found at o env w)
unfolding statement
claim_found-Taken at jobs none env w same f h = cc
claim_found-Taken at jobs (some j) env w same f h =
    let counted : 1 ≤ count_if (claim_target j.id) w.db.jobs = rw same (targeted at jobs j f) in
    ground arith

claim_body-Taken : (at : ℕ) (env : Env) (w : World) → Taken (claim_body at env w)
unfolding claim_body
claim_body-Taken at env w =
    query-then Taken env w (λ db. find_first (ready at) (reverse db.jobs)) (claim_found at)
      (λ e w' same h. cc)
      (λ w' same. claim_found-Taken at w.db.jobs _ env w' (ap (λ (db : Db). db.jobs) same) refl)

end_claim-Taken :
    (saved : Db) (r : Result Claim) (env : Env) (w : World)
    → r ≢ ok again
    → Taken (end_claim saved r env w)
end_claim-Taken saved (ok again) env w t h = t h
end_claim-Taken saved (err e) env w t h = cc
end_claim-Taken saved (ok (taken k)) env w t h = ground arith

pub claim_once-Taken : (at : ℕ) (env : Env) (w : World) → Taken (claim_once at env w)
unfolding claim_once
claim_once-Taken at env w =
    exec-then_result Taken env w (λ db. db) (run_claim at) (λ e w' same h. cc)
      (λ w' same. end_claim-Taken w'.db _ env _ (claim_body-Taken at env w'))

claimed_once :
    (n at : ℕ) (r : Result Claim) (env : Env) (w : World)
    → r ≢ ok again
    → continue r (claimed_or (claim_loop n at)) env w
      ≡ continue r (claimed_or (claim_loop 0 at)) env w
claimed_once n at (err e) env w t = refl
claimed_once n at (ok (taken j)) env w t = refl
claimed_once n at (ok again) env w t = absurd (t refl)

-- More rounds than one change nothing: the UPDATE of a claim always meets the row that its
-- transaction has just read, so that the loop never goes round, also where statements of the
-- database fail.
pub claim_loop_rounds :
    (n at : ℕ) (env : Env) (w : World) → claim_loop (suc n) at env w ≡ claim_loop 1 at env w
unfolding claim_loop
claim_loop_rounds n at env w =
    claimed_once n at (claim_once at env w).0 env (claim_once at env w).1
      (claim_once-Taken at env w)
