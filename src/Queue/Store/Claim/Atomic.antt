-- ===== src/Queue/Store/Claim/Atomic.antt =====
-- A claim that fails changes nothing: it rolls its transaction back, also behind the UPDATE.
use dlq_download_queue.Prelude.{ℕ, ◌≡◌, refl, ◌∙◌, Option-cases, inl, inr}
use dlq_download_queue.Go.Error.{Error, Result, ok, err}
use dlq_download_queue.Queue.Job.{Job}
use dlq_download_queue.Queue.World.{Db, World, Env, CommitsOrNot, commit, tick, continue}
use dlq_download_queue.Queue.World.Then.{exec-then_result}
use dlq_download_queue.Queue.Store.Claim.{
  Claim, again, taken, claim_body, end_claim, run_claim, claim_once, claimed_or, claim_loop,
  claim_next_queued,
}

-- Without a job the tables are those before.
abbrev Unchanged : Db → Result Claim × World → Type 0
Unchanged before (r, w) = ((j : Job) → ¬ (r ≡ ok (taken j))) → w.db ≡ before

end_claim-Unchanged :
    (saved : Db) (r : Result Claim) (env : Env) (w : World)
    → CommitsOrNot env
    → Unchanged saved (end_claim saved r env w)
end_claim-Unchanged saved (ok again) env w c h = refl
end_claim-Unchanged saved (err e) env w c h = refl
end_claim-Unchanged saved (ok (taken k)) env w c h = elim (Option-cases (env.db_error w.steps)) [
  | inl e ↦ absurd (h k (rw (e, commit) refl))
  | inr (t, e) ↦ rw (e, commit, c w.steps t e) refl
]

claim_once-Unchanged :
    (at : ℕ) (env : Env) (w : World) → CommitsOrNot env → Unchanged w.db (claim_once at env w)
unfolding claim_once
claim_once-Unchanged at env w c =
    exec-then_result (Unchanged w.db) env w (λ db. db) (run_claim at) (λ e w' same h. same)
      (λ w' same h.
        end_claim-Unchanged w'.db (claim_body at env w').0 env (claim_body at env w').1 c h ∙ same)

claimed-Unchanged :
    (at : ℕ) (r : Result Claim) (env : Env) (w : World) (before : Db) {e : Error}
    → Unchanged before (r, w)
    → (continue r (claimed_or (claim_loop 0 at)) env w).0 ≡ err e
    → (continue r (claimed_or (claim_loop 0 at)) env w).1.db ≡ before
unfolding claim_loop
claimed-Unchanged at (err x) env w before u h = u (λ j p. cc)
claimed-Unchanged at (ok again) env w before u h = u (λ j p. cc)
claimed-Unchanged at (ok (taken k)) env w before u h = cc

-- A claim that fails, for want of a job or because a step fails, also behind its UPDATE, leaves the
-- tables as they were, if a COMMIT that reports an error has not been carried out.
pub claim_error_unchanged :
    (env : Env) (w : World) {e : Error}
    → CommitsOrNot env
    → (claim_next_queued env w).0 ≡ err e
    → (claim_next_queued env w).1.db ≡ w.db
unfolding claim_next_queued
claim_error_unchanged env w c h =
    claimed-Unchanged (env.clock w.steps) _ env _ w.db
      (claim_once-Unchanged (env.clock w.steps) env (tick w) c) h
