-- ===== src/Queue/Store/Claim/Empty.antt =====
-- A claim that fails though the database answers: there is no queued job.
use dlq_download_queue.Prelude.{
  ℕ, suc, ◌≤◌, ◌≡◌, ◌≢◌, refl, List, [], ◌∷◌, Option, none, some, arith, reverse, find_first,
  count_if, All, true,
}
use dlq_download_queue.Go.Error.{Error, Result, ok, err}
use dlq_download_queue.Queue.Job.{Job}
use dlq_download_queue.Queue.World.{Db, World, Env, Quiet, statement, commit, tick, continue}
use dlq_download_queue.Queue.Count.{is_queued}
use dlq_download_queue.Queue.Consistent.{RowOk, IsConsistent}
use dlq_download_queue.Queue.Store.Claim.{
  Claim, again, taken, ready, claim_found, claim_body, end_claim, claim_once, claimed_or,
  claim_loop, claim_next_queued,
}
use dlq_download_queue.Queue.Store.Claim.Oldest.{ready-queued}
use dlq_download_queue.Queue.Store.Claim.Search.{none_left}
use dlq_download_queue.Queue.Store.Claim.Rounds.{claim_once-Taken}

-- No row of the table is ready.
abbrev NoneReady : ℕ → Db → Type 0
NoneReady at db = find_first (ready at) (reverse db.jobs) ≡ none

-- A failure comes of a table without a ready row.
abbrev FailsEmpty : ℕ → Db → Result Claim → Type 0
FailsEmpty at db r = (e : Error) → r ≡ err e → NoneReady at db

claim_found-FailsEmpty :
    (at : ℕ) (db : Db) (o : Option Job) (env : Env) (w : World)
    → Quiet env
    → find_first (ready at) (reverse db.jobs) ≡ o
    → FailsEmpty at db (claim_found at o env w).0
unfolding statement
claim_found-FailsEmpty at db none env w q f = λ e h. f
claim_found-FailsEmpty at db (some j) env w q f =
    rw (q w.steps, statement, q (suc w.steps)) (λ e h. cc)

claim_body-FailsEmpty :
    (at : ℕ) (env : Env) (w : World) → Quiet env → FailsEmpty at w.db (claim_body at env w).0
unfolding claim_body statement
claim_body-FailsEmpty at env w q =
    rw (q w.steps, statement) (claim_found-FailsEmpty at w.db _ env _ q refl)

end_claim-FailsEmpty :
    (at : ℕ) (saved before : Db) (r : Result Claim) (env : Env) (w : World)
    → Quiet env
    → FailsEmpty at before r
    → FailsEmpty at before (end_claim saved r env w).0
end_claim-FailsEmpty at saved before (ok again) env w q f = λ e h. cc
end_claim-FailsEmpty at saved before (ok (taken j)) env w q f = rw (q w.steps, commit) (λ e h. cc)
end_claim-FailsEmpty at saved before (err x) env w q f = f

claim_once-FailsEmpty :
    (at : ℕ) (env : Env) (w : World) → Quiet env → FailsEmpty at w.db (claim_once at env w).0
unfolding claim_once statement
claim_once-FailsEmpty at env w q =
    rw (q w.steps, statement)
      (end_claim-FailsEmpty at _ w.db _ env _ q (claim_body-FailsEmpty at env (tick w) q))

claimed-FailsEmpty :
    (at : ℕ) (db : Db) (r : Result Claim) (env : Env) (w : World) {e : Error}
    → r ≢ ok again
    → FailsEmpty at db r
    → (continue r (claimed_or (claim_loop 0 at)) env w).0 ≡ err e
    → NoneReady at db
claimed-FailsEmpty at db (err x) env w t f h = f x refl
claimed-FailsEmpty at db (ok again) env w t f h = absurd (t refl)
claimed-FailsEmpty at db (ok (taken j)) env w t f h = absurd cc

-- Rows of which none is ready are not queued.
none_queued :
    (at : ℕ) (jobs : List Job)
    → All RowOk jobs
    → ((n : ℕ) → All (λ (k : Job). ready at k ≡ true → n ≤ k.id) jobs)
    → count_if is_queued jobs ≡ 0
none_queued at [] h a = refl
none_queued at (j ∷ jobs) h a =
    let rest = none_queued at jobs h.1 (λ n. (a n).1) in
    let above : is_queued j ≡ true → suc j.id ≤ j.id =
      λ e. (a (suc j.id)).0 (ready-queued at j h.0 e) in
    ground arith

-- Where the database answers at every step, a claim from consistent tables that returns no job
-- finds no queued row.
pub claim_next_queued-empty :
    (env : Env) (w : World) {e : Error}
    → Quiet env
    → IsConsistent w.db
    → (claim_next_queued env w).0 ≡ err e
    → count_if is_queued w.db.jobs ≡ 0
unfolding claim_next_queued
claim_next_queued-empty env w q c h =
    let at = env.clock w.steps in
    let empty =
      claimed-FailsEmpty at w.db (claim_once at env (tick w)).0 env _
        (claim_once-Taken at env (tick w)) (claim_once-FailsEmpty at env (tick w) q) h in
    none_queued at w.db.jobs c.rows (λ n. none_left (ready at) n w.db.jobs empty)
