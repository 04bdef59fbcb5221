-- ===== src/Queue/Store/Claim/Keeps.antt =====
-- What a claim keeps of the tables: anything that its guarded UPDATE keeps.
use dlq_download_queue.Prelude.{ℕ, zero, suc, Option, none, some}
use dlq_download_queue.Go.Error.{Result, ok, err}
use dlq_download_queue.Queue.Job.{Job}
use dlq_download_queue.Queue.World.{Db, World, Env, M, statement}
use dlq_download_queue.Queue.World.Keeps.{
  Keeps, Keeps-statement, Keeps-exec, Keeps-bind, Keeps-fail, Keeps-pure, finish_tx-at, keeps_rules,
}
use dlq_download_queue.Queue.Store.Claim.{
  Claim, again, taken, claim_update, claim_found, claim_body, end_claim, run_claim, claim_once,
  claimed_or, claim_loop, claim_next_queued,
}

module _ {P : Db → Type 0}
    (update : (at id : ℕ) (db : Db) → P db → P (claim_update at id db).1) where
  claim_update-Keeps : (at id : ℕ) → Keeps P (statement (claim_update at id))
  claim_update-Keeps at id = Keeps-statement (claim_update at id) (update at id)

  claim_found-Keeps : (at : ℕ) (o : Option Job) → Keeps P (claim_found at o)
  claim_found-Keeps at none = Keeps-fail _
  claim_found-Keeps at (some j) = search (keeps_rules, claim_update-Keeps)

  claim_body-Keeps : (at : ℕ) → Keeps P (claim_body at)
  unfolding claim_body
  claim_body-Keeps at = search (keeps_rules, claim_found-Keeps)

  end_claim-at :
      (saved : Db) (r : Result Claim) (env : Env) (w : World)
      → P saved
      → P w.db
      → P (end_claim saved r env w).1.db
  end_claim-at saved (ok again) env w hs h = hs
  end_claim-at saved (ok (taken j)) env w hs h = finish_tx-at P saved (ok (taken j)) env w hs h
  end_claim-at saved (err e) env w hs h = hs

  run_claim-Keeps : (at : ℕ) → Keeps P (run_claim at)
  run_claim-Keeps at = record {
    at = λ env w h.
        end_claim-at w.db (claim_body at env w).0 env (claim_body at env w).1 h
          ((claim_body-Keeps at).at env w h);
  }

  claim_once-Keeps : (at : ℕ) → Keeps P (claim_once at)
  unfolding claim_once
  claim_once-Keeps at = Keeps-bind _ _ (Keeps-exec _ (λ db h. h)) (λ _. run_claim-Keeps at)

  claimed_or-Keeps : (rest : M Job) → Keeps P rest → (c : Claim) → Keeps P (claimed_or rest c)
  claimed_or-Keeps rest h again = h
  claimed_or-Keeps rest h (taken j) = Keeps-pure j

  claim_loop-Keeps : (n at : ℕ) → Keeps P (claim_loop n at)
  unfolding claim_loop
  claim_loop-Keeps zero at = Keeps-fail _
  claim_loop-Keeps (suc n) at =
      Keeps-bind _ _ (claim_once-Keeps at) (claimed_or-Keeps _ (claim_loop-Keeps n at))

  pub claim_next_queued-Keeps : Keeps P claim_next_queued
  unfolding claim_next_queued
  claim_next_queued-Keeps = search (keeps_rules, claim_loop-Keeps)
