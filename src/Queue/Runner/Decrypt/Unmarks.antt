-- ===== src/Queue/Runner/Decrypt/Unmarks.antt =====
-- internal/queue/runner.go, runDecrypt: a decryption returns and gives its mark back.
use dlq_download_queue.Queue.Runner.Decrypt.{
  decrypt_failed_as, M, Result, DecryptTask, Decryptor, decrypt_steps, mega_done, archive_done,
  mega_step, archive_step, when_wanted, Runner, err, archive_phase, ok, run_decrypt, is_pending,
  unmark_decrypt_pending,
}
use dlq_download_queue.Queue.World.{Env, World, continue}
use dlq_download_queue.Queue.World.Makes.{Returns, Returns-pure, returns_rules}
use dlq_download_queue.Prelude.{
  ℕ, Bool, true, false, not, ◌≡◌, refl, List, [], ◌∷◌, Option, none, some, any_of, keep_if, ◌==◌,
  arith,
}

pending_left :
    (id : ℕ) (ids : List ℕ) → any_of (λ i. i == id) (keep_if (λ i. not (i == id)) ids) ≡ false
pending_left id [] = refl
pending_left id (i ∷ ids) = ground (arith, pending_left id ids)

mega_done-Returns : (t : DecryptTask) (r : Result Bool) → Returns (mega_done t r)
unfolding decrypt_failed_as
mega_done-Returns t (err e) = search returns_rules
mega_done-Returns t (ok false) = search returns_rules
mega_done-Returns t (ok true) = search returns_rules

archive_done-Returns : (t : DecryptTask) (r : Result Bool) → Returns (archive_done t r)
unfolding decrypt_failed_as
archive_done-Returns t (err e) = search returns_rules
archive_done-Returns t (ok false) = search returns_rules
archive_done-Returns t (ok true) = search returns_rules

when_wanted-Returns :
    (b : Bool) (d : Option Decryptor) (step : Decryptor → M Bool)
    → ((d : Decryptor) → Returns (step d))
    → Returns (when_wanted b d step)
when_wanted-Returns false d step returns = Returns-pure true
when_wanted-Returns true none step returns = Returns-pure true
when_wanted-Returns true (some d) step returns = returns d

mega_step-Returns : (t : DecryptTask) (d : Decryptor) → Returns (mega_step t d)
mega_step-Returns t d = search (returns_rules, mega_done-Returns)

archive_step-Returns : (t : DecryptTask) (d : Decryptor) → Returns (archive_step t d)
archive_step-Returns t d = search (returns_rules, archive_done-Returns)

archive_phase-Returns : (r : Runner) (t : DecryptTask) → Returns (archive_phase r t)
archive_phase-Returns r t = search (returns_rules, when_wanted-Returns, archive_step-Returns)

decrypt_steps-Returns : (r : Runner) (t : DecryptTask) → Returns (decrypt_steps r t)
unfolding decrypt_steps
decrypt_steps-Returns r t =
    search (returns_rules, when_wanted-Returns, mega_step-Returns, archive_phase-Returns)

unmarked :
    (id : ℕ) (r : Result (Unit {0})) (env : Env) (w : World)
    → (a : Unit {0}) × (r ≡ ok a)
    → ((continue r (λ _. unmark_decrypt_pending id) env w).0 ≡ ok tt)
      × (is_pending id (continue r (λ _. unmark_decrypt_pending id) env w).1.pending ≡ false)
unfolding unmark_decrypt_pending
unmarked id (ok _) env w h = (refl, pending_left id w.pending)
unmarked id (err e) env w h = cc

-- Every run of the goroutine, also one that got no worker and one where statements fail, returns
-- and takes the job off the pending ones, so that it can be scheduled again.
pub run_decrypt_unmarks :
    (r : Runner) (t : DecryptTask) (got : Bool) (env : Env) (w : World)
    → ((run_decrypt r t got env w).0 ≡ ok tt)
      × (is_pending t.job_id (run_decrypt r t got env w).1.pending ≡ false)
unfolding run_decrypt
run_decrypt_unmarks r t false env w = unmarked t.job_id (ok tt) env w (tt, refl)
run_decrypt_unmarks r t true env w =
    unmarked t.job_id _ env _ ((decrypt_steps-Returns r t).at env w)
