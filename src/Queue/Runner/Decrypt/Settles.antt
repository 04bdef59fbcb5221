-- ===== src/Queue/Runner/Decrypt/Settles.antt =====
-- internal/queue/runner.go, runDecrypt: a decryption settles its job.
use dlq_download_queue.Queue.Store.{has_id}
use dlq_download_queue.Queue.Store.Rows.{RowsOf, RowsOf-update_rows, Keeps-update_job}
use dlq_download_queue.Queue.Runner.Decrypt.{
  decrypt_failed_as, finish_decrypt, ignore, Text, M, pure, Result, DecryptTask, Decryptor,
  decrypt_steps, mega_done, archive_done, attempt, mega_step, archive_step, when_wanted, Runner,
  err, archive_phase, ok, run_decrypt, unmark_decrypt_pending,
}
use dlq_download_queue.Queue.Store.Marks.{update_job, update_where, default_code}
use dlq_download_queue.Queue.World.{Db, now, Env, World, Quiet, continue, ◌>>◌, ◌>>=◌}
use dlq_download_queue.Queue.Job.{Job, completed, decrypt_failed, error_level, info}
use dlq_download_queue.Queue.World.Keeps.{Keeps-ignore}
use dlq_download_queue.Queue.World.Makes.{
  Makes, Makes-ignore, Makes-then, Makes-first, Makes-both, Makes-exec, Returns-ignore,
}
use dlq_download_queue.Queue.World
use dlq_download_queue.Queue.Store
use dlq_download_queue.Queue.Store.Marks
use dlq_download_queue.Prelude.{
  ℕ, Bool, true, false, ◌≡◌, refl, Option, none, some, ◌⊎◌, inl, inr, if◌then◌else◌,
}

-- Completed, or failed to decrypt and waiting for a retry.
abbrev Settled : Job → Type 0
Settled j = (j.status ≡ completed) ⊎ (j.status ≡ decrypt_failed)

abbrev Forgotten : Job → Type 0
Forgotten j = j.archive_password ≡ none

abbrev pub SettledOf : ℕ → Db → Type 0
SettledOf id db = RowsOf id Settled db.jobs × RowsOf id Forgotten db.jobs

Makes-update_job :
    (id : ℕ) (R : Job → Type 0) (f : ℕ → Job → Job)
    → ((at : ℕ) (j : Job) → R (f at j))
    → Makes (λ db. RowsOf id R db.jobs) (update_job id f)
unfolding update_job now
Makes-update_job id R f r =
    Makes-then now _ (record { at = λ env w. (env.clock w.steps, refl) })
      (λ at.
        Makes-exec (update_where (has_id id) (f at))
          (λ db. RowsOf-update_rows id R (f at) db.jobs (r at)))

mark_and_clear :
    (id : ℕ) (f : ℕ → Job → Job)
    → ((at : ℕ) (j : Job) → Settled (f at j))
    → Makes (SettledOf id) (ignore (update_job id f) >> ignore (Marks.clear_archive_password id))
unfolding Marks.clear_archive_password Marks.clear_archive_password_row
mark_and_clear id f r =
    Makes-both _
      (Makes-first _ _ (Makes-ignore _ (Makes-update_job id Settled f r)) (λ _.
        Keeps-ignore _
          (Keeps-update_job id Settled Marks.clear_archive_password_row (λ at j h. h))))
      (Makes-then (ignore (update_job id f)) _ (Returns-ignore (update_job id f)) (λ _.
        Makes-ignore _
          (Makes-update_job id Forgotten Marks.clear_archive_password_row (λ at j. refl))))

decrypt_failed_as-Makes :
    (id : ℕ) (event msg code : Text) → Makes (SettledOf id) (decrypt_failed_as id event msg code)
unfolding decrypt_failed_as Marks.mark_postprocess_failed Marks.mark_postprocess_failed_row
decrypt_failed_as-Makes id event msg code =
    Makes-then (ignore (Store.add_event id error_level event)) _
      (Returns-ignore (Store.add_event id error_level event))
      (λ _.
        mark_and_clear id (Marks.mark_postprocess_failed_row msg (default_code code))
          (λ at j. inr refl))

finish_decrypt-Makes : (id : ℕ) → Makes (SettledOf id) (finish_decrypt id)
unfolding Marks.mark_completed Marks.mark_completed_row
finish_decrypt-Makes id = mark_and_clear id Marks.mark_completed_row (λ at j. inl refl)

-- A step that either lets the body go on, or has settled the job.
record Decides (id : ℕ) (m : M Bool) : Type 0 where
  at :
      (env : Env) (w : World)
      → Quiet env
      → ((m env w).0 ≡ ok true) ⊎ (((m env w).0 ≡ ok false) × SettledOf id (m env w).1.db)

told_on :
    (id : ℕ) (message : Text) → Decides id (ignore (Store.add_event id info message) >> pure true)
told_on id message = record { at = λ env w q. inl refl }

went_on : (id : ℕ) → Decides id (pure true)
went_on id = record { at = λ env w q. inl refl }

chosen :
    (id : ℕ) (r : Result Bool) (n : M (Unit {0})) (env : Env) (w : World)
    → (r ≡ ok true) ⊎ ((r ≡ ok false) × SettledOf id w.db)
    → Makes (SettledOf id) n
    → Quiet env
    → SettledOf id (continue r (λ on. if on then n else pure tt) env w).1.db
chosen id (ok true) n env w h make q = make.at env w q
chosen id (ok false) n env w (inl e) make q = cc
chosen id (ok false) n env w (inr (e, s)) make q = s
chosen id (err e) n env w (inl h) make q = cc
chosen id (err e) n env w (inr (h, s)) make q = cc

Makes-decided :
    (id : ℕ) (m : M Bool) (n : M (Unit {0}))
    → Decides id m
    → Makes (SettledOf id) n
    → Makes (SettledOf id) (m >>= λ on. if on then n else pure tt)
Makes-decided id m n decide make = record {
  at = λ env w q. chosen id (m env w).0 n env (m env w).1 (decide.at env w q) make q;
}

stopped :
    (id : ℕ) (event msg code : Text)
    → Decides id (decrypt_failed_as id event msg code >> pure false)
unfolding decrypt_failed_as
stopped id event msg code = record {
  at = λ env w q. inr (refl, (decrypt_failed_as-Makes id event msg code).at env w q);
}

mega_done-Decides : (t : DecryptTask) (r : Result Bool) → Decides t.job_id (mega_done t r)
mega_done-Decides t (err e) = stopped t.job_id _ _ _
mega_done-Decides t (ok false) = went_on t.job_id
mega_done-Decides t (ok true) = told_on t.job_id _

archive_done-Decides : (t : DecryptTask) (r : Result Bool) → Decides t.job_id (archive_done t r)
archive_done-Decides t (err e) = stopped t.job_id _ _ _
archive_done-Decides t (ok false) = told_on t.job_id _
archive_done-Decides t (ok true) = told_on t.job_id _

-- An event and an answer that is taken as a value stand before the step's decision.
Decides-answered :
    (id : ℕ) (message : Text) (c : World.Call) (answer : ℕ → Result Bool) (f : Result Bool → M Bool)
    → ((r : Result Bool) → Decides id (f r))
    → Decides id
        (do ignore (Store.add_event id info message); r ← attempt (World.request c answer); f r)
unfolding World.request
Decides-answered id message c answer f decide = record {
  at = λ env w q.
      let w' : World = (Store.add_event id info message env w).1 in
      (decide (answer w'.steps)).at env (World.request c answer env w').1 q;
}

mega_step-Decides : (t : DecryptTask) (d : Decryptor) → Decides t.job_id (mega_step t d)
mega_step-Decides t d =
    Decides-answered t.job_id _ (World.mega_decrypt t.mega_path) (d t.site t.raw_url t.mega_path)
      (mega_done t) (mega_done-Decides t)

archive_step-Decides : (t : DecryptTask) (d : Decryptor) → Decides t.job_id (archive_step t d)
archive_step-Decides t d =
    Decides-answered t.job_id _ (World.archive_decrypt t.archive_path)
      (d t.archive_path t.out_dir t.password) (archive_done t) (archive_done-Decides t)

when_wanted-Decides :
    (id : ℕ) (b : Bool) (d : Option Decryptor) (step : Decryptor → M Bool)
    → ((d : Decryptor) → Decides id (step d))
    → Decides id (when_wanted b d step)
when_wanted-Decides id false d step decide = went_on id
when_wanted-Decides id true none step decide = went_on id
when_wanted-Decides id true (some d) step decide = decide d

decrypt_steps-Makes :
    (r : Runner) (t : DecryptTask) → Makes (SettledOf t.job_id) (decrypt_steps r t)
unfolding decrypt_steps
decrypt_steps-Makes r t =
    Makes-decided t.job_id _ (archive_phase r t)
      (when_wanted-Decides t.job_id t.decrypt_mega r.mega_decryptor (mega_step t)
        (mega_step-Decides t))
      (Makes-decided t.job_id _ (finish_decrypt t.job_id)
        (when_wanted-Decides t.job_id t.decrypt_arch r.archive_decryptor (archive_step t)
          (archive_step-Decides t))
        (finish_decrypt-Makes t.job_id))

-- The goroutine of a decryption that got a worker, run where the database answers, leaves its job
-- completed or failed to decrypt, without its archive password, whatever the decryptors answer.
pub run_decrypt-SettledOf :
    (r : Runner) (t : DecryptTask) (env : Env) (w : World)
    → Quiet env
    → SettledOf t.job_id (run_decrypt r t true env w).1.db
unfolding run_decrypt unmark_decrypt_pending
run_decrypt-SettledOf r t env w q =
    (Makes-first (decrypt_steps r t) _ (decrypt_steps-Makes r t)
        (λ _. record { at = λ env' w' h. h })).at
      env w q
