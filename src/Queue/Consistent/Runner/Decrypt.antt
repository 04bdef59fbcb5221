-- ===== src/Queue/Consistent/Runner/Decrypt.antt =====
-- Planning and running a decryption keeps the tables consistent.
use dlq_download_queue.Prelude.{ℕ, Bool, true, false, Option, none, some, Bool-cases, inl, inr}
use dlq_download_queue.Go.Strings.{Text}
use dlq_download_queue.Go.Error.{Result, ok, err}
use dlq_download_queue.Queue.Job.{Job}
use dlq_download_queue.Queue.Engine.{EngineStatus}
use dlq_download_queue.Queue.World.{M, DecryptTask}
use dlq_download_queue.Queue.Consistent.Marks.{Safe}
use dlq_download_queue.Queue.Consistent.Store.{store_rules}
use dlq_download_queue.Queue.Runner
use dlq_download_queue.Queue.Runner.{Runner, Decryptor}
use dlq_download_queue.Queue.Runner.Decrypt

asked-Safe : (g : Option (ℕ → Bool)) → Safe (Runner.ask_or_false g)
asked-Safe none = search store_rules
asked-Safe (some f) = search store_rules

pub auto_decrypt_enabled-Safe : (r : Runner) → Safe (Runner.auto_decrypt_enabled r)
unfolding Runner.auto_decrypt_enabled
auto_decrypt_enabled-Safe r = asked-Safe r.get_auto_decrypt

resolve_archive_entry_path-Safe :
    (r : Runner) (path : Text) → Safe (Decrypt.resolve_archive_entry_path r path)
unfolding Decrypt.resolve_archive_entry_path
resolve_archive_entry_path-Safe r path = search store_rules

archive_decrypt_wait_message-Safe :
    (j : Job) (path : Text) → Safe (Decrypt.archive_decrypt_wait_message j path)
unfolding Decrypt.archive_decrypt_wait_message
archive_decrypt_wait_message-Safe j path = search store_rules

archive_wanted-Safe :
    (r : Runner) (d : Option Decryptor) (j : Job) (path password : Text)
    → Safe (Decrypt.archive_wanted r d j path password)
archive_wanted-Safe r none j path password = search store_rules
archive_wanted-Safe r (some d) j path password = search (store_rules, auto_decrypt_enabled-Safe)

should_decrypt_archive-Safe :
    (r : Runner) (j : Job) (path password : Text)
    → Safe (Decrypt.should_decrypt_archive r j path password)
unfolding Decrypt.should_decrypt_archive
should_decrypt_archive-Safe r j path password =
    archive_wanted-Safe r r.archive_decryptor j path password

plan_for-Safe : (j : Job) (t : DecryptTask) → Safe (Decrypt.plan_for j t)
plan_for-Safe j t = search (store_rules, archive_decrypt_wait_message-Safe) depth 8

pub build_decrypt_task-Safe :
    (r : Runner) (j : Job) (st : Option EngineStatus) → Safe (Decrypt.build_decrypt_task r j st)
unfolding Decrypt.build_decrypt_task
build_decrypt_task-Safe r j st =
    search
      (store_rules, resolve_archive_entry_path-Safe, should_decrypt_archive-Safe, plan_for-Safe)

pub schedule_decrypt-Safe : (t : DecryptTask) → Safe (Decrypt.schedule_decrypt t)
unfolding Decrypt.schedule_decrypt
schedule_decrypt-Safe t = record {
  at = λ env w h. elim (Bool-cases (Decrypt.is_pending t.job_id w.pending)) [
    | inl e ↦ rw e h
    | inr e ↦ rw e h
  ];
}

unmark_decrypt_pending-Safe : (id : ℕ) → Safe (Decrypt.unmark_decrypt_pending id)
unfolding Decrypt.unmark_decrypt_pending
unmark_decrypt_pending-Safe id = record { at = λ env w h. h }

decrypt_failed_as-Safe :
    (id : ℕ) (event msg code : Text) → Safe (Decrypt.decrypt_failed_as id event msg code)
unfolding Decrypt.decrypt_failed_as
decrypt_failed_as-Safe id event msg code = search store_rules

mega_done-Safe : (t : DecryptTask) (r : Result Bool) → Safe (Decrypt.mega_done t r)
mega_done-Safe t (err e) = search (store_rules, decrypt_failed_as-Safe)
mega_done-Safe t (ok false) = search store_rules
mega_done-Safe t (ok true) = search store_rules

mega_step-Safe : (t : DecryptTask) (d : Decryptor) → Safe (Decrypt.mega_step t d)
mega_step-Safe t d = search (store_rules, mega_done-Safe)

archive_done-Safe : (t : DecryptTask) (r : Result Bool) → Safe (Decrypt.archive_done t r)
archive_done-Safe t (err e) = search (store_rules, decrypt_failed_as-Safe)
archive_done-Safe t (ok false) = search store_rules
archive_done-Safe t (ok true) = search store_rules

archive_step-Safe : (t : DecryptTask) (d : Decryptor) → Safe (Decrypt.archive_step t d)
archive_step-Safe t d = search (store_rules, archive_done-Safe)

when_wanted-Safe :
    (b : Bool) (d : Option Decryptor) (step : Decryptor → M Bool)
    → ((x : Decryptor) → Safe (step x))
    → Safe (Decrypt.when_wanted b d step)
when_wanted-Safe false d step h = search store_rules
when_wanted-Safe true none step h = search store_rules
when_wanted-Safe true (some d) step h = h d

finish_decrypt-Safe : (id : ℕ) → Safe (Decrypt.finish_decrypt id)
finish_decrypt-Safe id = search store_rules

ruleset decrypt_rules =
    (store_rules, when_wanted-Safe, mega_step-Safe, archive_step-Safe, finish_decrypt-Safe)

archive_phase-Safe : (r : Runner) (t : DecryptTask) → Safe (Decrypt.archive_phase r t)
archive_phase-Safe r t = search decrypt_rules

decrypt_steps-Safe : (r : Runner) (t : DecryptTask) → Safe (Decrypt.decrypt_steps r t)
unfolding Decrypt.decrypt_steps
decrypt_steps-Safe r t = search (decrypt_rules, archive_phase-Safe)

pub run_decrypt-Safe :
    (r : Runner) (t : DecryptTask) (got : Bool) → Safe (Decrypt.run_decrypt r t got)
unfolding Decrypt.run_decrypt
run_decrypt-Safe r t got = search (store_rules, decrypt_steps-Safe, unmark_decrypt_pending-Safe)
