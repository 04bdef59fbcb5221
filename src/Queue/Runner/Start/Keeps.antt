-- ===== src/Queue/Runner/Start/Keeps.antt =====
-- What resolveAndStart keeps of the tables: anything that the four operations keep which it applies
-- to the row of its job.
use dlq_download_queue.Prelude.{ℕ, Bool, true, false, Option, none, some, ℤ}
use dlq_download_queue.Go.Strings.{Text}
use dlq_download_queue.Go.Error.{Error, Result, ok, err}
use dlq_download_queue.Queue.Job.{Job, Level}
use dlq_download_queue.Queue.World.{Db, Options}
use dlq_download_queue.Queue.World.Keeps.{Keeps, Keeps-query, keeps_rules}
use dlq_download_queue.Queue.Store
use dlq_download_queue.Queue.Store.Marks
use dlq_download_queue.Queue.Runner.{Runner}
use dlq_download_queue.Queue.Runner.Start
use dlq_download_queue.Resolver.{ResolvedTarget}

pub record StartKeeps (P : Db → Type 0) (id : ℕ) : Type 0 where
  pub event : (level : Level) (msg : Text) → Keeps P (Store.add_event id level msg)
  pub resolving : (url name : Text) (size : ℤ) → Keeps P (Marks.update_resolving id url name size)
  pub failing : (code msg : Text) (retry : Option ℕ) → Keeps P (Marks.mark_failed id code msg retry)
  pub starting : (engine gid : Text) → Keeps P (Marks.mark_downloading id engine gid)

module _ {P : Db → Type 0} where
  pub found-Keeps : (o : Option Job) → Keeps P (Store.found o)
  found-Keeps none = search keeps_rules
  found-Keeps (some j) = search keeps_rules

  get_job-Keeps : (id : ℕ) → Keeps P (Store.get_job id)
  unfolding Store.get_job
  get_job-Keeps id = search (keeps_rules, found-Keeps)

  pub list_jobs-Keeps : (status : Text) (all : Bool) → Keeps P (Store.list_jobs status all)
  unfolding Store.list_jobs
  list_jobs-Keeps status all = Keeps-query _

  conflict-Keeps : (j : Job) (name : Text) → Keeps P (Start.has_active_output_conflict j name)
  unfolding Start.has_active_output_conflict
  conflict-Keeps j name = search (keeps_rules, list_jobs-Keeps)

  removed_file-Keeps : (r : Result (Unit {0})) → Keeps P (Start.removed_file r)
  removed_file-Keeps (ok _) = search keeps_rules
  removed_file-Keeps (err e) = search keeps_rules

  remove_control-Keeps :
      (r : Runner) (j : Job) (name : Text) (b : Bool) → Keeps P (Start.remove_control r j name b)
  remove_control-Keeps r j name true = search keeps_rules
  remove_control-Keeps r j name false = search (keeps_rules, removed_file-Keeps)

  prepare_output-Keeps :
      (r : Runner) (j : Job) (name : Text) (opts : Options)
      → Keeps P (Start.prepare_output_for_start r j name opts)
  unfolding Start.prepare_output_for_start
  prepare_output-Keeps r j name opts = search (keeps_rules, conflict-Keeps, remove_control-Keeps)

module _ {P : Db → Type 0} (j : Job) (k : StartKeeps P j.id) where
  open k use {event, resolving, failing, starting}

  fail_job-Keeps :
      (event' code msg : Text) (at : ℕ) → Keeps P (Start.fail_job j.id event' code msg at)
  unfolding Start.fail_job
  fail_job-Keeps event' code msg at = search (keeps_rules, event, failing)

  fail_in-Keeps :
      (event' code msg : Text) (wait : ℕ) → Keeps P (Start.fail_in j.id event' code msg wait)
  unfolding Start.fail_in
  fail_in-Keeps event' code msg wait = search (keeps_rules, event, failing)

  resolve_failed-Keeps : (e : Error) → Keeps P (Start.resolve_failed j.id e)
  unfolding Start.resolve_failed
  resolve_failed-Keeps e = search (keeps_rules, fail_job-Keeps)

  added-Keeps : (r : Result Text) → Keeps P (Start.added j r)
  added-Keeps (err e) = fail_in-Keeps _ _ _ _
  added-Keeps (ok gid) = search (keeps_rules, event, starting)

  start_in_engine-Keeps :
      (r : Runner) (t : ResolvedTarget) (opts : Options)
      → Keeps P (Start.start_in_engine r j t opts)
  unfolding Start.start_in_engine
  start_in_engine-Keeps r t opts = search (keeps_rules, added-Keeps)

  prepared-Keeps :
      (r : Runner) (t : ResolvedTarget) (opts : Options) (p : Result (Unit {0}))
      → Keeps P (Start.prepared r j t opts p)
  prepared-Keeps r t opts (ok _) = start_in_engine-Keeps r t _
  prepared-Keeps r t opts (err e) = fail_in-Keeps _ _ _ _

  prepare_and_start-Keeps :
      (r : Runner) (t : ResolvedTarget) (opts : Options)
      → Keeps P (Start.prepare_and_start r j t opts)
  unfolding Start.prepare_and_start
  prepare_and_start-Keeps r t opts = search (keeps_rules, prepare_output-Keeps, prepared-Keeps)

  resolved-Keeps : (r : Runner) (t : Result ResolvedTarget) → Keeps P (Start.resolved r j t)
  resolved-Keeps r (err e) = resolve_failed-Keeps e
  resolved-Keeps r (ok t) = search (keeps_rules, resolving, fail_in-Keeps, prepare_and_start-Keeps)

  pub resolve_and_start-Keeps : (r : Runner) → Keeps P (Start.resolve_and_start r j)
  unfolding Start.resolve_and_start
  resolve_and_start-Keeps r = search (keeps_rules, get_job-Keeps, event, resolved-Keeps)
