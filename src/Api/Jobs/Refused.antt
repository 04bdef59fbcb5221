-- ===== src/Api/Jobs/Refused.antt =====
-- internal/api/http.go: a job whose directory or name is refused. The texts of the refusals stand in
-- internal/queue/paths.go, and again in statusForQueueErr.
use dlq_download_queue.Prelude.{
  Bool, true, false, ◌≡◌, refl, sym, ap, ◌∙◌, List, ℤ, Bool-cases, ◌⊎◌, inl, inr, ◌||◌,
  if◌then◌else◌, not, Option, ℕ, text_eq,
}
use dlq_download_queue.Go.Strings.{Text, codes, is_empty}
use dlq_download_queue.Go.Error.{Error, Result, ok, err, plain}
use dlq_download_queue.Queue.Paths.{clean_out_dir, clean_user_filename}
use dlq_download_queue.Queue.World.{Env, World}
use dlq_download_queue.Queue.Service
use dlq_download_queue.Queue.Service.{Service}
use dlq_download_queue.Api.Settings.{Settings}
use dlq_download_queue.Api.Http.{status_for_queue_err, write_queue_err, Response}
use dlq_download_queue.Api.Jobs.{AddJobRequest, add_job, attempts_asked}

abbrev error_or : Error → Result Text → Error
error_or x (ok t) = x
error_or x (err e) = e

told :
    (x e : Error)
    → ◌≡◌ {A = Result Text} (err x) (err e)
    → status_for_queue_err x ≡ 400
    → status_for_queue_err e ≡ 400
told x e h s = ap status_for_queue_err (sym (ap (error_or x) h)) ∙ s

-- One of four refusals.
out_dir_400 :
    (a b c d : Bool) (t : Text) (e : Error)
    → (if a
        then err (plain (codes "missing out_dir"))
        else if b
        then err (plain (codes "no DATA_* volumes configured"))
        else if not c
        then err (plain (codes "out_dir must be absolute"))
        else if not d
        then err (plain (codes "out_dir is not within an allowed DATA_* volume"))
        else ok t)
      ≡ err e
    → status_for_queue_err e ≡ 400
unfolding status_for_queue_err text_eq
out_dir_400 true b c d t e h = told _ e h refl
out_dir_400 false true c d t e h = told _ e h refl
out_dir_400 false false false d t e h = told _ e h refl
out_dir_400 false false true false t e h = told _ e h refl
out_dir_400 false false true true t e h = absurd cc

name_400 :
    (a b c : Bool) (t u : Text) (e : Error)
    → (if a
        then ok t
        else if b
        then err (plain (codes "name must not contain path separators"))
        else if c
        then err (plain (codes "invalid name"))
        else ok u)
      ≡ err e
    → status_for_queue_err e ≡ 400
unfolding status_for_queue_err text_eq
name_400 true b c t u e h = absurd cc
name_400 false true c t u e h = told _ e h refl
name_400 false false true t u e h = told _ e h refl
name_400 false false false t u e h = absurd cc

clean_out_dir-400 :
    (out_dir : Text) (roots : List Text) (e : Error)
    → clean_out_dir out_dir roots ≡ err e
    → status_for_queue_err e ≡ 400
unfolding clean_out_dir
clean_out_dir-400 out_dir roots e h = out_dir_400 _ _ _ _ _ e h

clean_user_filename-400 :
    (name : Text) (e : Error) → clean_user_filename name ≡ err e → status_for_queue_err e ≡ 400
unfolding clean_user_filename
clean_user_filename-400 name e h = name_400 _ _ _ _ _ e h

-- The directory or the name is refused.
abbrev IsRefused : Text → List Text → Text → Type 0
IsRefused out_dir roots name =
    ((e : Error) × (clean_out_dir out_dir roots ≡ err e))
    ⊎ ((e : Error) × (clean_user_filename name ≡ err e))

abbrev pub Answers : ℕ → World → Result Response × World → Type 0
Answers code w x = (r : Response) × (x.0 ≡ ok r) × (r.code ≡ code) × (x.1 ≡ w)

Result-cases : (r : Result Text) → ((t : Text) × (r ≡ ok t)) ⊎ ((e : Error) × (r ≡ err e))
Result-cases (ok t) = inl (t, refl)
Result-cases (err e) = inr (e, refl)

module _ (s : Service) (url out_dir name site password : Text) (max : ℤ) (env : Env)
    (w : World) where
  RefusedJob : Type 0
  RefusedJob =
      (e : Error) × (Service.create_job s url out_dir name site password max env w ≡ (err e, w))
      × (status_for_queue_err e ≡ 400)

  out_dir_refused : (e : Error) → clean_out_dir out_dir s.allowed_roots ≡ err e → RefusedJob
  unfolding RefusedJob Service.create_job
  out_dir_refused e h =
      (e, rw (h, Service.create_job), clean_out_dir-400 out_dir s.allowed_roots e h)

  name_refused : (e : Error) → clean_user_filename name ≡ err e → RefusedJob
  unfolding RefusedJob Service.create_job
  name_refused e h = elim (Result-cases (clean_out_dir out_dir s.allowed_roots)) [
    | inl (t, g) ↦ (e, rw (g, h, Service.create_job), clean_user_filename-400 name e h)
    | inr (e', g) ↦ out_dir_refused e' g
  ]

  create_job_refused : IsRefused out_dir s.allowed_roots name → RefusedJob
  create_job_refused (inl (e, h)) = out_dir_refused e h
  create_job_refused (inr (e, h)) = name_refused e h

-- A request for a job whose directory or name CreateJob refuses is answered 400, and changes
-- nothing.
pub add_job-400 :
    (s : Service) (settings : Option Settings) (q : AddJobRequest) (env : Env) (w : World)
    → IsRefused q.out_dir s.allowed_roots q.name
    → Answers 400 w (add_job s settings q env w)
unfolding add_job write_queue_err RefusedJob
add_job-400 s settings q env w h =
    let max = attempts_asked settings q.max_attempts in
    let (e, made, code) =
      create_job_refused s q.url q.out_dir q.name q.site q.archive_password max env w h in
    elim (Bool-cases (is_empty q.url || is_empty q.out_dir)) [
      | inl b ↦ rw (b, add_job) (_, refl, refl, refl)
      | inr b ↦ rw (b, made, add_job) (write_queue_err e, refl, code, refl)
    ]
