-- ===== src/Queue/World.antt =====
-- What the methods of the store, the service and the runner read and change. A method is an action:
-- it takes the surroundings and the state, and returns its result or error with the new state.
pub mod Keeps
pub mod Then
pub mod Does
pub mod Makes
use dlq_download_queue.Prelude.{
  ℕ, suc, Bool, ◌≡◌, Option, none, some, List, ◌∷◌, false, if◌then◌else◌,
}
use dlq_download_queue.Go.Strings.{Text}
use dlq_download_queue.Go.Error.{Error, Result, ok, err, plain}
use dlq_download_queue.Queue.Job.{Job, Event}

-- The tables jobs and job_events, the newest row first, and the counters of AUTOINCREMENT.
pub record Db : Type 0 where
  pub jobs : List Job
  pub job_seq : ℕ
  pub events : List Event
  pub event_seq : ℕ

-- The options of a download: names with values, a later name hiding an earlier one.
abbrev pub Options : Type 0
Options = List (Text × Text)

-- What the program asks of aria2 and of the file system.
pub data Call : Type 0 where
  add_uri : Text → Options → Call
  tell_status : Text → Call
  pause : Text → Call
  unpause : Text → Call
  remove : Text → Call
  remove_file : Text → Call
  mega_decrypt : Text → Call
  archive_decrypt : Text → Call

-- runner.go, `decryptTask`
pub record DecryptTask : Type 0 where
  pub job_id : ℕ
  pub mega_path : Text
  pub archive_path : Text
  pub out_dir : Text
  pub password : Text
  pub raw_url : Text
  pub site : Text
  pub decrypt_mega : Bool
  pub decrypt_arch : Bool

-- `steps` counts what was done so far, so that the surroundings may answer differently each time.
-- `pending` is the runner's decryptPending, and `spawned` are the goroutines that it has started.
pub record World : Type 0 where
  pub db : Db
  pub steps : ℕ
  pub calls : List Call
  pub pending : List ℕ
  pub spawned : List DecryptTask

-- The clock at each step, in seconds, the steps at which the database driver fails, and whether a
-- COMMIT that reports an error at a step was carried out all the same.
pub record Env : Type 0 where
  pub clock : ℕ → ℕ
  pub db_error : ℕ → Option Text
  pub commit_kept : ℕ → Bool

-- The driver of the database answers at every step.
abbrev pub Quiet : Env → Type 0
Quiet env = (n : ℕ) → env.db_error n ≡ none

abbrev pub M : Type 0 → Type 0
M A = Env → World → Result A × World

abbrev pub pure : {A : Type 0} → A → M A
pure a env w = (ok a, w)

abbrev pub fail : {A : Type 0} → Error → M A
fail e env w = (err e, w)

abbrev pub continue : {A B : Type 0} → Result A → (A → M B) → M B
continue (ok a) f = f a
continue (err e) f = fail e

infixl 5 ◌>>=◌ ◌>>◌
abbrev pub ◌>>=◌ : {A B : Type 0} → M A → (A → M B) → M B
◌>>=◌ m f env w = let (r, w') = m env w in continue r f env w'

abbrev pub ◌>>◌ : {B : Type 0} → M (Unit {0}) → M B → M B
m >> k = m >>= λ _. k

-- The result or error of an action, as a value.
abbrev pub attempt : {A : Type 0} → M A → M (Result A)
attempt m env w = let (r, w') = m env w in (ok r, w')

-- `_ = m`
abbrev pub ignore : {A : Type 0} → M A → M (Unit {0})
ignore m env w = let (r, w') = m env w in (ok tt, w')

abbrev pub tick : World → World
tick w = record w { steps = suc w.steps }

-- time.Now()
unfoldable pub now : M ℕ
now env w = (ok (env.clock w.steps), tick w)

abbrev settle : {A : Type 0} → World → Result A × Db → Result A × World
settle w (r, db) = (r, record (tick w) { db = db })

-- One SQL statement: the driver fails and changes nothing, or the statement is carried out.
unfoldable pub statement : {A : Type 0} → (Db → Result A × Db) → M A
statement f env w = elim (env.db_error w.steps) [
  | some t ↦ (err (plain t), tick w)
  | none ↦ settle w (f w.db)
]

-- An INSERT, UPDATE or DELETE that meets no constraint.
abbrev pub exec : (Db → Db) → M (Unit {0})
exec f = statement (λ db. (ok tt, f db))

-- A SELECT.
abbrev pub query : {A : Type 0} → (Db → A) → M A
query f = statement (λ db. (ok (f db), db))

-- A COMMIT that reports an error has not been carried out, as the driver promises.
abbrev pub CommitsOrNot : Env → Type 0
CommitsOrNot env = (n : ℕ) (t : Text) → env.db_error n ≡ some t → env.commit_kept n ≡ false

-- COMMIT, from the tables that the transaction began with.
abbrev pub commit : {A : Type 0} → Db → A → M A
commit saved a env w = elim (env.db_error w.steps) [
  | some t ↦
      (err (plain t), if env.commit_kept w.steps then tick w else record (tick w) { db = saved })
  | none ↦ (ok a, tick w)
]

-- ROLLBACK to the tables that the transaction began with.
abbrev pub roll_back : {A : Type 0} → Db → Result A → M A
roll_back saved r env w = (r, record w { db = saved })

-- COMMIT behind a body that returned; a body that failed is rolled back.
abbrev pub finish_tx : {A : Type 0} → Db → Result A → M A
finish_tx saved (ok a) = commit saved a
finish_tx saved (err e) = roll_back saved (err e)

abbrev pub run_tx : {A : Type 0} → M A → M A
run_tx body env w = let (r, w') = body env w in finish_tx w.db r env w'

-- BEGIN, the body, and COMMIT or ROLLBACK.
unfoldable pub transaction : {A : Type 0} → M A → M A
transaction body = do exec (λ db. db); run_tx body

-- A request to the outside, which answers by the number of the step.
unfoldable pub request : {A : Type 0} → Call → (ℕ → Result A) → M A
request c answer env w = (answer w.steps, record (tick w) { calls = c ∷ w.calls })

-- A reading of the outside that leaves no trace, such as a setting or a file's presence.
unfoldable pub ask : {A : Type 0} → (ℕ → A) → M A
ask answer env w = (ok (answer w.steps), tick w)
