-- ===== src/Queue/World/Keeps.antt =====
-- Predicates on the tables that an action keeps, whatever it returns and whichever of its statements
-- fail: one rule for each way to build an action.
use dlq_download_queue.Prelude.{
  ℕ, Bool, true, false, if◌then◌else◌, ◌≡◌, refl, Option-cases, inl, inr, Bool-cases,
}
use dlq_download_queue.Go.Error.{Error, Result, ok, err}
use dlq_download_queue.Queue.World.{
  Db, World, Env, Call, M, pure, fail, continue, ◌>>=◌, ◌>>◌, attempt, ignore, now, statement, exec,
  query, transaction, run_tx, commit, finish_tx, request, ask,
}

pub record Keeps {A : Type 0} (P : Db → Type 0) (m : M A) : Type 0 where
  pub at : (env : Env) (w : World) → P w.db → P (m env w).1.db

module _ {A : Type 0} {P : Db → Type 0} where
  pub Keeps-pure : (a : A) → Keeps P (pure a)
  Keeps-pure a = record { at = λ env w h. h }

  pub Keeps-fail : (e : Error) → Keeps P (fail {A = A} e)
  Keeps-fail e = record { at = λ env w h. h }

  pub Keeps-ask : (f : ℕ → A) → Keeps P (ask f)
  unfolding ask
  Keeps-ask f = record { at = λ env w h. h }

  pub Keeps-request : (c : Call) (f : ℕ → Result A) → Keeps P (request c f)
  unfolding request
  Keeps-request c f = record { at = λ env w h. h }

  pub Keeps-statement :
      (f : Db → Result A × Db) → ((db : Db) → P db → P (f db).1) → Keeps P (statement f)
  unfolding statement
  Keeps-statement f keep = record {
    at = λ env w h. elim (Option-cases (env.db_error w.steps)) [
      | inl e ↦ rw (e, statement) (keep w.db h)
      | inr (t, e) ↦ rw (e, statement) h
    ];
  }

  pub Keeps-if : (b : Bool) (m n : M A) → Keeps P m → Keeps P n → Keeps P (if b then m else n)
  Keeps-if true m n km kn = km
  Keeps-if false m n km kn = kn

module _ {P : Db → Type 0} where
  pub Keeps-now : Keeps P now
  unfolding now
  Keeps-now = record { at = λ env w h. h }

  pub Keeps-exec : (f : Db → Db) → ((db : Db) → P db → P (f db)) → Keeps P (exec f)
  Keeps-exec f keep = Keeps-statement (λ db. (ok tt, f db)) keep

module _ {A : Type 0} {P : Db → Type 0} where
  pub Keeps-query : (f : Db → A) → Keeps P (query f)
  Keeps-query f = Keeps-statement (λ db. (ok (f db), db)) (λ db h. h)

  pub Keeps-ignore : (m : M A) → Keeps P m → Keeps P (ignore m)
  Keeps-ignore m km = record { at = λ env w h. km.at env w h }

  pub Keeps-attempt : (m : M A) → Keeps P m → Keeps P (attempt m)
  Keeps-attempt m km = record { at = λ env w h. km.at env w h }

module _ {A B : Type 0} {P : Db → Type 0} where
  Keeps-continue : (r : Result A) (f : A → M B) → ((a : A) → Keeps P (f a)) → Keeps P (continue r f)
  Keeps-continue (ok a) f kf = kf a
  Keeps-continue (err e) f kf = Keeps-fail e

  pub Keeps-bind :
      (m : M A) (f : A → M B) → Keeps P m → ((a : A) → Keeps P (f a)) → Keeps P (m >>= f)
  Keeps-bind m f km kf = record {
    at = λ env w h. (Keeps-continue (m env w).0 f kf).at env (m env w).1 (km.at env w h);
  }

pub finish_tx-at :
    {A : Type 0} (P : Db → Type 0) (saved : Db) (r : Result A) (env : Env) (w : World)
    → P saved
    → P w.db
    → P (finish_tx saved r env w).1.db
finish_tx-at P saved (err e) env w hs h = hs
finish_tx-at P saved (ok a) env w hs h = elim (Option-cases (env.db_error w.steps)) [
  | inl e ↦ rw (e, commit) h
  | inr (t, e) ↦
      rw (e, commit)
        (elim (Bool-cases (env.commit_kept w.steps)) [ inl k ↦ rw k h | inr k ↦ rw k hs ])
]

module _ {A : Type 0} {P : Db → Type 0} where
  Keeps-run_tx : (m : M A) → Keeps P m → Keeps P (run_tx m)
  Keeps-run_tx m km = record {
    at = λ env w h. finish_tx-at P w.db (m env w).0 env (m env w).1 h (km.at env w h);
  }

  pub Keeps-transaction : (m : M A) → Keeps P m → Keeps P (transaction m)
  unfolding transaction
  Keeps-transaction m km =
      Keeps-bind (exec (λ db. db)) (λ _. run_tx m) (Keeps-statement _ (λ db h. h))
        (λ _. Keeps-run_tx m km)

-- What holds behind a statement: it failed and nothing changed, or the rest goes on from its change.
pub exec-then :
    {B : Type 0} (P : Db → Type 0) (f : Db → Db) (k : M B) (env : Env) (w : World)
    → P w.db
    → ((w' : World) → w'.db ≡ f w.db → P (k env w').1.db)
    → P ((exec f >> k) env w).1.db
unfolding statement
exec-then P f k env w h next = elim (Option-cases (env.db_error w.steps)) [
  | inl e ↦ rw (e, statement) (next _ refl)
  | inr (t, e) ↦ rw (e, statement) h
]

pub ruleset keeps_rules = (
  Keeps-query, Keeps-pure, Keeps-fail, Keeps-ask, Keeps-request, Keeps-if, Keeps-now, Keeps-ignore,
  Keeps-attempt, Keeps-bind, Keeps-transaction,
)
