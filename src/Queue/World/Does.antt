-- ===== src/Queue/World/Does.antt =====
-- What holds of the tables wherever an action returns without an error: one rule for each way to
-- build an action.
use dlq_download_queue.Queue.World.Keeps.{Keeps}
use dlq_download_queue.Queue.World.{
  Db, M, Error, statement, Result, Env, fail, ok, continue, ◌>>=◌, World, err, exec,
}
use dlq_download_queue.Prelude.{refl, Bool, true, false, ◌≡◌, Option-cases, inl, inr, if◌then◌else◌}

pub record Does {A : Type 0} (Q : Db → Type 0) (m : M A) : Type 0 where
  pub at : (env : Env) (w : World) (a : A) → (m env w).0 ≡ ok a → Q (m env w).1.db

module _ {A : Type 0} {Q : Db → Type 0} where
  pub Does-fail : (e : Error) → Does Q (fail {A = A} e)
  Does-fail e = record { at = λ env w a h. cc }

  pub Does-if : (b : Bool) (m n : M A) → Does Q m → Does Q n → Does Q (if b then m else n)
  Does-if true m n dm dn = dm
  Does-if false m n dm dn = dn

  -- A statement that fails, or whose answer is an error, promises nothing.
  pub Does-statement :
      (f : Db → Result A × Db)
      → ((db : Db) (a : A) → (f db).0 ≡ ok a → Q (f db).1)
      → Does Q (statement f)
  unfolding statement
  Does-statement f does = record {
    at = λ env w. elim (Option-cases (env.db_error w.steps)) [
      | inl e ↦ rw (e, statement) (λ a h. does w.db a h)
      | inr (t, e) ↦ rw (e, statement) (λ a h. cc)
    ];
  }

pub Does-exec : {Q : Db → Type 0} (f : Db → Db) → ((db : Db) → Q (f db)) → Does Q (exec f)
Does-exec f does = Does-statement (λ db. (ok tt, f db)) (λ db a h. does db)

module _ {A B : Type 0} {Q : Db → Type 0} where
  Does-continue : (r : Result A) (f : A → M B) → ((a : A) → Does Q (f a)) → Does Q (continue r f)
  Does-continue (ok a) f df = df a
  Does-continue (err e) f df = Does-fail e

  pub Does-then : (m : M A) (f : A → M B) → ((a : A) → Does Q (f a)) → Does Q (m >>= f)
  Does-then m f df = record { at = λ env w. (Does-continue (m env w).0 f df).at env (m env w).1 }

  Does-kept :
      (r : Result A) (f : A → M B) (env : Env) (w : World)
      → ((a : A) → r ≡ ok a → Q w.db)
      → ((a : A) → Keeps Q (f a))
      → (b : B) → (continue r f env w).0 ≡ ok b
      → Q (continue r f env w).1.db
  Does-kept (ok a) f env w q kf b h = (kf a).at env w (q a refl)
  Does-kept (err e) f env w q kf b h = cc

  pub Does-first : (m : M A) (f : A → M B) → Does Q m → ((a : A) → Keeps Q (f a)) → Does Q (m >>= f)
  Does-first m f dm kf = record {
    at = λ env w. Does-kept (m env w).0 f env (m env w).1 (dm.at env w) kf;
  }

module _ {A : Type 0} {P Q : Db → Type 0} where
  pub Does-both : (m : M A) → Does P m → Does Q m → Does (λ db. P db × Q db) m
  Does-both m dp dq = record { at = λ env w a h. (dp.at env w a h, dq.at env w a h) }
