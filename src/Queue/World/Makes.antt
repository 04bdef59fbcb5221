-- ===== src/Queue/World/Makes.antt =====
-- Actions that return, and what holds of the tables behind an action where the database answers,
-- also where the action's own error is dropped.
use dlq_download_queue.Go.Error.{Result, ok, err}
use dlq_download_queue.Queue.World.{
  M, Db, pure, ask, statement, Env, attempt, ignore, exec, ◌>>=◌, World, Quiet, continue,
}
use dlq_download_queue.Prelude.{if◌then◌else◌, ℕ, Bool, true, false, ◌≡◌, refl}
use dlq_download_queue.Queue.World.Keeps.{Keeps}

-- The action returns a value, whatever fails.
pub record Returns {A : Type 0} (m : M A) : Type 0 where
  pub at : (env : Env) (w : World) → (a : A) × ((m env w).0 ≡ ok a)

pub record Makes {A : Type 0} (Q : Db → Type 0) (m : M A) : Type 0 where
  pub at : (env : Env) (w : World) → Quiet env → Q (m env w).1.db

module _ {A : Type 0} where
  pub Returns-pure : (a : A) → Returns (pure a)
  Returns-pure a = record { at = λ env w. (a, refl) }

  pub Returns-ask : (f : ℕ → A) → Returns (ask f)
  unfolding ask
  Returns-ask f = record { at = λ env w. (f w.steps, refl) }

  pub Returns-attempt : (m : M A) → Returns (attempt m)
  Returns-attempt m = record { at = λ env w. ((m env w).0, refl) }

  pub Returns-ignore : (m : M A) → Returns (ignore m)
  Returns-ignore m = record { at = λ env w. (tt, refl) }

  pub Returns-if : (b : Bool) (m n : M A) → Returns m → Returns n → Returns (if b then m else n)
  Returns-if true m n rm rn = rm
  Returns-if false m n rm rn = rn

  Makes-if :
      {Q : Db → Type 0} (b : Bool) (m n : M A)
      → Makes Q m
      → Makes Q n
      → Makes Q (if b then m else n)
  Makes-if true m n mm mn = mm
  Makes-if false m n mm mn = mn

  pub Makes-ignore : {Q : Db → Type 0} (m : M A) → Makes Q m → Makes Q (ignore m)
  Makes-ignore m mm = record { at = λ env w q. mm.at env w q }

  pub Makes-both :
      {P Q : Db → Type 0} (m : M A) → Makes P m → Makes Q m → Makes (λ db. P db × Q db) m
  Makes-both m mp mq = record { at = λ env w q. (mp.at env w q, mq.at env w q) }

pub Makes-exec : {Q : Db → Type 0} (f : Db → Db) → ((db : Db) → Q (f db)) → Makes Q (exec f)
unfolding statement
Makes-exec f make = record { at = λ env w q. rw (q w.steps, statement) (make w.db) }

module _ {A B : Type 0} where
  returned :
      (r : Result A) (f : A → M B) (env : Env) (w : World)
      → (a : A) × (r ≡ ok a)
      → ((a : A) → Returns (f a))
      → (b : B) × ((continue r f env w).0 ≡ ok b)
  returned (ok a) f env w h rf = (rf a).at env w
  returned (err e) f env w h rf = cc

  pub Returns-bind :
      (m : M A) (f : A → M B) → Returns m → ((a : A) → Returns (f a)) → Returns (m >>= f)
  Returns-bind m f rm rf = record {
    at = λ env w. returned (m env w).0 f env (m env w).1 (rm.at env w) rf;
  }

  module _ {Q : Db → Type 0} where
    made :
        (r : Result A) (f : A → M B) (env : Env) (w : World)
        → (a : A) × (r ≡ ok a)
        → ((a : A) → Makes Q (f a))
        → Quiet env
        → Q (continue r f env w).1.db
    made (ok a) f env w h mf q = (mf a).at env w q
    made (err e) f env w h mf q = cc

    pub Makes-then :
        (m : M A) (f : A → M B) → Returns m → ((a : A) → Makes Q (f a)) → Makes Q (m >>= f)
    Makes-then m f rm mf = record {
      at = λ env w q. made (m env w).0 f env (m env w).1 (rm.at env w) mf q;
    }

    kept :
        (r : Result A) (f : A → M B) (env : Env) (w : World)
        → Q w.db
        → ((a : A) → Keeps Q (f a))
        → Q (continue r f env w).1.db
    kept (ok a) f env w h kf = (kf a).at env w h
    kept (err e) f env w h kf = h

    pub Makes-first :
        (m : M A) (f : A → M B) → Makes Q m → ((a : A) → Keeps Q (f a)) → Makes Q (m >>= f)
    Makes-first m f mm kf = record {
      at = λ env w q. kept (m env w).0 f env (m env w).1 (mm.at env w q) kf;
    }

pub ruleset returns_rules =
    (Returns-pure, Returns-ask, Returns-attempt, Returns-ignore, Returns-if, Returns-bind)
