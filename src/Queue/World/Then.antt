-- ===== src/Queue/World/Then.antt =====
-- To prove something of a result and its state: what stands behind a statement, by its two outcomes.
use dlq_download_queue.Prelude.{◌≡◌, refl, Option-cases, inl, inr}
use dlq_download_queue.Go.Error.{Error, Result, err}
use dlq_download_queue.Queue.World.{Db, World, Env, M, ◌>>=◌, ◌>>◌, statement, exec, query}

module _ {A B : Type 0} (P : Result B × World → Type 0) (env : Env) (w : World) where
  pub query-then :
      (f : Db → A) (k : A → M B)
      → ((e : Error) (w' : World) → w'.db ≡ w.db → P (err e, w'))
      → ((w' : World) → w'.db ≡ w.db → P (k (f w.db) env w'))
      → P ((query f >>= k) env w)
  unfolding statement
  query-then f k failed next = elim (Option-cases (env.db_error w.steps)) [
    | inl e ↦ rw (e, statement) (next _ refl)
    | inr (t, e) ↦ rw (e, statement) (failed _ _ refl)
  ]

module _ {B : Type 0} (P : Result B × World → Type 0) (env : Env) (w : World) where
  pub exec-then_result :
      (f : Db → Db) (k : M B)
      → ((e : Error) (w' : World) → w'.db ≡ w.db → P (err e, w'))
      → ((w' : World) → w'.db ≡ f w.db → P (k env w'))
      → P ((exec f >> k) env w)
  unfolding statement
  exec-then_result f k failed next = elim (Option-cases (env.db_error w.steps)) [
    | inl e ↦ rw (e, statement) (next _ refl)
    | inr (t, e) ↦ rw (e, statement) (failed _ _ refl)
  ]
