-- ===== src/Go/Os/Then.antt =====
-- Package os: what holds behind an operation, from what holds where it fails and where it does not.
use dlq_download_queue.Prelude.{ℕ, suc, ◌≡◌, refl, Option, none, some, [], ◌++◌, take}
use dlq_download_queue.Go.Strings.{Text}
use dlq_download_queue.Go.Error.{Error, Result, ok, err}
use dlq_download_queue.Go.Os.{
  Disk, OsEnv, Os, pure, ◌>>=◌, ◌>>◌, continue, step, operation, may_fail, read_file, append_file,
  rename_file, remove_file, put_file, contents_or_none, open_file, create_temp, created, temp_name,
  found_or, missing, exists,
}

module _ {A B : Type 0} (env : OsEnv) (d : Disk) (Q : Result B × Disk → Type 0) where
  failure_then :
      (o : Option Error) (f : OsEnv → Disk → Result A × Disk) (k : A → Os B)
      → ((e : Error) → Q (err e, step d))
      → Q (continue (f env (step d)).0 k env (f env (step d)).1)
      → let x = elim o as (λ _. Result A × Disk) [
        | some e ↦ (err e, step d)
        | none ↦ f env (step d)
      ] in
        Q (continue x.0 k env x.1)
  failure_then (some e) f k h g = h e
  failure_then none f k h g = g

  -- An operation, and what comes behind it.
  operation_then :
      (f : OsEnv → Disk → Result A × Disk) (k : A → Os B)
      → ((e : Error) → Q (err e, step d))
      → Q (continue (f env (step d)).0 k env (f env (step d)).1)
      → Q ((operation f >>= k) env d)
  unfolding operation
  operation_then f k h g = failure_then (env.failure d.steps) f k h g

  continue_then :
      (r : Result A) (d' : Disk) (k : A → Os B)
      → ((e : Error) → r ≡ err e → Q (err e, d'))
      → ((a : A) → r ≡ ok a → Q (k a env d'))
      → Q (continue r k env d')
  continue_then (ok a) d' k h g = g a refl
  continue_then (err e) d' k h g = h e refl

  -- Any action, and what comes behind it.
  pub action_then :
      (m : Os A) (k : A → Os B)
      → ((e : Error) → (m env d).0 ≡ err e → Q (err e, (m env d).1))
      → ((a : A) → (m env d).0 ≡ ok a → Q (k a env (m env d).1))
      → Q ((m >>= k) env d)
  action_then m k h g = continue_then (m env d).0 (m env d).1 k h g

module _ {A : Type 0} (env : OsEnv) (d : Disk) (Q : Result A × Disk → Type 0) where
  failure_last :
      (o : Option Error) (f : OsEnv → Disk → Result A × Disk)
      → ((e : Error) → Q (err e, step d))
      → Q (f env (step d))
      → Q (elim o as (λ _. Result A × Disk) [ some e ↦ (err e, step d) | none ↦ f env (step d) ])
  failure_last (some e) f h g = h e
  failure_last none f h g = g

  -- An operation with nothing behind it.
  operation_last :
      (f : OsEnv → Disk → Result A × Disk)
      → ((e : Error) → Q (err e, step d))
      → Q (f env (step d))
      → Q (operation f env d)
  unfolding operation
  operation_last f h g = failure_last (env.failure d.steps) f h g

module _ {B : Type 0} (env : OsEnv) (d : Disk) (Q : Result B × Disk → Type 0) where
  pub may_fail_then :
      (k : Os B)
      → ((e : Error) → Q (err e, step d))
      → Q (k env (step d))
      → Q ((may_fail >> k) env d)
  unfolding may_fail
  may_fail_then k h g = operation_then env d Q (pure tt) (λ _. k) h g

  pub read_then :
      (size : ℕ) (rest : Text) (k : Text → Os B)
      → ((e : Error) → Q (err e, step d))
      → ((n : ℕ) → Q (k (take (suc n) (take size rest)) env (step d)))
      → Q ((read_file size rest >>= k) env d)
  unfolding read_file
  read_then size rest k h g =
      operation_then env d Q
        (λ env d. (ok (take (suc (env.read_more d.steps)) (take size rest)), d)) k h (g _)

  pub append_then :
      (path p : Text) (k : Os B)
      → ((e : Error) → Q (err e, step d))
      → Q (
          k env (record (step d) {
            content = put_file path (some (contents_or_none (d.content path) ++ p)) d.content;
          }))
      → Q ((append_file path p >> k) env d)
  unfolding append_file
  append_then path p k h g =
      operation_then env d Q
        (λ env d. (
          ok tt,
          record d {
            content = put_file path (some (contents_or_none (d.content path) ++ p)) d.content;
          },
        ))
        (λ _. k) h g

  found_then :
      (o : Option Text) (d' : Disk) (x : Error) (k : Text → Os B)
      → ((e : Error) → Q (err e, d'))
      → ((c : Text) → o ≡ some c → Q (k c env d'))
      → Q (continue (found_or x o) k env d')
  found_then none d' x k h g = h x
  found_then (some c) d' x k h g = g c refl

  pub open_then :
      (path : Text) (k : Text → Os B)
      → ((e : Error) → Q (err e, step d))
      → ((c : Text) → d.content path ≡ some c → Q (k c env (step d)))
      → Q ((open_file path >>= k) env d)
  unfolding open_file
  open_then path k h g =
      operation_then env d Q (λ env d. (found_or missing (d.content path), d)) k h
        (found_then (d.content path) (step d) missing k h g)

  created_then :
      (path : Text) (o : Option Text) (k : Text → Os B)
      → d.content path ≡ o
      → ((e : Error) → Q (err e, step d))
      → (o ≡ none
          → Q (k path env (record (step d) { content = put_file path (some []) d.content })))
      → Q (continue (created path o env (step d)).0 k env (created path o env (step d)).1)
  created_then path (some c) k e h g = h exists
  created_then path none k e h g = g refl

  pub create_then :
      (dir prefix : Text) (k : Text → Os B)
      → ((e : Error) → Q (err e, step d))
      → ((path : Text)
          → d.content path ≡ none
          → Q (k path env (record (step d) { content = put_file path (some []) d.content })))
      → Q ((create_temp dir prefix >>= k) env d)
  unfolding create_temp
  create_then dir prefix k h g =
      let path = temp_name dir prefix (env.random (suc d.steps)) in
      operation_then env d Q
        (λ env d.
          let path = temp_name dir prefix (env.random d.steps) in
          created path (d.content path) env d)
        k h (created_then path (d.content path) k refl h (g path))

pub rename_last :
    (env : OsEnv) (d : Disk) (Q : Result (Unit {0}) × Disk → Type 0) (from to : Text)
    → ((e : Error) → Q (err e, step d))
    → Q (
      ok tt,
      record (step d) { content = put_file from none (put_file to (d.content from) d.content) },
    )
    → Q (rename_file from to env d)
unfolding rename_file
rename_last env d Q from to h g =
    operation_last env d Q
      (λ env d.
        (ok tt, record d { content = put_file from none (put_file to (d.content from) d.content) }))
      h g

pub remove_last :
    (env : OsEnv) (d : Disk) (Q : Result (Unit {0}) × Disk → Type 0) (path : Text)
    → ((e : Error) → Q (err e, step d))
    → Q (ok tt, record (step d) { content = put_file path none d.content })
    → Q (remove_file path env d)
unfolding remove_file
remove_last env d Q path h g =
    operation_last env d Q (λ env d. (ok tt, record d { content = put_file path none d.content })) h
      g
