-- ===== src/Queue/Store/Claim/Search.antt =====
-- The first row, from the oldest on, that passes a test: `ORDER BY id ASC LIMIT 1`.
use mathlib.Core.List.{reverse-cons, Memᴰ}
use mathlib.Core.Option.{some-injective}
use dlq_download_queue.Prelude.{
  ap, ◌⊎◌, if◌then◌else◌, ◌∙◌, ℕ, ◌≤◌, ◌<◌, Bool, true, false, ◌≡◌, refl, sym, List, [], ◌∷◌, ◌++◌,
  Option, none, some, arith, reverse, find_first, inl, inr, All, Descending,
}
use dlq_download_queue.Queue.Job.{Job}
use dlq_download_queue.Queue.Consistent.{job_key}

abbrev pub or_else : Option Job → Option Job → Option Job
or_else none o = o
or_else (some j) o = some j

find_first-snoc :
    (p : Job → Bool) (xs : List Job) (x : Job)
    → find_first p (xs ++ x ∷ []) ≡ or_else (find_first p xs) (if p x then some x else none)
find_first-snoc p [] x = refl
find_first-snoc p (y ∷ xs) x = ground (arith, find_first-snoc p xs x)

pub find_first-reverse :
    (p : Job → Bool) (x : Job) (xs : List Job)
    → find_first p (reverse (x ∷ xs))
      ≡ or_else (find_first p (reverse xs)) (if p x then some x else none)
find_first-reverse p x xs = rw (reverse-cons x xs) (find_first-snoc p (reverse xs) x)

pub none_left :
    (p : Job → Bool) (n : ℕ) (jobs : List Job)
    → find_first p (reverse jobs) ≡ none
    → All (λ k. p k ≡ true → n ≤ k.id) jobs
none_left p n [] h = tt
none_left p n (x ∷ xs) h =
    let e : or_else (find_first p (reverse xs)) (if p x then some x else none) ≡ none =
      sym (find_first-reverse p x xs) ∙ h in
    (ground arith, none_left p n xs (ground arith))

taken-if : (b : Bool) (x j : Job) → (if b then some x else none) ≡ some j → x.id ≡ j.id
taken-if true x j h = ap job_key (some-injective x j h)
taken-if false x j h = cc

taken-or_else :
    (o : Option Job) (b : Bool) (x j : Job)
    → or_else o (if b then some x else none) ≡ some j
    → (o ≡ some j) ⊎ ((o ≡ none) × (x.id ≡ j.id))
taken-or_else none b x j h = inr (refl, taken-if b x j h)
taken-or_else (some y) b x j h = inl h

pub oldest :
    (p : Job → Bool) (b : ℕ) (jobs : List Job) (j : Job)
    → Descending job_key b jobs
    → find_first p (reverse jobs) ≡ some j
    → (j.id < b) × All (λ k. p k ≡ true → j.id ≤ k.id) jobs
oldest p b [] j d h = cc
oldest p b (x ∷ xs) j d h =
    elim (taken-or_else (find_first p (reverse xs)) (p x) x j
      (sym (find_first-reverse p x xs) ∙ h)) [
        | inl f ↦
            let (below, all) = oldest p x.id xs j d.1 f in (omega arith, (λ _. omega arith, all))
        | inr (n, e) ↦ (omega arith, (λ _. omega arith, none_left p j.id xs n))
      ]

pub held-or_else :
    (o : Option Job) (b : Bool) (x k : Job)
    → or_else o (if b then some x else none) ≡ some k
    → (o ≡ some k) ⊎ ((b ≡ true) × (x ≡ k))
held-or_else (some y) b x k h = inl h
held-or_else none true x k h = inr (refl, some-injective x k h)
held-or_else none false x k h = absurd cc

-- What is found stands in the table and passes the test.
pub find_first-Memᴰ :
    (p : Job → Bool) (jobs : List Job) (k : Job)
    → find_first p (reverse jobs) ≡ some k
    → Memᴰ k jobs × (p k ≡ true)
find_first-Memᴰ p [] k h = absurd cc
find_first-Memᴰ p (x ∷ jobs) k h =
    elim (held-or_else (find_first p (reverse jobs)) (p x) x k
      (sym (find_first-reverse p x jobs) ∙ h)) [
        | inl f ↦ let (at, passes) = find_first-Memᴰ p jobs k f in (Memᴰ.tail at, passes)
        | inr (b, e) ↦ (Memᴰ.head (sym e), ap p (sym e) ∙ b)
      ]
