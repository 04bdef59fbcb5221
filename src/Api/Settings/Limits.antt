-- ===== src/Api/Settings/Limits.antt =====
-- internal/api/settings.go, the checks of a number.
use dlq_download_queue.Api.Settings.{
  Float64, Value, scale, number, Error, number_field, is_integer, boolean, is_outside, truncated,
  another,
}
use dlq_download_queue.Prelude.{
  ℕ, zero, suc, ◌*◌, ◌/◌, ◌%◌, ◌^◌, ◌≤◌, ◌<◌, ◌≡◌, refl, ap, ◌↔◌, Bool, true, false, not, ◌||◌,
  Option, none, some, ltb, ◌==◌, ==_iff, if◌then◌else◌, arith, ℤ, pos, negsuc, pos_part,
}
use dlq_download_queue.Go.Strings.{Text}
use dlq_download_queue.Go.Error.{Error, ok, err}
use native.Mathlib.Nat.{
  div-add-mod', div-eq_of_eq-mul_left, mul-mod_left, le-div_iff_mul-le, mul-le-mul_right,
  le_of_mul-le-mul_right,
}

-- The number is the natural number `n`.
abbrev Denotes : Float64 → ℕ → Type 0
Denotes x n = x.num ≡ pos (n * scale x)

-- What a number field comes to: the old value where it is absent, else a natural number within the
-- limits.
unfoldable pub Takes : ℕ → ℕ → ℤ → Option Value → ℤ → Type 0
Takes low high old none new = new ≡ old
Takes low high old (some (number x)) new =
    (n : ℕ) × Denotes x n × (low ≤ n) × (n ≤ high) × (new ≡ pos n)
Takes low high old (some _) new = ⊥

pow_positive : (n : ℕ) → 0 < 2 ^ n
pow_positive zero = omega arith
pow_positive (suc n) = omega (arith, pow_positive n)

-- The tests on a number that is not negative.
abbrev Passes : ℕ → ℕ → ℕ → ℕ → Type 0
Passes low high m p = ((m % p == 0) ≡ true) × ((ltb m (low * p) || ltb (high * p) m) ≡ false)

in_range : (a b m : ℕ) → (ltb m a || ltb b m) ≡ false → (a ≤ m) × (m ≤ b)
in_range a b m h = (ground arith, ground arith)

in_range_back : (a b m : ℕ) → a ≤ m → m ≤ b → (ltb m a || ltb b m) ≡ false
in_range_back a b m h g = ground arith

Passes-in_limits :
    (low high m p : ℕ)
    → 0 < p
    → Passes low high m p ↔ ((n : ℕ) × (m ≡ n * p) × (low ≤ n) × (n ≤ high))
Passes-in_limits low high m p h = (
  λ (e, r).
      let (a, b) = in_range (low * p) (high * p) m r in
      let whole : m ≡ m / p * p = omega (arith, div-add-mod' m p, (==_iff (m % p) 0).0 e) in
      let bound : m / p * p ≤ high * p = omega arith in
      (m / p, whole, (le-div_iff_mul-le h).1 a, le_of_mul-le-mul_right bound h),
  λ (n, e, l, g). (
    rw (e, mul-mod_left n p),
    rw e (in_range_back (low * p) (high * p) (n * p) (mul-le-mul_right p l) (mul-le-mul_right p g)),
  ),
)

-- A value behind two guards.
guarded :
    (a b : Bool) (e e' : Error) (v new : ℤ)
    → (if not a then err e else if b then err e' else ok v) ≡ ok new
    → (a ≡ true) × (b ≡ false) × (v ≡ new)
guarded true false e e' v new h = (refl, refl, cc)
guarded true true e e' v new h = absurd cc
guarded false b e e' v new h = absurd cc

guarded_back :
    (a b : Bool) (e e' : Error) (v new : ℤ)
    → a ≡ true
    → b ≡ false
    → v ≡ new
    → (if not a then err e else if b then err e' else ok v) ≡ ok new
guarded_back a b e e' v new h g k = rw (h, g, k)

-- A number below zero is outside.
negative : (a : Bool) (e e' : Error) (new : ℤ) → (if not a then err e else err e') ≡ ok new → ⊥
negative true e e' new h = cc
negative false e e' new h = cc

number_taken :
    (name range : Text) (low high : ℕ) (old num : ℤ) (shift : ℕ) (new : ℤ)
    → let x : Float64 = record { num = num; shift = shift } in
      (number_field name range low high old (some (number x)) ≡ ok new)
      ↔ Takes low high old (some (number x)) new
unfolding number_field is_integer is_outside truncated Takes
number_taken name range low high old (pos m) shift new = (
  λ h.
      let (a, b, c) = guarded (m % 2 ^ shift == 0) _ _ _ _ new h in
      let (n, e, l, g) = (Passes-in_limits low high m (2 ^ shift) (pow_positive shift)).0 (a, b) in
      (n, cc e, l, g, cc (c, div-eq_of_eq-mul_left (pow_positive shift) e)),
  λ (n, e, l, g, k).
      let (a, b) =
        (Passes-in_limits low high m (2 ^ shift) (pow_positive shift)).1 (n, ap pos_part e, l, g) in
      guarded_back _ _ _ _ _ new a b cc
        (div-eq_of_eq-mul_left (pow_positive shift) (ap pos_part e), k),
)
number_taken name range low high old (negsuc m) shift new =
    (λ h. absurd (negative _ _ _ new h), λ (n, e, l, g, k). absurd cc)

-- The checks of a number field accept exactly the natural numbers within the limits.
pub number_field-Takes :
    (name range : Text) (low high : ℕ) (old : ℤ) (v : Option Value) (new : ℤ)
    → (number_field name range low high old v ≡ ok new) ↔ Takes low high old v new
unfolding number_field Takes
number_field-Takes name range low high old none new = (λ h. cc, λ h. cc)
number_field-Takes name range low high old (some (number x)) new =
    number_taken name range low high old x.num x.shift new
number_field-Takes name range low high old (some (boolean b)) new = (λ h. absurd cc, λ h. absurd h)
number_field-Takes name range low high old (some another) new = (λ h. absurd cc, λ h. absurd h)
