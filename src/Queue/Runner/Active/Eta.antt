-- ===== src/Queue/Runner/Active/Eta.antt =====
-- internal/queue/runner.go, updateActive: the seconds that a download still needs.
use native.Mathlib.Nat.{div-add-mod, mod-lt}
use dlq_download_queue.Prelude.{
  ℕ, ◌+◌, ◌-◌, ◌*◌, ◌/◌, ◌≤◌, ◌<◌, ◌≡◌, refl, ap, ◌∙◌, arith, false, ltb, pos, lt→ltb, ◌∙◌,
}
use dlq_download_queue.Go.Strconv.{max_int64}
use dlq_download_queue.Queue.Runner.Active.{eta, quotient_int64}

below : (a b : ℕ) → b ≤ a → ltb a b ≡ false
below a b h = ground arith

in_range : (n s : ℕ) → n ≤ max_int64 → quotient_int64 n s ≡ pos (n / s)
unfolding quotient_int64
in_range n s h = rw (below max_int64 n h) refl

counted : (t d s : ℕ) → 0 < s → d < t → eta (pos t) (pos d) (pos s) ≡ quotient_int64 (t - d) s
unfolding eta
counted t d s a b =
    rw
      (
        lt→ltb 0 (s + 0) (omega arith),
        lt→ltb 0 (t + 0) (omega arith),
        lt→ltb (d + 0) (t + 0) (omega arith),
      )
      (ap (λ n. quotient_int64 n s) (omega arith))

-- For a positive speed, and fewer bytes done than the total, which is within int64, the ETA is not
-- negative; what comes in that many seconds is at most the rest, and one second more covers the rest.
pub eta_bounds :
    (t d s : ℕ)
    → 0 < s
    → d < t
    → t ≤ max_int64
    → (q : ℕ) × ((eta (pos t) (pos d) (pos s) ≡ pos q) × ((s * q ≤ t - d) × (t - d < s * q + s)))
eta_bounds t d s a b c =
    let whole = div-add-mod (t - d) s in
    let rest = mod-lt (t - d) a in
    (
      (t - d) / s,
      (
        counted t d s a b ∙ in_range (t - d) s (omega arith),
        (omega (arith, whole, rest), omega (arith, whole, rest)),
      ),
    )
