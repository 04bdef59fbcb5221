-- ===== src/Api/Settings/Accepted.antt =====
-- internal/api/settings.go, `Update`: which updates are accepted, and what an update changes.
use dlq_download_queue.Api.Settings.{
  Value, number, number_field, boolean, Settings, another, Updates, boolean_field, set_concurrency,
  set_max_attempts, set_auto_decrypt, update_max_attempts, update_auto_decrypt, update,
}
use dlq_download_queue.Prelude.{
  ℕ, ◌≤◌, ◌≡◌, refl, sym, ap, ◌∙◌, ◌↔◌, Bool, Option, none, some, ℤ, pos,
}
use dlq_download_queue.Go.Strings.{codes}
use dlq_download_queue.Go.Error.{Result, ok, err}
use dlq_download_queue.Api.Settings.Limits.{Takes, number_field-Takes}

unfoldable TakesFlag : Bool → Option Value → Bool → Type 0
TakesFlag old none new = new ≡ old
TakesFlag old (some (boolean b)) new = new ≡ b
TakesFlag old (some _) new = ⊥

boolean_field-TakesFlag :
    (old : Bool) (v : Option Value) (new : Bool)
    → (boolean_field old v ≡ ok new) ↔ TakesFlag old v new
unfolding boolean_field TakesFlag
boolean_field-TakesFlag old none new = (λ h. cc, λ h. cc)
boolean_field-TakesFlag old (some (boolean b)) new = (λ h. cc, λ h. cc)
boolean_field-TakesFlag old (some (number x)) new = (λ h. absurd cc, λ h. absurd h)
boolean_field-TakesFlag old (some another) new = (λ h. absurd cc, λ h. absurd h)

-- The settings behind an accepted update.
unfoldable pub Updated : Updates → Settings → Settings → Type 0
unfolding Takes TakesFlag
Updated u s s' =
    Takes 1 10 s.concurrency (u (codes "concurrency")) s'.concurrency
    × Takes 1 20 s.max_attempts (u (codes "max_attempts")) s'.max_attempts
    × TakesFlag s.auto_decrypt (u (codes "auto_decrypt")) s'.auto_decrypt
    × (s'.path ≡ s.path)

concurrency_set :
    (u : Updates) (s s' : Settings) (r : Result ℤ)
    → set_concurrency u s r ≡ (ok tt, s')
    → (n : ℤ) × (r ≡ ok n) × (update_max_attempts u (record s { concurrency = n }) ≡ (ok tt, s'))
concurrency_set u s s' (ok n) h = (n, refl, h)
concurrency_set u s s' (err e) h = absurd cc

max_attempts_set :
    (u : Updates) (s s' : Settings) (r : Result ℤ)
    → set_max_attempts u s r ≡ (ok tt, s')
    → (n : ℤ) × (r ≡ ok n) × (update_auto_decrypt u (record s { max_attempts = n }) ≡ (ok tt, s'))
max_attempts_set u s s' (ok n) h = (n, refl, h)
max_attempts_set u s s' (err e) h = absurd cc

auto_decrypt_set :
    (s s' : Settings) (r : Result Bool)
    → set_auto_decrypt s r ≡ (ok tt, s')
    → (b : Bool) × (r ≡ ok b) × (record s { auto_decrypt = b } ≡ s')
auto_decrypt_set s s' (ok b) h = (b, refl, ap (λ (x : Result (Unit {0}) × Settings). x.1) h)
auto_decrypt_set s s' (err e) h = absurd cc

concurrency-Takes :
    (u : Updates) (s : Settings) (n : ℤ)
    → (number_field
          (codes "concurrency")
          (codes "1 and 10")
          1
          10
          s.concurrency
          (u (codes "concurrency"))
        ≡ ok n)
      ↔ Takes 1 10 s.concurrency (u (codes "concurrency")) n
concurrency-Takes u s n =
    number_field-Takes (codes "concurrency") (codes "1 and 10") 1 10 s.concurrency
      (u (codes "concurrency")) n

max_attempts-Takes :
    (u : Updates) (s : Settings) (n : ℤ)
    → (number_field
          (codes "max_attempts")
          (codes "1 and 20")
          1
          20
          s.max_attempts
          (u (codes "max_attempts"))
        ≡ ok n)
      ↔ Takes 1 20 s.max_attempts (u (codes "max_attempts")) n
max_attempts-Takes u s n =
    number_field-Takes (codes "max_attempts") (codes "1 and 20") 1 20 s.max_attempts
      (u (codes "max_attempts")) n

-- An update is accepted, and leads to given settings, exactly where each number that it names is a
-- whole number within its limits and the flag that it names is a Boolean, and the settings have
-- these values and keep the rest.
pub update_iff : (u : Updates) (s s' : Settings) → (update s u ≡ (ok tt, s')) ↔ Updated u s s'
unfolding update Updated
update_iff u s s' = (
  λ h.
      let (n, a, h1) = concurrency_set u s s' _ h in
      let (m, b, h2) = max_attempts_set u (record s { concurrency = n }) s' _ h1 in
      let (f, c, h3) = auto_decrypt_set (record s { concurrency = n; max_attempts = m }) s' _ h2 in
      (
        (concurrency-Takes u s s'.concurrency).0
            (a ∙ ap ok (ap (λ (x : Settings). x.concurrency) h3)),
        (max_attempts-Takes u s s'.max_attempts).0
            (b ∙ ap ok (ap (λ (x : Settings). x.max_attempts) h3)),
        (boolean_field-TakesFlag s.auto_decrypt (u (codes "auto_decrypt")) s'.auto_decrypt).0
            (c ∙ ap ok (ap (λ (x : Settings). x.auto_decrypt) h3)),
        sym (ap (λ (x : Settings). x.path) h3),
      ),
  λ (a, b, c, d).
      let s1 = record s { concurrency = s'.concurrency } in
      let s2 = record s1 { max_attempts = s'.max_attempts } in
      ap (set_concurrency u s) ((concurrency-Takes u s s'.concurrency).1 a)
      ∙ ap (set_max_attempts u s1) ((max_attempts-Takes u s s'.max_attempts).1 b)
      ∙ ap (set_auto_decrypt s2)
          ((boolean_field-TakesFlag s.auto_decrypt (u (codes "auto_decrypt")) s'.auto_decrypt).1 c)
      ∙ ap (λ p. (ok tt, record s' { path = p })) (sym d),
)

abbrev pub Within : ℕ → ℤ → Type 0
Within high z = (n : ℕ) × (z ≡ pos n) × (1 ≤ n) × (n ≤ high)

Within-along : (high : ℕ) {a b : ℤ} → a ≡ b → Within high a → Within high b
Within-along high e (n, h, l, g) = (n, sym e ∙ h, l, g)

-- Both numbers stand within the limits that Update checks.
unfoldable pub WithinLimits : Settings → Type 0
WithinLimits s = Within 10 s.concurrency × Within 20 s.max_attempts

Takes-Within :
    (high : ℕ) (old new : ℤ) (v : Option Value)
    → Within high old
    → Takes 1 high old v new
    → Within high new
unfolding Takes
Takes-Within high old new none h t = Within-along high (sym t) h
Takes-Within high old new (some (number x)) h (n, e, l, g, k) =
    Within-along high (sym k) (n, refl, l, g)
Takes-Within high old new (some (boolean b)) h t = absurd t
Takes-Within high old new (some another) h t = absurd t

auto_decrypt_kept :
    (s : Settings) (r : Result Bool) → WithinLimits s → WithinLimits (set_auto_decrypt s r).1
unfolding WithinLimits
auto_decrypt_kept s (ok b) w = w
auto_decrypt_kept s (err e) w = w

max_attempts_kept :
    (u : Updates) (s : Settings) (r : Result ℤ)
    → number_field
        (codes "max_attempts")
        (codes "1 and 20")
        1
        20
        s.max_attempts
        (u (codes "max_attempts"))
      ≡ r
    → WithinLimits s
    → WithinLimits (set_max_attempts u s r).1
unfolding WithinLimits
max_attempts_kept u s (err e) h w = w
max_attempts_kept u s (ok n) h w =
    auto_decrypt_kept (record s { max_attempts = n }) _
      (
        w.0,
        Takes-Within 20 s.max_attempts n (u (codes "max_attempts")) w.1
            ((max_attempts-Takes u s n).0 h),
      )

concurrency_kept :
    (u : Updates) (s : Settings) (r : Result ℤ)
    → number_field
        (codes "concurrency")
        (codes "1 and 10")
        1
        10
        s.concurrency
        (u (codes "concurrency"))
      ≡ r
    → WithinLimits s
    → WithinLimits (set_concurrency u s r).1
unfolding WithinLimits
concurrency_kept u s (err e) h w = w
concurrency_kept u s (ok n) h w =
    let s1 = record s { concurrency = n } in
    max_attempts_kept u s1
      (number_field (codes "max_attempts") (codes "1 and 20") 1 20 s.max_attempts
        (u (codes "max_attempts")))
      refl
      (
        Takes-Within 10 s.concurrency n (u (codes "concurrency")) w.0
            ((concurrency-Takes u s n).0 h),
        w.1,
      )

-- An update, also one that is refused, keeps the number of downloads within 1 to 10 and the
-- attempts within 1 to 20.
pub update-WithinLimits :
    (u : Updates) (s : Settings) → WithinLimits s → WithinLimits (update s u).1
unfolding update
update-WithinLimits u s w = concurrency_kept u s _ refl w
