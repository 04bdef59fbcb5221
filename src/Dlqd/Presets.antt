-- ===== src/Dlqd/Presets.antt =====
-- cmd/dlqd/main.go, outDirPresetsFromEnv: which presets it returns, and in which order.
use dlq_download_queue.Prelude.{
  Bool, true, false, ◌≡◌, refl, sym, ap, ◌∙◌, ◌||◌, List, [], ◌∷◌, ◌++◌, any_of, text_eq,
  Bool-cases, inl, inr, arith, Option, none, some, text_eq→eq, any_of-snoc, All-append,
}
use dlq_download_queue.Go.Strings.{Text}
use dlq_download_queue.Go.Sort.Ascending.{
  Distinct, Ascending, sort_strings-Ascending, any_of-sort_strings,
}
use dlq_download_queue.Dlqd.{Process, preset_of, add_preset, collect_presets, out_dir_presets}

-- An entry that comes to the path.
abbrev is_preset : Text → Option Text → Bool
is_preset path none = false
is_preset path (some p) = text_eq path p

-- Some entry of the environment comes to the path.
abbrev pub is_mounted : Text → List Text → Bool
is_mounted path environ = any_of (λ entry. is_preset path (preset_of entry)) environ

-- A path that is there already stays there.
any_of-text_eq :
    (p x : Text) (xs : List Text)
    → any_of (text_eq x) xs ≡ true
    → (any_of (text_eq p) xs || text_eq p x) ≡ any_of (text_eq p) xs
any_of-text_eq p x xs h = elim (Bool-cases (text_eq p x)) [
  | inl e ↦ rw (text_eq→eq p x e, h) (ground arith)
  | inr e ↦ rw e (ground arith)
]

any_of-add_preset :
    (p : Text) (out : List Text) (o : Option Text)
    → any_of (text_eq p) (add_preset out o) ≡ (any_of (text_eq p) out || is_preset p o)
any_of-add_preset p out none = ground arith
any_of-add_preset p out (some x) = elim (Bool-cases (any_of (text_eq x) out)) [
  | inl e ↦ rw e (sym (any_of-text_eq p x out e))
  | inr e ↦ rw e (any_of-snoc (text_eq p) out x)
]

or_assoc : (a b c : Bool) → ((a || b) || c) ≡ (a || (b || c))
or_assoc true b c = refl
or_assoc false b c = refl

any_of-collect_presets :
    (p : Text) (out environ : List Text)
    → any_of (text_eq p) (collect_presets out environ)
      ≡ (any_of (text_eq p) out || is_mounted p environ)
unfolding collect_presets
any_of-collect_presets p out [] = ground arith
any_of-collect_presets p out (entry ∷ rest) =
    any_of-collect_presets p (add_preset out (preset_of entry)) rest
    ∙ ap (λ b. b || is_mounted p rest) (any_of-add_preset p out (preset_of entry))
    ∙ or_assoc (any_of (text_eq p) out) (is_preset p (preset_of entry)) (is_mounted p rest)

snoc-Distinct :
    (out : List Text) (x : Text)
    → any_of (text_eq x) out ≡ false
    → Distinct out
    → Distinct (out ++ x ∷ [])
snoc-Distinct [] x h d = (tt, tt)
snoc-Distinct (y ∷ out) x h d = (
  All-append (λ (z : Text). text_eq z y ≡ false) out (x ∷ []) d.0 (ground arith, tt),
  snoc-Distinct out x (ground arith) d.1,
)

add_preset-Distinct :
    (out : List Text) (o : Option Text) → Distinct out → Distinct (add_preset out o)
add_preset-Distinct out none d = d
add_preset-Distinct out (some x) d = elim (Bool-cases (any_of (text_eq x) out)) [
  | inl e ↦ rw e d
  | inr e ↦ rw e (snoc-Distinct out x e d)
]

collect_presets-Distinct :
    (out environ : List Text) → Distinct out → Distinct (collect_presets out environ)
unfolding collect_presets
collect_presets-Distinct out [] d = d
collect_presets-Distinct out (entry ∷ rest) d =
    collect_presets-Distinct (add_preset out (preset_of entry)) rest
      (add_preset-Distinct out (preset_of entry) d)

-- The presets are strictly ascending, so that none appears twice, and a path is one of them just
-- where some entry of the environment comes to it.
pub out_dir_presets_lem :
    (p : Process)
    → Ascending (out_dir_presets p)
      × ((path : Text) → any_of (text_eq path) (out_dir_presets p) ≡ is_mounted path p.environ)
unfolding out_dir_presets
out_dir_presets_lem p = (
  sort_strings-Ascending (collect_presets [] p.environ) (collect_presets-Distinct [] p.environ tt),
  λ path.
      any_of-sort_strings (text_eq path) (collect_presets [] p.environ)
      ∙ any_of-collect_presets path [] p.environ,
)
