-- ===== src/Resolver/Webshare/Idents.antt =====
-- internal/resolver/webshare.go, extractWebshareIdent: when a link has no identifier.
use mathlib.Core.List.{reverse-cons}
use mathlib.Core.Option.{some-injective}
use dlq_download_queue.Prelude.{
  Bool, true, false, not, ◌≡◌, refl, sym, ap, ◌∙◌, ◌&&◌, ◌⊎◌, List, [], ◌∷◌, Option, none, some,
  if◌then◌else◌, any_of, any_of-snoc, reverse, find_first, arith, Bool-cases, inl, inr, ◌==◌,
}
use dlq_download_queue.Go.Strings.{Text, codes, is_empty, split_on, trim_left, trim_right}
use dlq_download_queue.Resolver.Webshare.{
  SiteUrl, is_ident, last_ident, text_of, extract_webshare_ident,
}

-- Some piece of a text between slashes is an identifier.
abbrev pub has_ident : Text → Bool
has_ident s = any_of is_ident (split_on b'/' s)

any_of-reverse : (p : Text → Bool) (xs : List Text) → any_of p (reverse xs) ≡ any_of p xs
any_of-reverse p [] = refl
any_of-reverse p (x ∷ xs) =
    rw (reverse-cons x xs, any_of-snoc p (reverse xs) x, any_of-reverse p xs) (ground arith)

-- Behind a search, the text is empty just where nothing is found, if nothing empty is looked for.
found_empty :
    (p : Text → Bool) (xs : List Text)
    → ((x : Text) → p x ≡ true → is_empty x ≡ false)
    → is_empty (text_of (find_first p xs)) ≡ not (any_of p xs)
unfolding is_empty
found_empty p [] h = refl
found_empty p (x ∷ xs) h = elim (Bool-cases (p x)) [
  | inl e ↦ rw e (h x e)
  | inr e ↦ rw e (found_empty p xs h)
]

ident_not_empty : (x : Text) → is_ident x ≡ true → is_empty x ≡ false
unfolding is_ident is_empty
ident_not_empty [] h = absurd cc
ident_not_empty (c ∷ x) h = refl

is_empty-last_ident : (s : Text) → is_empty (text_of (last_ident s)) ≡ not (has_ident s)
unfolding last_ident
is_empty-last_ident s =
    found_empty is_ident (reverse (split_on b'/' s)) ident_not_empty
    ∙ ap not (any_of-reverse is_ident (split_on b'/' s))

held :
    (b : Bool) (y x : Text) (o : Option Text)
    → (if b then some y else o) ≡ some x
    → ((b ≡ true) × (y ≡ x)) ⊎ (o ≡ some x)
held true y x o h = inl (refl, some-injective y x h)
held false y x o h = inr h

find_first_holds :
    (p : Text → Bool) (xs : List Text) (x : Text) → find_first p xs ≡ some x → p x ≡ true
find_first_holds p [] x h = absurd cc
find_first_holds p (y ∷ xs) x h = elim (held (p y) y x (find_first p xs) h) [
  | inl (e, same) ↦ ap p (sym same) ∙ e
  | inr rest ↦ find_first_holds p xs x rest
]

last_ident-some : (s x : Text) → last_ident s ≡ some x → is_empty x ≡ false
unfolding last_ident
last_ident-some s x h =
    ident_not_empty x (find_first_holds is_ident (reverse (split_on b'/' s)) x h)

-- The choice between the query, the path and the fragment.
chosen :
    (q1 q2 fragment t : Text) (o : Option Text)
    → ((x : Text) → o ≡ some x → is_empty x ≡ false)
    → (is_empty fragment ≡ true → is_empty t ≡ true)
    → is_empty (
        if not (is_empty q1)
        then q1
        else if not (is_empty q2)
        then q2
        else elim o [ some x ↦ x | none ↦ if is_empty fragment then [] else t ])
      ≡ (is_empty q1 && is_empty q2 && is_empty (text_of o) && is_empty t)
unfolding is_empty
chosen (c ∷ q1) q2 fragment t o h g = refl
chosen [] (c ∷ q2) fragment t o h g = refl
chosen [] [] fragment t (some x) h g = rw (h x refl) refl
chosen [] [] [] t none h g = rw (g refl) refl
chosen [] [] (c ∷ fragment) t none h g = refl

-- The text that is searched for an identifier in the path.
abbrev pub trimmed_path : SiteUrl → Text
trimmed_path u = trim_right (λ c. c == b'/') (trim_left (λ c. c == b'/') u.path)

no_fragment : (s : Text) → is_empty s ≡ true → is_empty (text_of (last_ident s)) ≡ true
unfolding is_empty last_ident split_on is_ident
no_fragment [] h = refl
no_fragment (c ∷ s) h = absurd cc

-- A link has no identifier just where its query has neither `ident` nor `id`, and no piece between
-- slashes of its path or of its fragment is five letters and digits or more.
pub is_empty-extract_webshare_ident :
    (u : SiteUrl)
    → is_empty (extract_webshare_ident u) ≡ (
        is_empty (u.query (codes "ident"))
        && is_empty (u.query (codes "id"))
        && not (has_ident (trimmed_path u))
        && not (has_ident u.fragment))
unfolding extract_webshare_ident
is_empty-extract_webshare_ident u =
    chosen (u.query (codes "ident")) (u.query (codes "id")) u.fragment
      (text_of (last_ident u.fragment)) (last_ident (trimmed_path u))
      (last_ident-some (trimmed_path u)) (no_fragment u.fragment)
    ∙ ap
        (λ b.
          is_empty (u.query (codes "ident"))
          && is_empty (u.query (codes "id"))
          && b
          && is_empty (text_of (last_ident u.fragment)))
        (is_empty-last_ident (trimmed_path u))
    ∙ ap
        (λ b.
          is_empty (u.query (codes "ident"))
          && is_empty (u.query (codes "id"))
          && not (has_ident (trimmed_path u))
          && b)
        (is_empty-last_ident u.fragment)
