-- ===== src/Go/Filepath/Prefix.antt =====
-- Absolute paths compared as texts and by their elements: a cleaned path begins with another one and
-- a slash exactly where its elements begin with the other's.
use dlq_download_queue.Prelude.{
  ℕ, Bool, true, false, ◌≡◌, refl, sym, ap, ◌∙◌, ◌↔◌, inl, inr, List, [], ◌∷◌, ◌++◌, All, ◌==◌,
  ◌||◌, Bool-cases, text_eq, text_eq→eq, text_eq_refl, length, length-append, drop, ==_refl, ==_iff,
  arith,
}
use mathlib.Core.List.{append-nil, append_assoc}
use dlq_download_queue.Go.Strings.{Text, codes, has_prefix, split_on, cons_piece}
use dlq_download_queue.Go.Filepath.{clean_elems, join_slash, render}
use dlq_download_queue.Go.Filepath.Clean.{IsName, split_on-join_slash, clean_elems-render, pieces}

has_prefix-append : (s t : Text) → has_prefix (s ++ t) s ≡ true
unfolding has_prefix
has_prefix-append [] t = refl
has_prefix-append (c ∷ s) t = rw (==_refl c, has_prefix-append s t)

has_prefix-rest : (s p : Text) → has_prefix s p ≡ true → (t : Text) × (s ≡ p ++ t)
unfolding has_prefix
has_prefix-rest s [] h = (s, refl)
has_prefix-rest [] (p ∷ ps) h = absurd cc
has_prefix-rest (c ∷ s) (p ∷ ps) h = elim (Bool-cases (c == p)) [
  | inl e ↦
      let (t, q) = has_prefix-rest s ps (ground arith) in
      let same : c ≡ p = (==_iff c p).0 e in (t, cc)
  | inr e ↦ absurd (ground arith)
]

piece_cons :
    (d : Bool) (c : ℕ) (qs : List Text)
    → (p : Text) × (ps : List Text) × (cons_piece d c qs ≡ p ∷ ps)
piece_cons true c qs = ([], qs, refl)
piece_cons false c [] = (c ∷ [], [], refl)
piece_cons false c (q ∷ qs) = (c ∷ q, qs, refl)

split_on-cons : (b : ℕ) (s : Text) → (p : Text) × (ps : List Text) × (split_on b s ≡ p ∷ ps)
unfolding split_on
split_on-cons b [] = ([], [], refl)
split_on-cons b (c ∷ s) = piece_cons (c == b) c (split_on b s)

cons_piece-append :
    (d : Bool) (c : ℕ) (p : Text) (ps qs : List Text)
    → cons_piece d c ((p ∷ ps) ++ qs) ≡ cons_piece d c (p ∷ ps) ++ qs
cons_piece-append true c p ps qs = refl
cons_piece-append false c p ps qs = refl

-- The pieces of two texts with a separator in between.
split_on-append : (b : ℕ) (s t : Text) → split_on b (s ++ (b ∷ t)) ≡ split_on b s ++ split_on b t
unfolding split_on
split_on-append b [] t = rw (==_refl b)
split_on-append b (c ∷ s) t =
    let (p, ps, e) = split_on-cons b s in
    rw (split_on-append b s t, e) (cons_piece-append (c == b) c p ps (split_on b t))

join_slash-append :
    (r : Text) (rs : List Text) (e : Text) (es : List Text)
    → join_slash ((r ∷ rs) ++ (e ∷ es)) ≡ join_slash (r ∷ rs) ++ (b'/' ∷ join_slash (e ∷ es))
unfolding join_slash
join_slash-append r [] e es = refl
join_slash-append r (f ∷ rs) e es =
    ap (λ t. r ++ (b'/' ∷ t)) (join_slash-append f rs e es)
    ∙ sym (append_assoc r (b'/' ∷ join_slash (f ∷ rs)) _)

or_right : (a b : Bool) → a ≡ false → (a || b) ≡ true → b ≡ true
or_right a b e h = ground arith

or_left : (a b : Bool) → a ≡ true → (a || b) ≡ true
or_left a b e = ground arith

or_second : (a b : Bool) → b ≡ true → (a || b) ≡ true
or_second a b e = ground arith

-- The rest of the elements behind those of `rs`.
abbrev pub Extends : List Text → List Text → Type 0
Extends rs ps = (rest : List Text) × (ps ≡ rs ++ rest)

-- Equal to a path, or begun by it and a slash.
abbrev pub is_at_or_below : Text → Text → Bool
is_at_or_below p r = text_eq p r || has_prefix p (r ++ codes "/")

joined-Extends :
    (r : Text) (rs ps : List Text) (t : Text)
    → All IsName (r ∷ rs)
    → All IsName ps
    → join_slash ps ≡ join_slash (r ∷ rs) ++ (b'/' ∷ t)
    → Extends (r ∷ rs) ps
unfolding join_slash
joined-Extends r rs [] t hr hp q =
    let longer = length-append (join_slash (r ∷ rs)) (b'/' ∷ t) in
    let same = ap length q in absurd (omega (arith, longer, same))
joined-Extends r rs (p ∷ ps) t hr hp q = (
  split_on b'/' t,
  sym (split_on-join_slash p ps (pieces (p ∷ ps) hp))
      ∙ ap (split_on b'/') q
      ∙ split_on-append b'/' (join_slash (r ∷ rs)) t
      ∙ ap (λ l. l ++ split_on b'/' t) (split_on-join_slash r rs (pieces (r ∷ rs) hr)),
)

prefix-Extends :
    (r : Text) (rs ps : List Text)
    → All IsName (r ∷ rs)
    → All IsName ps
    → has_prefix (render true ps) (render true (r ∷ rs) ++ codes "/") ≡ true
    → Extends (r ∷ rs) ps
unfolding render
prefix-Extends r rs ps hr hp h =
    let (t, q) = has_prefix-rest (render true ps) (render true (r ∷ rs) ++ codes "/") h in
    joined-Extends r rs ps t hr hp
      (ap (drop 1) q ∙ append_assoc (join_slash (r ∷ rs)) (codes "/") t)

at_or_below-Extends :
    (r : Text) (rs ps : List Text)
    → All IsName (r ∷ rs)
    → All IsName ps
    → is_at_or_below (render true ps) (render true (r ∷ rs)) ≡ true
    → Extends (r ∷ rs) ps
at_or_below-Extends r rs ps hr hp h =
    elim (Bool-cases (text_eq (render true ps) (render true (r ∷ rs)))) [
      | inl e ↦ (
        [],
        sym (clean_elems-render ps hp)
            ∙ ap clean_elems (text_eq→eq _ _ e)
            ∙ clean_elems-render (r ∷ rs) hr
            ∙ sym (append-nil (r ∷ rs)),
      )
      | inr e ↦ prefix-Extends r rs ps hr hp (or_right _ _ e h)
    ]

Extends-at_or_below :
    (r : Text) (rs ps : List Text)
    → Extends (r ∷ rs) ps
    → is_at_or_below (render true ps) (render true (r ∷ rs)) ≡ true
unfolding render
Extends-at_or_below r rs ps ([], e) = or_left _ _ (
    ap (λ x. text_eq (b'/' ∷ join_slash x) (b'/' ∷ join_slash (r ∷ rs))) (e ∙ append-nil (r ∷ rs))
    ∙ text_eq_refl (b'/' ∷ join_slash (r ∷ rs)))
Extends-at_or_below r rs ps (f ∷ rest, e) = or_second _ _ (
    ap (λ x. has_prefix (b'/' ∷ x) ((b'/' ∷ join_slash (r ∷ rs)) ++ codes "/"))
      (ap join_slash e
        ∙ join_slash-append r rs f rest
        ∙ sym (append_assoc (join_slash (r ∷ rs)) (codes "/") (join_slash (f ∷ rest))))
    ∙ has_prefix-append ((b'/' ∷ join_slash (r ∷ rs)) ++ codes "/") (join_slash (f ∷ rest)))

-- A cleaned absolute path is at or below another one, which is not the root directory, exactly where
-- its elements begin with the other's.
pub at_or_below_iff :
    (r : Text) (rs ps : List Text)
    → All IsName (r ∷ rs)
    → All IsName ps
    → (is_at_or_below (render true ps) (render true (r ∷ rs)) ≡ true) ↔ Extends (r ∷ rs) ps
at_or_below_iff r rs ps hr hp = (at_or_below-Extends r rs ps hr hp, Extends-at_or_below r rs ps)
