-- ===== src/Go/Sort/Ascending.antt =====
-- A sorted list of texts that differ is strictly ascending.
use dlq_download_queue.Prelude.{
  Bool, true, false, ◌≡◌, refl, ap, ◌∙◌, ◌||◌, List, [], ◌∷◌, All, any_of, text_eq, Bool-cases, inl,
  inr, arith,
}
use dlq_download_queue.Go.Strings.{Text}
use dlq_download_queue.Go.Sort.{text_ltb, insert_text, sort_strings}

-- Each text differs from those behind it.
abbrev pub Distinct : List Text → Type 0
Distinct [] = Unit
Distinct (x ∷ xs) = All (λ (y : Text). text_eq y x ≡ false) xs × Distinct xs

-- Each text is before those behind it.
abbrev pub Ascending : List Text → Type 0
Ascending [] = Unit
Ascending (x ∷ xs) = All (λ (y : Text). text_ltb x y ≡ true) xs × Ascending xs

text_ltb_trans : (a b c : Text) → text_ltb a b ≡ true → text_ltb b c ≡ true → text_ltb a c ≡ true
unfolding text_ltb
text_ltb_trans a [] c h g = absurd cc
text_ltb_trans a (y ∷ b) [] h g = absurd cc
text_ltb_trans [] (y ∷ b) (z ∷ c) h g = refl
text_ltb_trans (x ∷ a) (y ∷ b) (z ∷ c) h g = let rest = text_ltb_trans a b c in ground arith

text_ltb_total : (p x : Text) → text_ltb p x ≡ false → text_eq x p ≡ false → text_ltb x p ≡ true
unfolding text_ltb text_eq
text_ltb_total [] [] h g = absurd cc
text_ltb_total (c ∷ p) [] h g = refl
text_ltb_total [] (d ∷ x) h g = absurd cc
text_ltb_total (c ∷ p) (d ∷ x) h g = let rest = text_ltb_total p x in ground arith

All-insert_text :
    (P : Text → Type 0) (p : Text) (xs : List Text) → P p → All P xs → All P (insert_text p xs)
unfolding insert_text
All-insert_text P p [] h a = (h, tt)
All-insert_text P p (x ∷ xs) h a = elim (Bool-cases (text_ltb p x)) [
  | inl e ↦ rw e (h, a)
  | inr e ↦ rw e (a.0, All-insert_text P p xs h a.1)
]

All-sort_strings : (P : Text → Type 0) (xs : List Text) → All P xs → All P (sort_strings xs)
unfolding sort_strings
All-sort_strings P [] a = tt
All-sort_strings P (x ∷ xs) a =
    All-insert_text P x (sort_strings xs) a.0 (All-sort_strings P xs a.1)

before-All :
    (p x : Text) (xs : List Text)
    → text_ltb p x ≡ true
    → All (λ (y : Text). text_ltb x y ≡ true) xs
    → All (λ (y : Text). text_ltb p y ≡ true) xs
before-All p x [] h a = tt
before-All p x (y ∷ xs) h a = (text_ltb_trans p x y h a.0, before-All p x xs h a.1)

insert_text-Ascending :
    (p : Text) (xs : List Text)
    → All (λ (y : Text). text_eq y p ≡ false) xs
    → Ascending xs
    → Ascending (insert_text p xs)
unfolding insert_text
insert_text-Ascending p [] d a = (tt, tt)
insert_text-Ascending p (x ∷ xs) d a = elim (Bool-cases (text_ltb p x)) [
  | inl e ↦ rw e ((e, before-All p x xs e a.0), a)
  | inr e ↦ rw e (
    All-insert_text (λ (y : Text). text_ltb x y ≡ true) p xs (text_ltb_total p x e d.0) a.0,
    insert_text-Ascending p xs d.1 a.1,
  )
]

pub sort_strings-Ascending : (xs : List Text) → Distinct xs → Ascending (sort_strings xs)
unfolding sort_strings
sort_strings-Ascending [] d = tt
sort_strings-Ascending (x ∷ xs) d =
    insert_text-Ascending x (sort_strings xs)
      (All-sort_strings (λ (y : Text). text_eq y x ≡ false) xs d.0) (sort_strings-Ascending xs d.1)

any_of-insert_text :
    (q : Text → Bool) (p : Text) (xs : List Text)
    → any_of q (insert_text p xs) ≡ (q p || any_of q xs)
unfolding insert_text
any_of-insert_text q p [] = refl
any_of-insert_text q p (x ∷ xs) = elim (Bool-cases (text_ltb p x)) [
  | inl e ↦ rw e refl
  | inr e ↦ rw (e, any_of-insert_text q p xs) (ground arith)
]

pub any_of-sort_strings :
    (q : Text → Bool) (xs : List Text) → any_of q (sort_strings xs) ≡ any_of q xs
unfolding sort_strings
any_of-sort_strings q [] = refl
any_of-sort_strings q (x ∷ xs) =
    any_of-insert_text q x (sort_strings xs) ∙ ap (λ b. q x || b) (any_of-sort_strings q xs)
