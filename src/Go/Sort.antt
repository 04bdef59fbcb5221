-- ===== src/Go/Sort.antt =====
-- Go's sort.Strings, by the bytes of the texts.
pub mod Ascending
use dlq_download_queue.Prelude.{ℕ, Bool, true, false, ◌&&◌, List, [], ◌∷◌, if◌then◌else◌, ltb, ◌==◌}
use dlq_download_queue.Go.Strings.{Text}

unfoldable pub text_ltb : Text → Text → Bool
text_ltb s [] = false
text_ltb [] (d ∷ t) = true
text_ltb (c ∷ s) (d ∷ t) = let rest = text_ltb s t in if ltb c d then true else c == d && rest

unfoldable pub insert_text : Text → List Text → List Text
unfolding text_ltb
insert_text p [] = p ∷ []
insert_text p (x ∷ xs) =
    let rest = insert_text p xs in if text_ltb p x then p ∷ x ∷ xs else x ∷ rest

unfoldable pub sort_strings : List Text → List Text
unfolding insert_text
sort_strings [] = []
sort_strings (x ∷ xs) = insert_text x (sort_strings xs)
