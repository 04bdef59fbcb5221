-- ===== src/Dlq/Add/Flags.antt =====
-- cmd/dlq/add.go: the two ways to write a flag.
use dlq_download_queue.Prelude.{
  true, false, ◌≡◌, refl, sym, ◌∙◌, List, [], ◌∷◌, ◌++◌, none, some, arith, text_eq,
}
use dlq_download_queue.Go.Strings.{Text, codes, has_prefix, contains_byte}
use dlq_download_queue.Resolver.Mega.{then_result}
use dlq_download_queue.Dlq.Add.{AddArgs, set_flag, cut_flag, parse_flags}

-- Without `=` in the key, the text is cut behind it.
cut_flag-key :
    (key val : Text)
    → contains_byte key b'=' ≡ false
    → cut_flag (key ++ b'=' ∷ val) ≡ some (key, val)
unfolding cut_flag contains_byte
cut_flag-key [] val h = refl
cut_flag-key (c ∷ key) val h = let rest = cut_flag-key key val in ground arith

no_cut : (key : Text) → contains_byte key b'=' ≡ false → cut_flag key ≡ none
unfolding cut_flag contains_byte
no_cut [] h = refl
no_cut (c ∷ key) h = let rest = no_cut key in ground arith

has_prefix_longer : (p s t : Text) → has_prefix s p ≡ true → has_prefix (s ++ t) p ≡ true
unfolding has_prefix
has_prefix_longer [] s t h = refl
has_prefix_longer (c ∷ p) [] t h = absurd cc
has_prefix_longer (c ∷ p) (d ∷ s) t h = let rest = has_prefix_longer p s t in ground arith

-- An argument with `=` in it is taken apart by itself.
cut_step :
    (arg : Text) (rest : List Text) (cut : Text × Text) (a : AddArgs)
    → has_prefix arg (codes "--") ≡ true
    → cut_flag arg ≡ some cut
    → parse_flags (arg ∷ rest) a ≡ then_result (set_flag cut.0 cut.1 a) (parse_flags rest)
unfolding parse_flags
cut_step arg [] cut a h g = rw (h, g) refl
cut_step arg (next ∷ rest) cut a h g = rw (h, g) refl

next_step :
    (arg val : Text) (rest : List Text) (a : AddArgs)
    → has_prefix arg (codes "--") ≡ true
    → cut_flag arg ≡ none
    → text_eq arg (codes "--stdin") ≡ false
    → parse_flags (arg ∷ val ∷ rest) a ≡ then_result (set_flag arg val a) (parse_flags rest)
unfolding parse_flags
next_step arg val rest a h g k = rw (h, g, k) refl

-- For a flag other than --stdin, the value may follow as the next argument or behind `=`.
pub parse_flags_forms :
    (key val : Text) (rest : List Text) (a : AddArgs)
    → has_prefix key (codes "--") ≡ true
    → contains_byte key b'=' ≡ false
    → text_eq key (codes "--stdin") ≡ false
    → parse_flags (key ∷ val ∷ rest) a ≡ parse_flags ((key ++ b'=' ∷ val) ∷ rest) a
parse_flags_forms key val rest a h g k =
    next_step key val rest a h (no_cut key g) k
    ∙ sym (
        cut_step (key ++ b'=' ∷ val) rest (key, val) a
          (has_prefix_longer (codes "--") key (b'=' ∷ val) h) (cut_flag-key key val g))
