-- ===== src/Go/Strings.antt =====
-- Package strings over ASCII bytes: white space and letter case are those of ASCII, and a byte
-- above 127 is neither.
use Prim.Native.Char.{code}
use Prim.Native.String.{String}
use dlq_download_queue.Prelude.{
  ℕ, zero, suc, ◌+◌, ◌-◌, Bool, true, false, ◌&&◌, ◌||◌, List, [], ◌∷◌, reverse, Option, none, some,
  leb, ◌==◌, if◌then◌else◌, text_eq, length, take, bit_xor,
}

abbrev pub Text : Type 0
Text = List ℕ

-- The bytes of an ASCII literal.
abbrev pub codes : String → Text
codes String.[] = []
codes (String.◌∷◌ c s) = code c ∷ codes s

unfoldable pub is_empty : Text → Bool
is_empty [] = true
is_empty (c ∷ s) = false

unfoldable pub is_space : ℕ → Bool
is_space c = leb 9 c && leb c 13 || c == b' '

unfoldable pub lower : ℕ → ℕ
lower c = if leb b'A' c && leb c b'Z' then c + 32 else c

unfoldable pub to_lower : Text → Text
unfolding lower
to_lower [] = []
to_lower (c ∷ s) = lower c ∷ to_lower s

unfoldable pub trim_left : (ℕ → Bool) → Text → Text
trim_left p [] = []
trim_left p (c ∷ s) = let rest = trim_left p s in if p c then rest else c ∷ s

unfoldable pub trim_right : (ℕ → Bool) → Text → Text
unfolding is_empty
trim_right p [] = []
trim_right p (c ∷ s) = let rest = trim_right p s in if is_empty rest && p c then [] else c ∷ rest

unfoldable pub trim_space : Text → Text
unfolding is_space trim_left trim_right
trim_space s = trim_right is_space (trim_left is_space s)

unfoldable pub has_prefix : Text → Text → Bool
has_prefix s [] = true
has_prefix [] (p ∷ ps) = false
has_prefix (c ∷ s) (p ∷ ps) = c == p && has_prefix s ps

unfoldable pub has_suffix : Text → Text → Bool
unfolding has_prefix
has_suffix s p = has_prefix (reverse s) (reverse p)

unfoldable pub contains : Text → Text → Bool
unfolding has_prefix
contains [] p = has_prefix [] p
contains (c ∷ s) p = has_prefix (c ∷ s) p || contains s p

unfoldable pub contains_byte : Text → ℕ → Bool
contains_byte [] b = false
contains_byte (c ∷ s) b = c == b || contains_byte s b

-- `chars` holds the bytes of the set.
unfoldable pub contains_any : Text → Text → Bool
unfolding contains_byte
contains_any [] chars = false
contains_any (c ∷ s) chars = contains_byte chars c || contains_any s chars

unfoldable pub equal_fold : Text → Text → Bool
unfolding to_lower text_eq
equal_fold s t = text_eq (to_lower s) (to_lower t)

-- One more byte in front of the pieces: a separator begins a piece.
abbrev pub cons_piece : Bool → ℕ → List Text → List Text
cons_piece true c ps = [] ∷ ps
cons_piece false c [] = (c ∷ []) ∷ []
cons_piece false c (p ∷ ps) = (c ∷ p) ∷ ps

-- The pieces between the separators; there is always one.
unfoldable pub split_on : ℕ → Text → List Text
split_on b [] = [] ∷ []
split_on b (c ∷ s) = cons_piece (c == b) c (split_on b s)

-- Drop the last `n` bytes.
unfoldable pub drop_last : ℕ → Text → Text
drop_last n s = take (length s - n) s

-- The last position at which `p` stands in `s`.
unfoldable pub last_index : Text → Text → Option ℕ
unfolding has_prefix
last_index [] p = if has_prefix [] p then some 0 else none
last_index (c ∷ s) p = elim (last_index s p) [
  | some i ↦ some (suc i)
  | none ↦ if has_prefix (c ∷ s) p then some 0 else none
]

-- The bytes of two texts combined by `^`, as far as both reach.
unfoldable pub xor_bytes : Text → Text → Text
xor_bytes (a ∷ s) (b ∷ t) = bit_xor a b ∷ xor_bytes s t
xor_bytes _ _ = []

-- `n` bytes of value zero.
abbrev pub zeros : ℕ → Text
zeros zero = []
zeros (suc n) = 0 ∷ zeros n
