-- ===== src/Go/Strconv.antt =====
-- Package strconv: decimal numbers.
use dlq_download_queue.Prelude.{
  ℕ, zero, suc, ◌+◌, ◌-◌, ◌*◌, ◌/◌, ◌%◌, ◌^◌, Bool, ◌&&◌, [], ◌∷◌, Option, none, some, ltb, leb,
  ◌==◌, if◌then◌else◌, ℤ, pos, negsuc,
}
use dlq_download_queue.Go.Strings.{Text}

-- The decimal digits of a number; `n` rounds of fuel are enough for `n`.
unfoldable pub digits : ℕ → ℕ → Text → Text
digits zero n out = (b'0' + n) ∷ out
digits (suc f) n out =
    let rest = digits f (n / 10) ((b'0' + n % 10) ∷ out) in
    if ltb n 10 then (b'0' + n) ∷ out else rest

-- strconv.Itoa of a number that is not negative.
unfoldable pub itoa : ℕ → Text
unfolding digits
itoa n = digits n n []

unfoldable pub is_digit : ℕ → Bool
is_digit c = leb b'0' c && leb c b'9'

-- The value of a run of digits, `none` where another byte stands.
unfoldable pub scan : Text → ℕ → Option ℕ
unfolding is_digit
scan [] n = some n
scan (c ∷ s) n = let rest = scan s (n * 10 + (c - b'0')) in if is_digit c then rest else none

abbrev pub max_int64 : ℕ
max_int64 = 2 ^ 63 - 1

-- The signed value, cut to the range of int64 as `ParseInt` returns it beside a range error.
unfoldable clamp_pos : Option ℕ → ℤ
clamp_pos none = pos 0
clamp_pos (some n) = if ltb max_int64 n then pos max_int64 else pos n

unfoldable clamp_neg : Option ℕ → ℤ
clamp_neg none = pos 0
clamp_neg (some zero) = pos 0
clamp_neg (some (suc n)) = if ltb max_int64 n then negsuc max_int64 else negsuc n

-- `n, _ := strconv.ParseInt(s, 10, 64)`: 0 on a syntax error, the nearest value on a range error.
unfoldable pub parse_int64 : Text → ℤ
unfolding scan clamp_pos clamp_neg
parse_int64 [] = pos 0
parse_int64 (c ∷ []) = clamp_pos (scan (c ∷ []) 0)
parse_int64 (c ∷ d ∷ s) =
    if c == b'-'
    then clamp_neg (scan (d ∷ s) 0)
    else if c == b'+'
    then clamp_pos (scan (d ∷ s) 0)
    else clamp_pos (scan (c ∷ d ∷ s) 0)

abbrev int_of_pos : Option ℕ → Option ℤ
int_of_pos none = none
int_of_pos (some n) = if ltb max_int64 n then none else some (pos n)

abbrev int_of_neg : Option ℕ → Option ℤ
int_of_neg none = none
int_of_neg (some zero) = some (pos 0)
int_of_neg (some (suc n)) = if ltb max_int64 n then none else some (negsuc n)

-- strconv.ParseInt of base 10 and 64 bits, and Atoi: `none` is any error.
unfoldable pub parse_int : Text → Option ℤ
unfolding scan
parse_int [] = none
parse_int (c ∷ []) = int_of_pos (scan (c ∷ []) 0)
parse_int (c ∷ d ∷ s) =
    if c == b'-'
    then int_of_neg (scan (d ∷ s) 0)
    else if c == b'+'
    then int_of_pos (scan (d ∷ s) 0)
    else int_of_pos (scan (c ∷ d ∷ s) 0)
