-- ===== src/Queue/Archive.antt =====
-- internal/queue/archive_decryptor.go: which files are archives, and which volume of a set of RAR
-- files is the first.
use dlq_download_queue.Prelude.{
  ℕ, ◌-◌, ◌+◌, Bool, true, false, ◌&&◌, ◌||◌, List, [], ◌∷◌, ◌++◌, Option, none, some, ltb, ◌==◌,
  if◌then◌else◌, text_eq, length, take, drop,
}
use dlq_download_queue.Go.Strings.{
  Text, codes, is_empty, trim_space, to_lower, has_suffix, last_index, drop_last,
}
use dlq_download_queue.Go.Strconv.{is_digit, scan, max_int64}
use dlq_download_queue.Go.Filepath.{clean, base, dir, join}

unfoldable has_any_suffix : Text → List Text → Bool
unfolding has_suffix
has_any_suffix s [] = false
has_any_suffix s (x ∷ xs) = has_suffix s x || has_any_suffix s xs

abbrev archive_suffixes : List Text
archive_suffixes =
    codes ".zip"
    ∷ codes ".7z"
    ∷ codes ".rar"
    ∷ codes ".tar"
    ∷ codes ".tar.gz"
    ∷ codes ".tgz"
    ∷ codes ".tar.bz2"
    ∷ codes ".tbz2"
    ∷ codes ".tar.xz"
    ∷ codes ".txz"
    ∷ codes ".gz"
    ∷ codes ".bz2"
    ∷ codes ".xz"
    ∷ []

unfoldable pub is_archive_file : Text → Bool
unfolding has_any_suffix to_lower base trim_space
is_archive_file path = has_any_suffix (to_lower (base (trim_space path))) archive_suffixes

unfoldable all_digits : Text → Bool
unfolding is_digit
all_digits [] = true
all_digits (c ∷ s) = is_digit c && all_digits s

unfoldable is_all_digits : Text → Bool
unfolding all_digits is_empty
is_all_digits s = if is_empty s then false else all_digits s

-- `strconv.Atoi` of a run of digits; `none` where it is out of range.
unfoldable atoi : Text → Option ℕ
unfolding scan
atoi s = elim (scan s 0) [ none ↦ none | some n ↦ if ltb max_int64 n then none else some n ]

abbrev part_marker : Text
part_marker = codes ".part"

-- The stem of a `.rar` name cut at its last `.part`: what stands before and behind the marker.
unfoldable split_part : Text → Option (Text × Text)
unfolding last_index to_lower
split_part stem = elim (last_index (to_lower stem) part_marker) [
  | none ↦ none
  | some i ↦ some (take i stem, drop (i + 5) stem)
]

-- The parts of a name `prefix.partN.rar`, given its stem: the prefix and the digits.
unfoldable part_number : Option (Text × Text) → Option (Text × Text)
unfolding is_all_digits
part_number none = none
part_number (some (prefix, digits)) = if is_all_digits digits then some (prefix, digits) else none

unfoldable rar_part : Text → Option (Text × Text)
unfolding split_part part_number
rar_part stem = part_number (split_part stem)

-- `base` ends in `.rNN`: a dot, `r` and two digits, with something before them.
abbrev is_old_ext : Text → Bool
is_old_ext (d ∷ r ∷ a ∷ b ∷ []) = d == b'.' && r == b'r' && is_all_digits (a ∷ b ∷ [])
is_old_ext _ = false

unfoldable is_old_volume : Text → Bool
unfolding is_all_digits to_lower
is_old_volume name = ltb 4 (length name) && is_old_ext (drop (length name - 4) (to_lower name))

unfoldable zeros_then_one : Text → Text
zeros_then_one [] = []
zeros_then_one (c ∷ []) = b'1' ∷ []
zeros_then_one (c ∷ d ∷ s) = b'0' ∷ zeros_then_one (d ∷ s)

abbrev above_one : Option ℕ → Bool
above_one none = false
above_one (some n) = ltb 1 n

-- The first volume of `prefix.partN.rar`, with as many digits, if N is above one.
abbrev first_part : Text → Text → Option (Text × Text) → Text
first_part clean_path d none = clean_path
first_part clean_path d (some (prefix, digits)) =
    if above_one (atoi digits)
    then join d (prefix ++ (part_marker ++ (zeros_then_one digits ++ codes ".rar")))
    else clean_path

unfoldable pub multipart_archive_first_volume : Text → Text
unfolding trim_space is_empty dir base to_lower has_suffix rar_part is_old_volume join atoi
    zeros_then_one drop_last
multipart_archive_first_volume path =
    let c = trim_space path in
    let b = base c in
    if is_empty c
    then c
    else if has_suffix (to_lower b) (codes ".rar")
    then first_part c (dir c) (rar_part (drop_last 4 b))
    else if is_old_volume b
    then join (dir c) (drop_last 4 b ++ codes ".rar")
    else c

-- The key of a set and whether the name itself says that it is one of several volumes.
abbrev rar_key : Text → Text → Option (Text × Text) → Text × Bool
rar_key d stem none = (d ++ (codes "|rstyle|" ++ to_lower stem), false)
rar_key d stem (some (prefix, digits)) = (d ++ (codes "|partrar|" ++ to_lower prefix), true)

unfoldable pub multipart_archive_group_key : Text → Text × Bool
unfolding trim_space is_empty dir clean base to_lower has_suffix rar_part is_old_volume drop_last
multipart_archive_group_key path =
    let c = trim_space path in
    let b = base c in
    let d = to_lower (clean (dir c)) in
    if is_empty c
    then ([], false)
    else if has_suffix (to_lower b) (codes ".rar")
    then rar_key d (drop_last 4 b) (rar_part (drop_last 4 b))
    else if is_old_volume b
    then (d ++ (codes "|rstyle|" ++ to_lower (drop_last 4 b)), true)
    else ([], false)

unfoldable archive_tool_kind : Text → Text
unfolding to_lower base trim_space text_eq
archive_tool_kind command =
    if text_eq (to_lower (base (trim_space command))) (codes "unar")
    then codes "unar"
    else codes "7z"

unfoldable archive_command_args : Text → Text → Text → Text → List Text
unfolding archive_tool_kind is_empty trim_space text_eq
archive_command_args command archive_path out_dir password =
    let blank = is_empty (trim_space password) in
    if text_eq (archive_tool_kind command) (codes "unar")
    then codes "-f"
      ∷ codes "-o"
      ∷ out_dir
      ∷ ((if blank then [] else codes "-p" ∷ password ∷ []) ++ (archive_path ∷ []))
    else codes "x"
      ∷ codes "-y"
      ∷ codes "-aoa"
      ∷ (codes "-o" ++ out_dir)
      ∷ ((if blank then [] else (codes "-p" ++ password) ∷ []) ++ (archive_path ∷ []))
