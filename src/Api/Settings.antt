-- ===== src/Api/Settings.antt =====
-- internal/api/settings.go: the runtime settings, their file and the checks of an update.
pub mod Limits
pub mod Accepted
pub mod File
use dlq_download_queue.Prelude.{
  ℕ, suc, ◌*◌, ◌/◌, ◌%◌, ◌^◌, Bool, true, false, not, ◌||◌, Option, none, some, ◌++◌, ltb, ◌==◌,
  if◌then◌else◌, ℤ, pos, negsuc,
}
use dlq_download_queue.Go.Strings.{Text, codes}
use dlq_download_queue.Go.Error.{Error, Result, ok, err, plain, is_not_exist}
use dlq_download_queue.Go.Filepath.{dir, join}
use dlq_download_queue.Go.Os.{
  OsEnv, Disk, Os, pure, fail, lift, ◌>>=◌, ◌>>◌, attempt, may_fail, open_file, write_file,
}

pub record Settings : Type 0 where
  pub concurrency : ℤ
  pub max_attempts : ℤ
  pub auto_decrypt : Bool
  pub path : Text

-- A finite float64: `num` divided by the power `shift` of two.
pub record Float64 : Type 0 where
  pub num : ℤ
  pub shift : ℕ

-- What a value of the request's JSON object is, as far as Update tells values apart.
pub data Value : Type 0 where
  number : Float64 → Value
  boolean : Bool → Value
  another : Value

-- The request's object, by its keys.
abbrev pub Updates : Type 0
Updates = Text → Option Value

abbrev pub scale : Float64 → ℕ
scale x = 2 ^ x.shift

-- `x == math.Trunc(x)`
unfoldable pub is_integer : Float64 → Bool
is_integer x = elim x.num [ pos n ↦ n % scale x == 0 | negsuc n ↦ suc n % scale x == 0 ]

-- `x < low || x > high`
unfoldable pub is_outside : ℕ → ℕ → Float64 → Bool
is_outside low high x = elim x.num [
  | pos n ↦ ltb n (low * scale x) || ltb (high * scale x) n
  | negsuc n ↦ true
]

-- `int(x)` of a number that is not negative.
unfoldable pub truncated : Float64 → ℤ
truncated x = elim x.num [ pos n ↦ pos (n / scale x) | negsuc n ↦ negsuc n ]

-- The value of a number field, which keeps the old one where it is absent.
unfoldable pub number_field : Text → Text → ℕ → ℕ → ℤ → Option Value → Result ℤ
unfolding is_integer is_outside truncated
number_field name range low high old none = ok old
number_field name range low high old (some (number x)) =
    if not (is_integer x)
    then err (plain (name ++ codes " must be an integer"))
    else if is_outside low high x
    then err (plain (name ++ codes " must be between " ++ range))
    else ok (truncated x)
number_field name range low high old (some _) = err (plain (name ++ codes " must be a number"))

unfoldable pub boolean_field : Bool → Option Value → Result Bool
boolean_field old none = ok old
boolean_field old (some (boolean b)) = ok b
boolean_field old (some _) = err (plain (codes "auto_decrypt must be a boolean"))

-- A field is set as soon as it was checked, before the next one is.
abbrev pub set_auto_decrypt : Settings → Result Bool → Result (Unit {0}) × Settings
set_auto_decrypt s (err e) = (err e, s)
set_auto_decrypt s (ok b) = (ok tt, record s { auto_decrypt = b })

abbrev pub update_auto_decrypt : Updates → Settings → Result (Unit {0}) × Settings
update_auto_decrypt u s =
    set_auto_decrypt s (boolean_field s.auto_decrypt (u (codes "auto_decrypt")))

abbrev pub set_max_attempts : Updates → Settings → Result ℤ → Result (Unit {0}) × Settings
set_max_attempts u s (err e) = (err e, s)
set_max_attempts u s (ok n) = update_auto_decrypt u (record s { max_attempts = n })

abbrev pub update_max_attempts : Updates → Settings → Result (Unit {0}) × Settings
update_max_attempts u s = set_max_attempts u s (
    number_field (codes "max_attempts") (codes "1 and 20") 1 20 s.max_attempts
      (u (codes "max_attempts")))

abbrev pub set_concurrency : Updates → Settings → Result ℤ → Result (Unit {0}) × Settings
set_concurrency u s (err e) = (err e, s)
set_concurrency u s (ok n) = update_max_attempts u (record s { concurrency = n })

unfoldable pub update : Settings → Updates → Result (Unit {0}) × Settings
unfolding number_field boolean_field
update s u = set_concurrency u s (
    number_field (codes "concurrency") (codes "1 and 10") 1 10 s.concurrency
      (u (codes "concurrency")))

-- The fields that the JSON file holds, as encoding/json writes and reads them.
pub record Codec : Type 0 where
  pub marshal : Settings → Result Text
  pub unmarshal : Text → Settings → Result Settings

unfoldable pub new_defaults : Text → Settings
unfolding join
new_defaults state_dir = record {
  concurrency = pos 2;
  max_attempts = pos 5;
  auto_decrypt = true;
  path = join state_dir (codes "settings.json");
}

module _ (codec : Codec) where
  unfoldable pub load : Settings → Os Settings
  unfolding open_file
  load s = do data_ ← open_file s.path; lift (codec.unmarshal data_ s)

  abbrev pub wrapped : Text → {A : Type 0} → Result A → Result A
  wrapped t (ok a) = ok a
  wrapped t (err e) = err (record e { text = t ++ codes ": " ++ e.text })

  -- An error's text is what it says first.
  abbrev saying : Text → {A : Type 0} → Os A → Os A
  saying t m env d = let (r, d') = m env d in (wrapped t r, d')

  unfoldable pub save : Settings → Os (Unit {0})
  unfolding may_fail write_file
  save s = do
    text ← saying (codes "marshal settings") (lift (codec.marshal s))
    saying (codes "create settings dir") may_fail
    saying (codes "write settings") (write_file s.path text)

  abbrev save_defaults : Settings → Os Settings
  save_defaults s = do saying (codes "save default settings") (save s); pure s

  abbrev pub loaded_or : Settings → Result Settings → Os Settings
  loaded_or s (ok s') = pure s'
  loaded_or s (err e) =
      if is_not_exist e then save_defaults s else saying (codes "load settings") (fail e)

  unfoldable pub new_settings : Text → Os Settings
  unfolding load save new_defaults
  new_settings state_dir = do let s = new_defaults state_dir; r ← attempt (load s); loaded_or s r
