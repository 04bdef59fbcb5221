-- ===== src/Go/Error.antt =====
-- Go's `error` values: the sentinel that `errors.Is` finds in one, and its text.
use dlq_download_queue.Prelude.{Bool, true, false, ◌++◌}
use dlq_download_queue.Go.Strings.{Text, codes}

pub data Kind : Type 0 where
  no_rows : Kind
  downloader_not_configured missing_engine_gid action_not_allowed : Kind
  engine_gid_not_found engine_action_not_allowed : Kind
  login_required quota_exceeded captcha_needed temporarily_off unknown_site : Kind
  not_exist other : Kind

pub record Error : Type 0 where
  pub kind : Kind
  pub text : Text

pub data Result {ℓ} (A : Type ℓ) : Type ℓ where
  ok : A → Result A
  err : Error → Result A

-- `errors.New(text)` where no code compares the value.
abbrev pub plain : Text → Error
plain t = record { kind = other; text = t }

-- `fmt.Errorf("%w: %v", sentinel, e)`.
abbrev pub wrap : Error → Error → Error
wrap sentinel e = record { kind = sentinel.kind; text = sentinel.text ++ codes ": " ++ e.text }

abbrev is_no_rows : Error → Bool
is_no_rows e = elim e.kind [ no_rows ↦ true | _ ↦ false ]

abbrev pub is_gid_not_found : Error → Bool
is_gid_not_found e = elim e.kind [ engine_gid_not_found ↦ true | _ ↦ false ]

abbrev pub is_engine_refusal : Error → Bool
is_engine_refusal e = elim e.kind [ engine_action_not_allowed ↦ true | _ ↦ false ]

abbrev pub is_not_exist : Error → Bool
is_not_exist e = elim e.kind [ not_exist ↦ true | _ ↦ false ]
