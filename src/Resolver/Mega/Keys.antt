-- ===== src/Resolver/Mega/Keys.antt =====
-- internal/resolver/mega.go against internal/queue/mega_decryptor.go: both take links and keys apart,
-- each with code of its own.
use dlq_download_queue.Prelude.{
  and_parts, ℕ, Bool, true, false, ◌≡◌, refl, sym, ap, ◌∙◌, ◌&&◌, ◌||◌, [], ◌∷◌, if◌then◌else◌,
  length, ◌==◌, arith,
}
use dlq_download_queue.Go.Strings.{Text, is_empty, is_space, trim_left, trim_right, trim_space}
use dlq_download_queue.Go.Error.{Error, Result, ok, err}
use dlq_download_queue.Mega.{
  Link, ParseUrl, Decode, ContentKey, link_tokens, checked_tokens, tokens_of, key_of_bytes,
  decoded_key, parse_mega_content_key,
}
use dlq_download_queue.Mega
use dlq_download_queue.Resolver.Mega.{
  is_token_byte, all_token_bytes, is_valid_mega_token, file_tokens, check_tokens, file_link,
  parse_mega_file_link, aes_key_of, derive_mega_aes_key, decode_mega_base64, then_result,
  decode_failed,
}

same_tokens : (u : Link) → file_tokens u ≡ link_tokens u
unfolding file_tokens link_tokens Mega.trim_slashes
same_tokens u = refl

same_bytes : (s : Text) → all_token_bytes s ≡ Mega.all_token_bytes s
unfolding all_token_bytes Mega.all_token_bytes
same_bytes [] = refl
same_bytes (c ∷ s) = ap (λ b. is_token_byte c && b) (same_bytes s)

same_valid : (s : Text) → is_valid_mega_token s ≡ Mega.is_valid_mega_token s
unfolding is_valid_mega_token Mega.is_valid_mega_token
same_valid s = ap (λ b. if is_empty s then false else b) (same_bytes s)

-- Behind the same two tests, with texts of their own for the errors.
behind_tests :
    (a b b' : Bool) (e e' x x' : Error) (t t' : Text × Text)
    → b ≡ b'
    → (if a then err e else if b then ok t else err x) ≡ ok t'
    → (if a then err e' else if b' then ok t else err x') ≡ ok t'
behind_tests true b b' e e' x x' t t' q h = absurd cc
behind_tests false true true e e' x x' t t' q h = h
behind_tests false true false e e' x x' t t' q h = absurd cc
behind_tests false false b' e e' x x' t t' q h = absurd cc

not_empty_true : (a b : Bool) → (if a then false else b) ≡ true → b ≡ true
not_empty_true true b h = absurd cc
not_empty_true false b h = h

keep_byte : (a : Bool) (s : Text) → (if a && false then [] else s) ≡ s
keep_byte true s = refl
keep_byte false s = refl

same_text : {a b : Text} → ok a ≡ ok b → a ≡ b
same_text h = cc

same_check : (p t : Text × Text) → check_tokens p ≡ ok t → checked_tokens p ≡ ok t
unfolding check_tokens checked_tokens
same_check (id, key) t h =
    behind_tests (is_empty id || is_empty key) (is_valid_mega_token id && is_valid_mega_token key)
      (Mega.is_valid_mega_token id && Mega.is_valid_mega_token key) _ _ _ _ (id, key) t
      (ap (λ b. b && is_valid_mega_token key) (same_valid id)
        ∙ ap (λ b. Mega.is_valid_mega_token id && b) (same_valid key))
      h

same_link : (r : Result Link) (t : Text × Text) → file_link r ≡ ok t → tokens_of r ≡ ok t
same_link (err e) t h = absurd cc
same_link (ok u) t h = ap checked_tokens (sym (same_tokens u)) ∙ same_check (file_tokens u) t h

both_valid :
    (a b c : Bool) (e x : Error) (t t' : Text × Text)
    → (if a then err e else if b && c then ok t else err x) ≡ ok t'
    → (t ≡ t') × (c ≡ true)
both_valid true b c e x t t' h = absurd cc
both_valid false true true e x t t' h = (cc, refl)
both_valid false true false e x t t' h = absurd cc
both_valid false false c e x t t' h = absurd cc

valid_key : (p t : Text × Text) → check_tokens p ≡ ok t → all_token_bytes t.1 ≡ true
unfolding check_tokens is_valid_mega_token
valid_key (id, key) t h =
    let (same, valid) = both_valid (is_empty id || is_empty key) _ _ _ _ (id, key) t h in
    sym (ap (λ (x : Text × Text). all_token_bytes x.1) same)
    ∙ not_empty_true (is_empty key) (all_token_bytes key) valid

valid_link : (r : Result Link) (t : Text × Text) → file_link r ≡ ok t → all_token_bytes t.1 ≡ true
valid_link (err e) t h = absurd cc
valid_link (ok u) t h = valid_key (file_tokens u) t h

-- A byte of a token is no space.
not_space : (c : ℕ) → is_token_byte c ≡ true → is_space c ≡ false
unfolding is_token_byte is_space
not_space c h = ground arith

trim_right_token : (s : Text) → all_token_bytes s ≡ true → trim_right is_space s ≡ s
unfolding all_token_bytes trim_right
trim_right_token [] h = refl
trim_right_token (c ∷ s) h =
    let (a, b) = and_parts (is_token_byte c) (all_token_bytes s) h in
    rw (trim_right_token s b, not_space c a) (keep_byte (is_empty s) (c ∷ s))

trim_token : (s : Text) → all_token_bytes s ≡ true → trim_space s ≡ s
unfolding trim_space all_token_bytes trim_left
trim_token [] h = trim_right_token [] h
trim_token (c ∷ s) h =
    let (a, b) = and_parts (is_token_byte c) (all_token_bytes s) h in
    rw (not_space c a) (trim_right_token (c ∷ s) h)

-- The key of the decryptor has the AES key that the resolver derives.
abbrev pub HasAesKey : Text → Result ContentKey → Type 0
HasAesKey k r = (key : ContentKey) × (r ≡ ok key) × (key.aes_key ≡ k)

same_bytes_key :
    (a b : Bool) (raw x : Text) (key32 key16 : ContentKey) (e e' : Error) (k : Text)
    → (a ≡ true → b ≡ false)
    → key32.aes_key ≡ x
    → key16.aes_key ≡ raw
    → (if b then ok raw else if a then ok x else err e) ≡ ok k
    → HasAesKey k (if a then ok key32 else if b then ok key16 else err e')
same_bytes_key true true raw x key32 key16 e e' k q h g r = absurd (cc (q refl))
same_bytes_key true false raw x key32 key16 e e' k q h g r = (key32, refl, h ∙ same_text r)
same_bytes_key false true raw x key32 key16 e e' k q h g r = (key16, refl, g ∙ same_text r)
same_bytes_key false false raw x key32 key16 e e' k q h g r = absurd cc

not_both : (n : ℕ) → (n == 32) ≡ true → (n == 16) ≡ false
not_both n h = ground arith

same_raw : (raw k : Text) → aes_key_of raw ≡ ok k → HasAesKey k (key_of_bytes raw)
unfolding aes_key_of key_of_bytes
same_raw raw k h =
    same_bytes_key (length raw == 32) (length raw == 16) raw _ _ _ _ _ k (not_both (length raw))
      refl refl h

same_decoded :
    (r : Result Text) (k : Text)
    → then_result (decode_failed r) aes_key_of ≡ ok k
    → HasAesKey k (decoded_key r)
same_decoded (ok raw) k h = same_raw raw k h
same_decoded (err e) k h = absurd cc

-- Where the resolver takes the identifier and the key out of a link, without the spaces around it, and
-- derives an AES key, the decryptor takes out the same and has the same AES key.
pub parse_mega_file_link_agrees :
    (parse : ParseUrl) (decode : Decode) (raw : Text) (id token k : Text)
    → parse_mega_file_link parse (trim_space raw) ≡ ok (id, token)
    → derive_mega_aes_key decode token ≡ ok k
    → (Mega.parse_mega_file_link parse raw ≡ ok (id, token))
      × HasAesKey k (parse_mega_content_key decode token)
unfolding parse_mega_file_link Mega.parse_mega_file_link derive_mega_aes_key decode_mega_base64
    parse_mega_content_key
parse_mega_file_link_agrees parse decode raw id token k h g =
    let valid = valid_link (parse (trim_space raw)) (id, token) h in
    (
      same_link (parse (trim_space raw)) (id, token) h,
      rw (trim_token token valid) (same_decoded (decode token) k g),
    )
