-- ===== src/Secrets.antt =====
-- Which copied text looks like a secret, src-tauri/src/secrets.rs.
-- A string is the list of its characters, each its code point; `str_len` is the length in bytes of
-- UTF-8. The byte tests of the source are true only of ASCII bytes, so they are tests on characters.
pub mod Text
mod Shapes
pub mod Checksum
pub mod Window
use mathlib.Core.List.{reverse}
use cubby_clipboard.Prelude.{
  ℕ, suc, ◌+◌, ◌-◌, ◌*◌, ◌%◌, Bool, true, false, not, ◌&&◌, ◌||◌, List, [], ◌∷◌, ◌++◌, Option, none,
  some, length, ltb, leb, ◌==◌, if◌then◌else◌,
}
use cubby_clipboard.Secrets.Text.{
  any, between, contains, every, in_first, is_alphanumeric, is_digit, is_lower, is_upper,
  is_whitespace, split, starts_with, str_len, trim_end, trim_matches, trim_start, utf8_len,
}
use cubby_clipboard.Secrets.Shapes.{
  looks_like_private_key, looks_like_aws_access_key, looks_like_github_token,
  looks_like_slack_token, looks_like_stripe_secret, looks_like_google_api_key, is_word, eyj,
}

pub data SecretKind : Type 0 where
  private_key aws_access_key github_token slack_token : SecretKind
  stripe_secret_key google_api_key jwt payment_card : SecretKind

abbrev pub secret_scan_prefix_bytes : ℕ
secret_scan_prefix_bytes = 8192

-- `end` falls to the last boundary of a character within the limit.
pub take_bytes : ℕ → List ℕ → List ℕ
take_bytes limit [] = []
take_bytes limit (c ∷ cs) =
    let rest = take_bytes (limit - utf8_len c) cs in if leb (utf8_len c) limit then c ∷ rest else []

unfoldable pub secret_scan_window : List ℕ → List ℕ
unfolding take_bytes str_len
secret_scan_window text =
    if leb (str_len text) secret_scan_prefix_bytes
    then text
    else take_bytes secret_scan_prefix_bytes text

is_base64url : List ℕ → Bool
unfolding every
is_base64url value = not (length value == 0) && every (λ c. is_word c || c == 45) value

abbrev are_jws_parts : List (List ℕ) → Bool
unfolding is_base64url str_len
are_jws_parts (header ∷ payload ∷ signature ∷ []) =
    is_base64url header
    && (is_base64url payload
        && (is_base64url signature
            && (leb 10 (str_len header)
                && (leb 10 (str_len payload) && leb 10 (str_len signature)))))
are_jws_parts _ = false

looks_like_jwt : List ℕ → Bool
unfolding trim_matches starts_with split are_jws_parts
looks_like_jwt text =
    let candidate = trim_matches is_whitespace text in
    if not (starts_with candidate eyj)
    then false
    else are_jws_parts (split (λ c. c == 46) candidate)

-- `sum` is a `u32`, which the at most nineteen digits do not reach.
pub luhn_loop : List ℕ → Bool → ℕ → Option ℕ
luhn_loop [] double sum = some sum
luhn_loop (c ∷ cs) double sum =
    let twice = (c - b'0') * 2 in
    let digit = if double then (if ltb 9 twice then twice - 9 else twice) else c - b'0' in
    let rest = luhn_loop cs (not double) (sum + digit) in if is_digit c then rest else none

abbrev is_multiple_of_ten : Option ℕ → Bool
is_multiple_of_ten none = false
is_multiple_of_ten (some sum) = sum % 10 == 0

unfoldable pub luhn_ok : List ℕ → Bool
unfolding luhn_loop
luhn_ok digits = is_multiple_of_ten (luhn_loop (reverse digits) false 0)

digits_of : List ℕ → List ℕ
digits_of [] = []
digits_of (c ∷ cs) = let rest = digits_of cs in if is_digit c then c ∷ rest else rest

abbrev is_gap : ℕ → Bool
is_gap c = c == 32 || c == 45

is_card_chunk : List ℕ → Bool
unfolding trim_matches any digits_of luhn_ok
is_card_chunk chunk =
    let trimmed = trim_matches is_gap chunk in
    let digits = digits_of trimmed in
    if length trimmed == 0 || not (any (λ c. c == 32) trimmed || any (λ c. c == 45) trimmed)
    then false
    else between 13 19 (length digits) && luhn_ok digits

any_card_chunk : List (List ℕ) → Bool
unfolding is_card_chunk
any_card_chunk [] = false
any_card_chunk (chunk ∷ chunks) = is_card_chunk chunk || any_card_chunk chunks

looks_like_payment_card : List ℕ → Bool
unfolding any_card_chunk split
looks_like_payment_card text =
    any_card_chunk (split (λ c. not (is_digit c || (c == 32 || c == 45))) text)

pub classify_secret : List ℕ → Option SecretKind
unfolding trim_matches
classify_secret text =
    let trimmed = trim_matches is_whitespace text in
    let window = secret_scan_window trimmed in
    if length trimmed == 0
    then none
    else if looks_like_private_key window
    then some private_key
    else if looks_like_aws_access_key window
    then some aws_access_key
    else if looks_like_github_token window
    then some github_token
    else if looks_like_slack_token window
    then some slack_token
    else if looks_like_stripe_secret window
    then some stripe_secret_key
    else if looks_like_google_api_key window
    then some google_api_key
    else if looks_like_jwt window
    then some jwt
    else if looks_like_payment_card window
    then some payment_card
    else none

abbrev is_some : Option SecretKind → Bool
is_some none = false
is_some (some kind) = true

abbrev count_true : Bool → ℕ
count_true true = 1
count_true false = 0

unfoldable pub looks_like_credential : List ℕ → Bool
unfolding any trim_matches str_len
looks_like_credential text =
    let trimmed = trim_matches is_whitespace text in
    if leb (str_len trimmed) secret_scan_prefix_bytes && is_some (classify_secret trimmed)
    then true
    else if not (between 8 128 (length trimmed))
    then false
    else if any (λ c. is_whitespace c || (c == 47 || c == 92)) trimmed
    then false
    else leb 3 (
        count_true (any is_lower trimmed)
        + (count_true (any is_upper trimmed)
            + (count_true (any is_digit trimmed)
                + count_true (any (λ c. not (is_alphanumeric c)) trimmed))))
