-- ===== src/Secrets/Window.antt =====
-- How much of a long text src-tauri/src/secrets.rs reads, and which long texts it never forgets.
use mathlib.Core.List.{append-nil}
use cubby_clipboard.Prelude.{
  ℕ, ◌+◌, ◌-◌, ◌*◌, ◌≤◌, ◌<◌, ◌≡◌, refl, sym, ap, ◌⊎◌, inl, inr, false, List, [], ◌∷◌, ◌++◌, length,
  leb, arith, Bool-cases,
}
use cubby_clipboard.Secrets.Text.{str_len, utf8_len, trim_matches, is_whitespace}
use cubby_clipboard.Secrets.{
  take_bytes, secret_scan_window, secret_scan_prefix_bytes, looks_like_credential,
}

take_bytes-split :
    (limit : ℕ) (text : List ℕ)
    → (rest : List ℕ) × (text ≡ take_bytes limit text ++ rest)
      × (str_len (take_bytes limit text) ≤ limit)
      × ((rest ≡ []) ⊎ (limit < str_len (take_bytes limit text) + 4))
unfolding take_bytes str_len
take_bytes-split limit [] = ([], refl, omega arith, inl refl)
take_bytes-split limit (c ∷ cs) = elim (Bool-cases (leb (utf8_len c) limit)) [
  | inl h ↦
      let (rest, same, le, cut) = take_bytes-split (limit - utf8_len c) cs in
      (rest, rw h (ap (◌∷◌ c) same), ground (arith, h, le), ground (arith, h, cut))
  | inr h ↦ (c ∷ cs, rw h refl, rw h (omega arith), inr (ground (arith, h)))
]

-- The text that is classified is a prefix of the text, at most `secret_scan_prefix_bytes` long, and
-- either the whole text or short of the limit by less than one character.
pub secret_scan_window-prefix :
    (text : List ℕ)
    → (rest : List ℕ) × (text ≡ secret_scan_window text ++ rest)
      × (str_len (secret_scan_window text) ≤ secret_scan_prefix_bytes)
      × ((rest ≡ []) ⊎ (secret_scan_prefix_bytes < str_len (secret_scan_window text) + 4))
unfolding secret_scan_window
secret_scan_window-prefix text = elim (Bool-cases (leb (str_len text) secret_scan_prefix_bytes)) [
  | inl h ↦ ([], rw h (sym (append-nil text)), rw h (ground arith), inl refl)
  | inr h ↦ rw h (take_bytes-split secret_scan_prefix_bytes text)
]

str_len-le : (text : List ℕ) → str_len text ≤ 4 * length text
unfolding str_len
str_len-le [] = omega arith
str_len-le (c ∷ cs) = ground (arith, str_len-le cs)

-- A text of more than `secret_scan_prefix_bytes` bytes, trimmed, is never taken for a credential.
pub looks_like_credential-oversized :
    (text : List ℕ)
    → secret_scan_prefix_bytes < str_len (trim_matches is_whitespace text)
    → looks_like_credential text ≡ false
unfolding looks_like_credential
looks_like_credential-oversized text h =
    ground (arith, str_len-le (trim_matches is_whitespace text))
