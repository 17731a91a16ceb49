-- ===== src/Tests/Secrecy.antt =====
-- Examples for the detection of secrets, src-tauri/src/secrets.rs.

use cubby_clipboard.Prelude.{ℕ, zero, suc, ◌≡◌, refl, true, List, [], ◌∷◌, ◌++◌, arith}
use cubby_clipboard.Secrets.Text.{str_len, trim_matches, trim_start, trim_end, is_whitespace}
use cubby_clipboard.Secrets.{luhn_ok}

-- "42" and "42" end a number that passes.
card_ok : luhn_ok ((b'4' ∷ b'2' ∷ []) ++ b'4' ∷ b'2' ∷ []) ≡ true
unfolding luhn_ok
card_ok = refl

run : ℕ → List ℕ
run zero = []
run (suc n) = b'x' ∷ run n

trim_end-run : (n : ℕ) → trim_end is_whitespace (run n) ≡ run n
unfolding run trim_end
trim_end-run zero = refl
trim_end-run (suc zero) = refl
trim_end-run (suc (suc n)) = rw (trim_end-run (suc n)) refl

trim_matches-run : (n : ℕ) → trim_matches is_whitespace (run n) ≡ run n
unfolding trim_matches trim_start run
trim_matches-run zero = unfold trim_end in refl
trim_matches-run (suc n) = trim_end-run (suc n)

str_len-run : (n : ℕ) → str_len (run n) ≡ n
unfolding str_len run
str_len-run zero = refl
str_len-run (suc n) = ground (arith, str_len-run n)
