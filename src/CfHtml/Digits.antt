-- ===== src/CfHtml/Digits.antt =====
-- The zero-padded offsets of src-tauri/src/cf_html.rs, written and read.
use mathlib.Core.Path.{subst}
use cubby_clipboard.Prelude.{
  ℕ, zero, suc, ◌+◌, ◌-◌, ◌*◌, ◌/◌, ◌%◌, ◌≤◌, ◌<◌, ◌≡◌, refl, sym, ap, ◌∙◌, true, not, ◌||◌, List,
  [], ◌∷◌, ◌++◌, Option, none, some, length, ◌==◌, arith, if◌then◌else◌, All, All-append,
}
use cubby_clipboard.Secrets.Text.{
  is_whitespace, is_digit, every, trim_start, trim_end, trim_matches,
}
use cubby_clipboard.CfHtml.{value_of, parse_usize, offset_of}
use cubby_clipboard.CfHtml.Assembly.{digits, padded}

-- The offset, its digits trimmed.
abbrev offset_digits : List ℕ → Option ℕ
offset_digits ds = if length ds == 0 || not (every is_digit ds) then none else parse_usize ds

-- An ASCII digit.
abbrev pub IsDigit : ℕ → Type 0
IsDigit c = (48 ≤ c) × (c ≤ 57)

mod-IsDigit : (n : ℕ) → IsDigit (48 + n % 10)
mod-IsDigit n = (omega arith, omega arith)

digits-IsDigit : (k n : ℕ) → All IsDigit (digits k n)
unfolding digits
digits-IsDigit zero n = tt
digits-IsDigit (suc k) n =
    All-append IsDigit (digits k (n / 10)) ((48 + n % 10) ∷ []) (digits-IsDigit k (n / 10))
      (mod-IsDigit n, tt)

length-snoc : (xs : List ℕ) (d : ℕ) → length (xs ++ d ∷ []) ≡ suc (length xs)
length-snoc [] d = refl
length-snoc (x ∷ xs) d = ap suc (length-snoc xs d)

pub length-digits : (k n : ℕ) → length (digits k n) ≡ k
unfolding digits
length-digits zero n = refl
length-digits (suc k) n =
    length-snoc (digits k (n / 10)) (48 + n % 10) ∙ ap suc (length-digits k (n / 10))

value_of-snoc :
    (m : ℕ) (xs : List ℕ) (d : ℕ) → value_of m (xs ++ d ∷ []) ≡ value_of m xs * 10 + (d - 48)
unfolding value_of
value_of-snoc m [] d = refl
value_of-snoc m (x ∷ xs) d = value_of-snoc (m * 10 + (x - 48)) xs d

unfoldable pub ten_to : ℕ → ℕ
ten_to zero = 1
ten_to (suc k) = ten_to k * 10

-- As many digits as the number needs name it.
pub value_of-digits : (k n : ℕ) → n < ten_to k → value_of 0 (digits k n) ≡ n
unfolding digits value_of ten_to
value_of-digits zero n h = omega (arith, h)
value_of-digits (suc k) n h =
    value_of-snoc 0 (digits k (n / 10)) (48 + n % 10)
    ∙ ap (λ v. v * 10 + (48 + n % 10 - 48)) (value_of-digits k (n / 10) (omega (arith, h)))
    ∙ omega arith

-- An offset below ten billion.
pub padded-digits : (n : ℕ) → n < 10000000000 → padded n ≡ digits 10 n
unfolding padded
padded-digits n h = ground (arith, h)

pub padded-IsDigit : (n : ℕ) → n < 10000000000 → All IsDigit (padded n)
padded-IsDigit n h = subst (All IsDigit) (sym (padded-digits n h)) (digits-IsDigit 10 n)

pub value_of-padded : (n : ℕ) → n < 10000000000 → value_of 0 (padded n) ≡ n
unfolding ten_to
value_of-padded n h = ap (value_of 0) (padded-digits n h) ∙ value_of-digits 10 n h

pub length-padded : (n : ℕ) → n < 10000000000 → length (padded n) ≡ 10
length-padded n h = ap length (padded-digits n h) ∙ length-digits 10 n

trim_start-IsDigit : (ds : List ℕ) → All IsDigit ds → trim_start is_whitespace ds ≡ ds
unfolding trim_start
trim_start-IsDigit [] h = refl
trim_start-IsDigit (d ∷ ds) h = ground (arith, h.0.0, h.0.1)

trim_end-IsDigit : (ds : List ℕ) → All IsDigit ds → trim_end is_whitespace ds ≡ ds
unfolding trim_end
trim_end-IsDigit [] h = refl
trim_end-IsDigit (d ∷ []) h = ground (arith, h.0.0, h.0.1)
trim_end-IsDigit (d ∷ e ∷ ds) h = rw (trim_end-IsDigit (e ∷ ds) h.1) refl

every-IsDigit : (ds : List ℕ) → All IsDigit ds → every is_digit ds ≡ true
unfolding every
every-IsDigit [] h = refl
every-IsDigit (d ∷ ds) h = ground (arith, h.0.0, h.0.1, every-IsDigit ds h.1)

-- A written offset is read.
pub offset_of-padded : (n : ℕ) → n < 10000000000 → offset_of (padded n) ≡ some n
unfolding offset_of trim_matches
offset_of-padded n h =
    let ds = padded n in
    let digit = padded-IsDigit n h in
    let trimmed : trim_matches is_whitespace ds ≡ ds =
      ap (trim_end is_whitespace) (trim_start-IsDigit ds digit) ∙ trim_end-IsDigit ds digit in
    ap offset_digits trimmed
    ∙ ground (arith, h, every-IsDigit ds digit, length-padded n h, value_of-padded n h)
