-- ===== src/Secrets/Checksum.antt =====
-- What the checksum of card numbers in src-tauri/src/secrets.rs detects.
use mathlib.Core.List.{reverse, reverse-append, append_assoc}
use cubby_clipboard.Prelude.{
  ℕ, ◌+◌, ◌-◌, ◌*◌, ◌<◌, ◌≡◌, refl, sym, ap, ◌∙◌, ◌≢◌, inl, inr, Bool, true, false, not, List, [],
  ◌∷◌, ◌++◌, Option, none, some, ltb, arith, if◌then◌else◌, Bool-cases,
}
use cubby_clipboard.Secrets.Text.{is_digit}
use cubby_clipboard.Secrets.{luhn_loop, luhn_ok, is_multiple_of_ten}

abbrev plus : ℕ → Option ℕ → Option ℕ
plus k none = none
plus k (some n) = some (n + k)

-- What the loop adds for a digit.
weight : Bool → ℕ → ℕ
weight double c =
    let twice = (c - b'0') * 2 in
    if double then (if ltb 9 twice then twice - 9 else twice) else c - b'0'

luhn_loop-cons :
    (c : ℕ) (cs : List ℕ) (double : Bool) (sum : ℕ)
    → is_digit c ≡ true
    → luhn_loop (c ∷ cs) double sum ≡ luhn_loop cs (not double) (sum + weight double c)
unfolding luhn_loop weight
luhn_loop-cons c cs double sum h = rw h refl

luhn_loop-none :
    (c : ℕ) (cs : List ℕ) (double : Bool) (sum : ℕ)
    → is_digit c ≡ false
    → luhn_loop (c ∷ cs) double sum ≡ none
unfolding luhn_loop
luhn_loop-none c cs double sum h = rw h refl

luhn_loop-plus :
    (cs : List ℕ) (double : Bool) (sum k : ℕ)
    → luhn_loop cs double (sum + k) ≡ plus k (luhn_loop cs double sum)
luhn_loop-plus [] double sum k = unfold luhn_loop in refl
luhn_loop-plus (c ∷ cs) double sum k = elim (Bool-cases (is_digit c)) [
  | inl h ↦
      let w = weight double c in
      let swap : sum + k + w ≡ sum + w + k = omega arith in
      luhn_loop-cons c cs double (sum + k) h
      ∙ ap (luhn_loop cs (not double)) swap
      ∙ luhn_loop-plus cs (not double) (sum + w) k
      ∙ ap (plus k) (sym (luhn_loop-cons c cs double sum h))
  | inr h ↦
      luhn_loop-none c cs double (sum + k) h ∙ ap (plus k) (sym (luhn_loop-none c cs double sum h))
]

weight-injective :
    (double : Bool) (a b : ℕ)
    → is_digit a ≡ true
    → is_digit b ≡ true
    → a ≢ b
    → (weight double a ≢ weight double b) × (weight double a < 10) × (weight double b < 10)
unfolding weight
weight-injective double a b h k d = (ground (arith, h, k, d), ground (arith, h), ground (arith, k))

luhn_loop-digit :
    (c : ℕ) (cs : List ℕ) (double : Bool) (sum : ℕ)
    → is_digit c ≡ true
    → luhn_loop (c ∷ cs) double sum ≡ plus (sum + weight double c) (luhn_loop cs (not double) 0)
luhn_loop-digit c cs double sum h =
    let all = sum + weight double c in
    let same : all ≡ 0 + all = omega arith in
    luhn_loop-cons c cs double sum h
    ∙ ap (luhn_loop cs (not double)) same
    ∙ luhn_loop-plus cs (not double) 0 all

luhn_loop-change :
    (xs ys : List ℕ) (a b : ℕ) (double : Bool) (sum : ℕ)
    → is_digit a ≡ true
    → is_digit b ≡ true
    → a ≢ b
    → is_multiple_of_ten (luhn_loop (xs ++ a ∷ ys) double sum) ≡ true
    → is_multiple_of_ten (luhn_loop (xs ++ b ∷ ys) double sum) ≡ false
luhn_loop-change [] ys a b double sum h k d e =
    let (apart, la, lb) = weight-injective double a b h k d in
    ground
      (arith, luhn_loop-digit a ys double sum h, luhn_loop-digit b ys double sum k, apart, la, lb)
luhn_loop-change (x ∷ xs) ys a b double sum h k d e = elim (Bool-cases (is_digit x)) [
  | inl t ↦
      ap is_multiple_of_ten (luhn_loop-cons x (xs ++ b ∷ ys) double sum t)
      ∙ luhn_loop-change xs ys a b (not double) (sum + weight double x) h k d
          (ap is_multiple_of_ten (sym (luhn_loop-cons x (xs ++ a ∷ ys) double sum t)) ∙ e)
  | inr t ↦ ap is_multiple_of_ten (luhn_loop-none x (xs ++ b ∷ ys) double sum t)
]

reverse-middle : (xs ys : List ℕ) (a : ℕ) → reverse (xs ++ a ∷ ys) ≡ reverse ys ++ a ∷ reverse xs
reverse-middle xs ys a =
    reverse-append xs (a ∷ ys)
    ∙ ap (λ zs. zs ++ reverse xs) (reverse-append (a ∷ []) ys)
    ∙ append_assoc (reverse ys) (a ∷ []) (reverse xs)

-- A change of one digit in a number that passes the checksum makes it fail.
pub luhn_ok-change :
    (xs ys : List ℕ) (a b : ℕ)
    → is_digit a ≡ true
    → is_digit b ≡ true
    → a ≢ b
    → luhn_ok (xs ++ a ∷ ys) ≡ true
    → luhn_ok (xs ++ b ∷ ys) ≡ false
unfolding luhn_ok
luhn_ok-change xs ys a b h k d e =
    ap (λ zs. is_multiple_of_ten (luhn_loop zs false 0)) (reverse-middle xs ys b)
    ∙ luhn_loop-change (reverse ys) (reverse xs) a b false 0 h k d
        (ap (λ zs. is_multiple_of_ten (luhn_loop zs false 0)) (sym (reverse-middle xs ys a)) ∙ e)
