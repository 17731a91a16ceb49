-- ===== src/CfHtml/Positions.antt =====
-- Byte positions in src-tauri/src/cf_html.rs.
use cubby_clipboard.Prelude.{
  ℕ, ◌+◌, ◌-◌, ◌≤◌, ◌<◌, ◌≡◌, refl, ap, ◌∙◌, true, List, [], ◌∷◌, ◌++◌, some, inl, inr, length,
  arith, All, length-append, Bool-cases, Option-cases,
}
use cubby_clipboard.Secrets.Text.{str_len, starts_with}
use cubby_clipboard.CfHtml.{
  start_html_name, end_html_name, start_fragment_name, end_fragment_name, start_fragment_marker,
  end_fragment_marker, drop_first, take_first, get_range, crlf,
}
use cubby_clipboard.CfHtml.Assembly.{
  find, rfind, headed, header_line, padded, header_len, start_or, end_or,
}
use cubby_clipboard.CfHtml.Digits.{IsDigit, padded-IsDigit, length-padded}

pub str_len-append : (xs ys : List ℕ) → str_len (xs ++ ys) ≡ str_len xs + str_len ys
unfolding str_len
str_len-append [] ys = omega arith
str_len-append (x ∷ xs) ys = let rest = str_len-append xs ys in omega (arith, rest)

str_len-IsDigit : (ds : List ℕ) → All IsDigit ds → str_len ds ≡ length ds
unfolding str_len
str_len-IsDigit [] h = refl
str_len-IsDigit (d ∷ ds) h = ground (arith, h.0.0, h.0.1, str_len-IsDigit ds h.1)

str_len-padded : (n : ℕ) → n < 10000000000 → str_len (padded n) ≡ 10
str_len-padded n h = str_len-IsDigit (padded n) (padded-IsDigit n h) ∙ length-padded n h

str_len-header_line :
    (name : List ℕ) (n : ℕ) (rest : List ℕ)
    → n < 10000000000
    → str_len (header_line name (padded n) rest) ≡ str_len name + 13 + str_len rest
unfolding str_len
str_len-header_line name n rest h =
    let a = str_len-append name (b':' ∷ (padded n ++ (crlf ++ rest))) in
    let b = str_len-append (padded n) (crlf ++ rest) in
    let c = str_len-padded n h in omega (arith, a, b, c)

-- The header is as long with its offsets as with the placeholders.
pub str_len-headed :
    (a b c d : ℕ)
    → a < 10000000000
    → b < 10000000000
    → c < 10000000000
    → d < 10000000000
    → str_len (headed (padded a) (padded b) (padded c) (padded d) []) ≡ header_len
unfolding str_len header_len
str_len-headed a b c d ha hb hc hd =
    let l4 = header_line end_fragment_name (padded d) [] in
    let e4 = str_len-header_line end_fragment_name d [] hd in
    let l3 = header_line start_fragment_name (padded c) l4 in
    let e3 = str_len-header_line start_fragment_name c l4 hc in
    let l2 = header_line end_html_name (padded b) l3 in
    let e2 = str_len-header_line end_html_name b l3 hb in
    let e1 = str_len-header_line start_html_name a l2 ha in omega (arith, e1, e2, e3, e4)

str_len-starts_with : (cs part : List ℕ) → starts_with cs part ≡ true → str_len part ≤ str_len cs
unfolding str_len starts_with
str_len-starts_with cs [] h = omega arith
str_len-starts_with [] (p ∷ part) h = absurd (cc)
str_len-starts_with (c ∷ cs) (p ∷ part) h = ground (arith, h, str_len-starts_with cs part)

find-le : (cs part : List ℕ) (n : ℕ) → find cs part ≡ some n → n + str_len part ≤ str_len cs
unfolding find str_len
find-le [] part n h = ground (arith, h, str_len-starts_with [] part)
find-le (c ∷ cs) part n h = elim (Bool-cases (starts_with (c ∷ cs) part)) [
  | inl e ↦ ground (arith, h, e, str_len-starts_with (c ∷ cs) part e)
  | inr e ↦ elim (Option-cases (find cs part)) [
    | inl k ↦ absurd (ground (arith, h, e, k))
    | inr (m, k) ↦ ground (arith, h, e, k, find-le cs part m k)
  ]
]

rfind-le : (cs part : List ℕ) (n : ℕ) → rfind cs part ≡ some n → n ≤ str_len cs
unfolding rfind str_len
rfind-le [] part n h = ground (arith, h)
rfind-le (c ∷ cs) part n h = elim (Option-cases (rfind cs part)) [
  | inl k ↦ ground (arith, h, k)
  | inr (m, k) ↦ ground (arith, h, k, rfind-le cs part m k)
]

-- The offsets of the fragment lie inside the document.
pub start_or-le : (cs : List ℕ) → start_or (find cs start_fragment_marker) ≤ str_len cs
start_or-le cs = elim (Option-cases (find cs start_fragment_marker)) [
  | inl e ↦ rw e (omega arith)
  | inr (n, e) ↦ rw e (find-le cs start_fragment_marker n e)
]

pub end_or-le : (cs : List ℕ) → end_or (rfind cs end_fragment_marker) (str_len cs) ≤ str_len cs
end_or-le cs = elim (Option-cases (rfind cs end_fragment_marker)) [
  | inl e ↦ rw e (omega arith)
  | inr (n, e) ↦ rw e (rfind-le cs end_fragment_marker n e)
]

drop_first-append : (xs ys : List ℕ) → drop_first (length xs) (xs ++ ys) ≡ ys
unfolding drop_first
drop_first-append [] ys = refl
drop_first-append (x ∷ xs) ys = drop_first-append xs ys

take_first-all : (xs : List ℕ) → take_first (length xs) xs ≡ xs
unfolding take_first
take_first-all [] = refl
take_first-all (x ∷ xs) = ap (λ r. x ∷ r) (take_first-all xs)

-- The range after a prefix.
pub get_range-append :
    (xs ys : List ℕ) → get_range (xs ++ ys) (length xs) (length xs + length ys) ≡ some ys
unfolding get_range
get_range-append xs ys =
    let whole = length-append xs ys in
    let same : length xs + length ys - length xs ≡ length ys = omega arith in
    ground (arith, whole, drop_first-append xs ys, same, take_first-all ys)
