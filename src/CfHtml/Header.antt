-- ===== src/CfHtml/Header.antt =====
-- The header that src-tauri/src/cf_html.rs writes, as it reads it.
use mathlib.Core.List.{append_assoc}
use cubby_clipboard.Prelude.{
  ℕ, ◌<◌, ◌≡◌, ◌≢◌, refl, sym, ap, ◌∙◌, List, [], ◌∷◌, ◌++◌, some, arith, All, All-append,
}
use cubby_clipboard.Secrets.Text.{text_eq, starts_with}
use cubby_clipboard.CfHtml.{
  version, start_html_name, end_html_name, start_fragment_name, end_fragment_name, crlf, before_lt,
  lines, split_colon, offset_in,
}
use cubby_clipboard.CfHtml.Assembly.{headed, header_line, version_line, padded}
use cubby_clipboard.CfHtml.Digits.{IsDigit, padded-IsDigit, offset_of-padded}

-- A character that ends neither a line nor the header.
abbrev pub IsPlain : ℕ → Type 0
IsPlain c = (c ≢ 10) × (c ≢ 13) × (c ≢ b'<')

IsDigit-IsPlain : (ds : List ℕ) → All IsDigit ds → All IsPlain ds
IsDigit-IsPlain [] h = tt
IsDigit-IsPlain (d ∷ ds) h = (
  (
    λ e. omega (arith, h.0.0, h.0.1, e),
    λ e. omega (arith, h.0.0, h.0.1, e),
    λ e. omega (arith, h.0.0, h.0.1, e),
  ),
  IsDigit-IsPlain ds h.1,
)

before_lt-append : (xs ys : List ℕ) → All IsPlain xs → before_lt (xs ++ ys) ≡ xs ++ before_lt ys
unfolding before_lt
before_lt-append [] ys h = refl
before_lt-append (x ∷ xs) ys h = ground (arith, h.0.2, before_lt-append xs ys h.1)

before_lt-crlf : (ys : List ℕ) → before_lt (crlf ++ ys) ≡ crlf ++ before_lt ys
unfolding before_lt
before_lt-crlf ys = refl

lines-append : (xs ys : List ℕ) → All IsPlain xs → lines (xs ++ (crlf ++ ys)) ≡ xs ∷ lines ys
unfolding lines starts_with
lines-append [] ys h = refl
lines-append (x ∷ xs) ys h = ground (arith, h.0.0, h.0.1, lines-append xs ys h.1)

module _ (n : ℕ) (small : n < 10000000000) (name : List ℕ) (plain : All IsPlain name) where
  line-IsPlain : All IsPlain (name ++ (b':' ∷ padded n))
  line-IsPlain =
      All-append IsPlain name (b':' ∷ padded n) plain
        (ground arith, IsDigit-IsPlain (padded n) (padded-IsDigit n small))

  header_line-append :
      (rest : List ℕ)
      → header_line name (padded n) rest ≡ (name ++ (b':' ∷ padded n)) ++ (crlf ++ rest)
  header_line-append rest = sym (append_assoc name (b':' ∷ padded n) (crlf ++ rest))

  lines-header_line :
      (rest : List ℕ)
      → lines (header_line name (padded n) rest) ≡ (name ++ (b':' ∷ padded n)) ∷ lines rest
  lines-header_line rest =
      ap lines (header_line-append rest)
      ∙ lines-append (name ++ (b':' ∷ padded n)) rest line-IsPlain

  before_lt-header_line :
      (rest : List ℕ)
      → before_lt (header_line name (padded n) rest) ≡ header_line name (padded n) (before_lt rest)
  before_lt-header_line rest =
      ap before_lt (header_line-append rest)
      ∙ before_lt-append (name ++ (b':' ∷ padded n)) (crlf ++ rest) line-IsPlain
      ∙ ap (λ r. (name ++ (b':' ∷ padded n)) ++ r) (before_lt-crlf rest)
      ∙ sym (header_line-append (before_lt rest))

start_html-IsPlain : All IsPlain start_html_name
start_html-IsPlain = ground arith

end_html-IsPlain : All IsPlain end_html_name
end_html-IsPlain = ground arith

start_fragment-IsPlain : All IsPlain start_fragment_name
start_fragment-IsPlain = ground arith

end_fragment-IsPlain : All IsPlain end_fragment_name
end_fragment-IsPlain = ground arith

before_lt-version_line :
    (ys : List ℕ) → before_lt (version_line ++ ys) ≡ version_line ++ before_lt ys
unfolding before_lt
before_lt-version_line ys = refl

lines-version_line :
    (ys : List ℕ) → lines (version_line ++ ys) ≡ (version ++ (b'0' ∷ b'.' ∷ b'9' ∷ [])) ∷ lines ys
unfolding lines starts_with
lines-version_line ys = refl

module _ (a b c d : ℕ) (small_a : a < 10000000000) (small_b : b < 10000000000)
    (small_c : c < 10000000000) (small_d : d < 10000000000) where
  -- What stands before the first '<'.
  pub before_lt-headed :
      (rest : List ℕ)
      → before_lt (headed (padded a) (padded b) (padded c) (padded d) rest)
        ≡ headed (padded a) (padded b) (padded c) (padded d) (before_lt rest)
  before_lt-headed rest =
      let r4 = before_lt-header_line d small_d end_fragment_name end_fragment-IsPlain rest in
      let l4 = header_line end_fragment_name (padded d) rest in
      let r3 = before_lt-header_line c small_c start_fragment_name start_fragment-IsPlain l4 in
      let l3 = header_line start_fragment_name (padded c) l4 in
      let r2 = before_lt-header_line b small_b end_html_name end_html-IsPlain l3 in
      let l2 = header_line end_html_name (padded b) l3 in
      let r1 = before_lt-header_line a small_a start_html_name start_html-IsPlain l2 in
      before_lt-version_line (header_line start_html_name (padded a) l2)
      ∙ ap (λ r. version_line ++ r)
          (r1
            ∙ ap (header_line start_html_name (padded a)) (
                r2
                ∙ ap (header_line end_html_name (padded b))
                    (r3 ∙ ap (header_line start_fragment_name (padded c)) r4)))

  lines-headed :
      (rest : List ℕ)
      → (more : List (List ℕ)) × (lines (headed (padded a) (padded b) (padded c) (padded d) rest)
          ≡ (version ++ (b'0' ∷ b'.' ∷ b'9' ∷ []))
            ∷ (start_html_name ++ (b':' ∷ padded a))
            ∷ (end_html_name ++ (b':' ∷ padded b))
            ∷ more)
  lines-headed rest =
      let l4 = header_line end_fragment_name (padded d) rest in
      let l3 = header_line start_fragment_name (padded c) l4 in
      let l2 = header_line end_html_name (padded b) l3 in
      let l1 = header_line start_html_name (padded a) l2 in
      (
        lines l3,
        lines-version_line l1
            ∙ ap (λ ls. (version ++ (b'0' ∷ b'.' ∷ b'9' ∷ [])) ∷ ls)
                (lines-header_line a small_a start_html_name start_html-IsPlain l2
                  ∙ ap (λ ls. (start_html_name ++ (b':' ∷ padded a)) ∷ ls)
                      (lines-header_line b small_b end_html_name end_html-IsPlain l3)),
      )

  pub offset_in-start :
      (rest : List ℕ)
      → offset_in start_html_name (lines (headed (padded a) (padded b) (padded c) (padded d) rest))
        ≡ some a
  unfolding offset_in split_colon text_eq
  offset_in-start rest =
      let (more, same) = lines-headed rest in
      ap (offset_in start_html_name) same ∙ offset_of-padded a small_a

  pub offset_in-end :
      (rest : List ℕ)
      → offset_in end_html_name (lines (headed (padded a) (padded b) (padded c) (padded d) rest))
        ≡ some b
  unfolding offset_in split_colon text_eq
  offset_in-end rest =
      let (more, same) = lines-headed rest in
      ap (offset_in end_html_name) same ∙ offset_of-padded b small_b
