-- ===== src/Tests/Html.antt =====
-- Examples for CF_HTML, src-tauri/src/cf_html.rs.
use cubby_clipboard.Prelude.{
  ℕ, zero, suc, ◌+◌, ◌-◌, ◌≤◌, ◌<◌, ◌≡◌, refl, sym, ap, ◌∙◌, false, List, [], ◌∷◌, ◌++◌, some,
  length, length-append, arith, All, All-append,
}
use mathlib.Core.List.{append_assoc}
use cubby_clipboard.Secrets.Text.{text_eq, utf8_len, str_len, starts_with, contains, trim_start}
use cubby_clipboard.CfHtml.{is_cf_html, take_first, html_document_from_cf_html}
use cubby_clipboard.CfHtml.Assembly.{document, to_cf_html, header_len}
use cubby_clipboard.CfHtml.Restores.{IsUtf8, html_document_from_cf_html-to_cf_html}

-- An encoding with the lengths of UTF-8: the character and then fillers.
abbrev fill : ℕ → List ℕ
fill zero = []
fill (suc k) = 128 ∷ fill k

abbrev encode : List ℕ → List ℕ
encode [] = []
encode (c ∷ cs) = (c ∷ fill (utf8_len c - 1)) ++ encode cs

abbrev decode : ℕ → List ℕ → List ℕ
decode k [] = []
decode (suc k) (b ∷ bs) = decode k bs
decode zero (b ∷ bs) = b ∷ decode (utf8_len b - 1) bs

decode-fill : (k : ℕ) (bs : List ℕ) → decode k (fill k ++ bs) ≡ decode 0 bs
decode-fill zero bs = refl
decode-fill (suc k) bs = decode-fill k bs

decode-encode : (cs : List ℕ) → decode 0 (encode cs) ≡ cs
decode-encode [] = refl
decode-encode (c ∷ cs) =
    ap (λ r. c ∷ r) (decode-fill (utf8_len c - 1) (encode cs) ∙ decode-encode cs)

encode-append : (xs ys : List ℕ) → encode (xs ++ ys) ≡ encode xs ++ encode ys
encode-append [] ys = refl
encode-append (x ∷ xs) ys =
    ap (λ r. (x ∷ fill (utf8_len x - 1)) ++ r) (encode-append xs ys)
    ∙ sym (append_assoc (x ∷ fill (utf8_len x - 1)) (encode xs) (encode ys))

fill-high : (k : ℕ) → All (λ b. 128 ≤ b) (fill k)
fill-high zero = tt
fill-high (suc k) = (omega arith, fill-high k)

length-fill : (k : ℕ) → length (fill k) ≡ k
length-fill zero = refl
length-fill (suc k) = ap suc (length-fill k)

length-encode : (cs : List ℕ) → length (encode cs) ≡ str_len cs
unfolding str_len
length-encode [] = refl
length-encode (c ∷ cs) =
    let whole = length-append (fill (utf8_len c - 1)) (encode cs) in
    let filled = length-fill (utf8_len c - 1) in ground (arith, whole, filled, length-encode cs)

encode-IsUtf8 : IsUtf8 encode (λ bytes. some (decode 0 bytes))
encode-IsUtf8 = record {
  encode_append = encode-append;
  encode_ascii = λ c h. ground (arith, h);
  encode_other = λ c h.
      All-append (λ b. 128 ≤ b) (c ∷ fill (utf8_len c - 1)) [] (h, fill-high (utf8_len c - 1)) tt;
  length_encode = length-encode;
  decodes = λ cs. ap some (decode-encode cs);
}

-- "<b>é</b>"
abbrev bold : List ℕ
bold = b'<' ∷ b'b' ∷ b'>' ∷ 233 ∷ b'<' ∷ b'/' ∷ b'b' ∷ b'>' ∷ []

bold_plain : is_cf_html bold ≡ false
unfolding is_cf_html starts_with
bold_plain = refl

bold_room : header_len + str_len (document bold) < 10000000000
unfolding document header_len str_len is_cf_html starts_with contains text_eq take_first trim_start
bold_room = omega arith

html_document_from_cf_html-to_cf_html_example :
    html_document_from_cf_html (λ bytes. some (decode 0 bytes)) (encode (to_cf_html bold))
    ≡ some (document bold)
html_document_from_cf_html-to_cf_html_example =
    html_document_from_cf_html-to_cf_html encode (λ bytes. some (decode 0 bytes)) encode-IsUtf8 bold
      bold_plain bold_room
