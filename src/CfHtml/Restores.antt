-- ===== src/CfHtml/Restores.antt =====
-- What src-tauri/src/cf_html.rs writes it reads back: `to_cf_html` and `html_document_from_cf_html`.
use mathlib.Core.Path.{ap₂}
use mathlib.Core.List.{append_assoc}
use cubby_clipboard.Prelude.{
  ℕ, ◌+◌, ◌≤◌, ◌<◌, ◌≡◌, refl, sym, ap, ◌∙◌, false, List, [], ◌∷◌, ◌++◌, Option, some, inl, inr,
  length, ltb, ◌==◌, arith, All, Bool-cases,
}
use cubby_clipboard.Secrets.Text.{str_len}
use cubby_clipboard.CfHtml.{
  start_html_name, end_html_name, start_fragment_name, end_fragment_name, crlf,
  start_fragment_marker, end_fragment_marker, is_cf_html, before_lt, lines, offset_in,
  cf_html_offset, get_range, html_document_from_cf_html,
}
use cubby_clipboard.CfHtml.Assembly.{
  document, find, rfind, headed, padded, header_len, start_or, end_or, to_cf_html, header_line,
  version_line,
}
use cubby_clipboard.CfHtml.Header.{before_lt-headed, offset_in-start, offset_in-end}
use cubby_clipboard.CfHtml.Positions.{str_len-headed, start_or-le, end_or-le, get_range-append}

-- What UTF-8 promises: characters are encoded one after the other, an ASCII character as itself, any
-- other one by bytes that are not ASCII, in the number of bytes that `str_len` counts, and the bytes
-- of a text decode to it.
pub record IsUtf8 (encode : List ℕ → List ℕ) (from_utf8 : List ℕ → Option (List ℕ)) : Type 0 where
  pub encode_append : (xs ys : List ℕ) → encode (xs ++ ys) ≡ encode xs ++ encode ys
  pub encode_ascii : (c : ℕ) → c < 128 → encode (c ∷ []) ≡ c ∷ []
  pub encode_other : (c : ℕ) → 128 ≤ c → All (λ b. 128 ≤ b) (encode (c ∷ []))
  pub length_encode : (xs : List ℕ) → length (encode xs) ≡ str_len xs
  pub decodes : (xs : List ℕ) → from_utf8 (encode xs) ≡ some xs

before_lt-cons : (c : ℕ) (cs : List ℕ) → (c == b'<') ≡ false → before_lt (c ∷ cs) ≡ c ∷ before_lt cs
unfolding before_lt
before_lt-cons c cs e = ground (arith, e)

before_lt-high :
    (xs ys : List ℕ) → All (λ b. 128 ≤ b) xs → before_lt (xs ++ ys) ≡ xs ++ before_lt ys
unfolding before_lt
before_lt-high [] ys h = refl
before_lt-high (x ∷ xs) ys h = ground (arith, h.0, before_lt-high xs ys h.1)

length-nil : (xs : List ℕ) → length xs ≡ 0 → xs ≡ []
length-nil [] h = refl
length-nil (x ∷ xs) h = absurd (omega (arith, h))

header_line-append :
    (name value u rest : List ℕ)
    → header_line name value (u ++ rest) ≡ header_line name value u ++ rest
header_line-append name value u rest =
    ap (λ t. name ++ (b':' ∷ t)) (sym (append_assoc value (crlf ++ u) rest))
    ∙ sym (append_assoc name (b':' ∷ (value ++ (crlf ++ u))) rest)

headed-append : (a b c d rest : List ℕ) → headed a b c d rest ≡ headed a b c d [] ++ rest
headed-append a b c d rest =
    let l4 = header_line end_fragment_name d [] in
    let l3 = header_line start_fragment_name c l4 in
    let l2 = header_line end_html_name b l3 in
    ap
      (λ r.
        version_line
        ++ header_line start_html_name a
            (header_line end_html_name b (header_line start_fragment_name c r)))
      (header_line-append end_fragment_name d [] rest)
    ∙ ap (λ r. version_line ++ header_line start_html_name a (header_line end_html_name b r))
        (header_line-append start_fragment_name c l4 rest)
    ∙ ap (λ r. version_line ++ header_line start_html_name a r)
        (header_line-append end_html_name b l3 rest)
    ∙ ap (λ r. version_line ++ r) (header_line-append start_html_name a l2 rest)

to_cf_html-headed :
    (html : List ℕ)
    → is_cf_html html ≡ false
    → let doc = document html in
      to_cf_html html
      ≡ headed
          (padded header_len)
          (padded (header_len + str_len doc))
          (padded (header_len + start_or (find doc start_fragment_marker)))
          (padded (header_len + end_or (rfind doc end_fragment_marker) (str_len doc)))
          doc
unfolding to_cf_html
to_cf_html-headed html h = rw h refl

module _ (encode : List ℕ → List ℕ) (from_utf8 : List ℕ → Option (List ℕ))
    (laws : IsUtf8 encode from_utf8) where
  encode-nil : encode [] ≡ []
  encode-nil = length-nil (encode []) (unfold str_len in laws.length_encode [])

  encode-ascii : (c : ℕ) (cs : List ℕ) → c < 128 → encode (c ∷ cs) ≡ c ∷ encode cs
  encode-ascii c cs h =
      laws.encode_append (c ∷ []) cs ∙ ap (λ b. b ++ encode cs) (laws.encode_ascii c h)

  -- The header ends at the same place in the bytes.
  before_lt-encode : (cs : List ℕ) → before_lt (encode cs) ≡ encode (before_lt cs)
  unfolding before_lt
  before_lt-encode [] = ap before_lt encode-nil ∙ sym encode-nil
  before_lt-encode (c ∷ cs) = elim (Bool-cases (c == b'<')) [
    | inl e ↦
        let small : c < 128 = ground (arith, e) in
        ap before_lt (encode-ascii c cs small) ∙ ground (arith, e, encode-nil)
    | inr e ↦
        let rest : before_lt (c ∷ cs) ≡ c ∷ before_lt cs = ground (arith, e) in
        elim (Bool-cases (ltb c 128)) [
          | inl l ↦
              let small : c < 128 = ground (arith, l) in
              ap before_lt (encode-ascii c cs small)
              ∙ before_lt-cons c (encode cs) e
              ∙ ap (λ b. c ∷ b) (before_lt-encode cs)
              ∙ sym (encode-ascii c (before_lt cs) small)
              ∙ ap encode (sym rest)
          | inr l ↦
              let large : 128 ≤ c = ground (arith, l) in
              ap before_lt (laws.encode_append (c ∷ []) cs)
              ∙ before_lt-high (encode (c ∷ [])) (encode cs) (laws.encode_other c large)
              ∙ ap (λ b. encode (c ∷ []) ++ b) (before_lt-encode cs)
              ∙ sym (laws.encode_append (c ∷ []) (before_lt cs))
              ∙ ap encode (sym rest)
        ]
  ]

  cf_html_offset-encode :
      (cs key : List ℕ)
      → cf_html_offset from_utf8 (encode cs) key ≡ offset_in key (lines (before_lt cs))
  unfolding cf_html_offset
  cf_html_offset-encode cs key =
      let read : from_utf8 (before_lt (encode cs)) ≡ some (before_lt cs) =
        ap from_utf8 (before_lt-encode cs) ∙ laws.decodes (before_lt cs) in
      ground (arith, read)

  -- The document after its header.
  module _ (doc : List ℕ) (c d : ℕ) (room : header_len + str_len doc < 10000000000)
      (small_c : c < 10000000000) (small_d : d < 10000000000) where
    abbrev header : List ℕ → List ℕ
    header = headed (padded header_len) (padded (header_len + str_len doc)) (padded c) (padded d)

    small_start : header_len < 10000000000
    small_start = omega (arith, room)

    start-offset : cf_html_offset from_utf8 (encode (header doc)) start_html_name ≡ some header_len
    start-offset =
        cf_html_offset-encode (header doc) start_html_name
        ∙ ap (λ h. offset_in start_html_name (lines h))
            (before_lt-headed header_len (header_len + str_len doc) c d small_start room small_c
              small_d doc)
        ∙ offset_in-start header_len (header_len + str_len doc) c d small_start room small_c small_d
            (before_lt doc)

    end-offset :
        cf_html_offset from_utf8 (encode (header doc)) end_html_name
        ≡ some (header_len + str_len doc)
    end-offset =
        cf_html_offset-encode (header doc) end_html_name
        ∙ ap (λ h. offset_in end_html_name (lines h))
            (before_lt-headed header_len (header_len + str_len doc) c d small_start room small_c
              small_d doc)
        ∙ offset_in-end header_len (header_len + str_len doc) c d small_start room small_c small_d
            (before_lt doc)

    -- The bytes between the two offsets.
    document-range :
        get_range (encode (header doc)) header_len (header_len + str_len doc) ≡ some (encode doc)
    document-range =
        let split : encode (header doc) ≡ encode (header []) ++ encode doc =
          ap encode (
            headed-append (padded header_len) (padded (header_len + str_len doc)) (padded c)
              (padded d) doc)
          ∙ laws.encode_append (header []) doc in
        let start_at : length (encode (header [])) ≡ header_len =
          laws.length_encode (header [])
          ∙ str_len-headed header_len (header_len + str_len doc) c d small_start room small_c
              small_d in
        let end_at = laws.length_encode doc in
        ap₂ (λ bytes n. get_range bytes n (n + str_len doc)) split (sym start_at)
        ∙ ap
            (λ n.
              get_range (encode (header []) ++ encode doc) (length (encode (header [])))
                (length (encode (header [])) + n))
            (sym end_at)
        ∙ get_range-append (encode (header [])) (encode doc)

    document-read : html_document_from_cf_html from_utf8 (encode (header doc)) ≡ some doc
    unfolding html_document_from_cf_html
    document-read = ground (arith, start-offset, end-offset, document-range, laws.decodes doc)

  -- Under the laws of UTF-8, HTML that is no CF_HTML payload itself and whose document with the header
  -- is shorter than ten billion bytes is read back from the payload that is written for it, as the
  -- document that is hashed for it.
  pub html_document_from_cf_html-to_cf_html :
      (html : List ℕ)
      → is_cf_html html ≡ false
      → header_len + str_len (document html) < 10000000000
      → html_document_from_cf_html from_utf8 (encode (to_cf_html html)) ≡ some (document html)
  html_document_from_cf_html-to_cf_html html plain room =
      let doc = document html in
      let c = header_len + start_or (find doc start_fragment_marker) in
      let d = header_len + end_or (rfind doc end_fragment_marker) (str_len doc) in
      let c_le = start_or-le doc in
      let d_le = end_or-le doc in
      ap (λ p. html_document_from_cf_html from_utf8 (encode p)) (to_cf_html-headed html plain)
      ∙ document-read doc c d room (omega (arith, room, c_le)) (omega (arith, room, d_le))
