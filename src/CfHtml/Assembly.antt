-- ===== src/CfHtml/Assembly.antt =====
-- The writing half of src-tauri/src/cf_html.rs: `document` and `to_cf_html`.
use cubby_clipboard.Prelude.{
  ℕ, zero, suc, ◌+◌, ◌/◌, ◌%◌, ◌||◌, List, [], ◌∷◌, ◌++◌, Option, none, some, map, ltb, ◌==◌,
  if◌then◌else◌,
}
use cubby_clipboard.Secrets.Text.{
  text_eq, utf8_len, str_len, is_whitespace, is_upper, trim_start, starts_with, contains,
}
use cubby_clipboard.CfHtml.{
  start_fragment_marker, end_fragment_marker, version, start_html_name, end_html_name,
  start_fragment_name, end_fragment_name, crlf, is_cf_html, from_lt, take_first,
}

abbrev pub ascii_lower : ℕ → ℕ
ascii_lower c = if is_upper c then c + 32 else c

abbrev pub html_tag : List ℕ
html_tag = b'<' ∷ b'h' ∷ b't' ∷ b'm' ∷ b'l' ∷ []

abbrev pub before_fragment : List ℕ
before_fragment =
    html_tag ++ (b'>' ∷ 13 ∷ 10 ∷ b'<' ∷ b'b' ∷ b'o' ∷ b'd' ∷ b'y' ∷ b'>' ∷ 13 ∷ 10 ∷ [])

abbrev pub after_fragment : List ℕ
after_fragment =
    13 ∷ 10 ∷ b'<' ∷ b'/' ∷ b'b' ∷ b'o' ∷ b'd' ∷ b'y' ∷ b'>' ∷ 13 ∷ 10 ∷ b'<' ∷ b'/' ∷ b'h' ∷ b't'
    ∷ b'm' ∷ b'l' ∷ b'>' ∷ []

unfoldable pub document : List ℕ → List ℕ
document html =
    if is_cf_html html
    then if contains html (b'<' ∷ []) then from_lt html else html
    else if contains html start_fragment_marker
        || text_eq (map ascii_lower (take_first 5 (trim_start is_whitespace html))) html_tag
    then html
    else before_fragment
      ++ (start_fragment_marker ++ (html ++ (end_fragment_marker ++ after_fragment)))

-- `str::find` and `str::rfind`, in bytes.
unfoldable pub find : List ℕ → List ℕ → Option ℕ
find [] part = if starts_with [] part then some 0 else none
find (c ∷ cs) part =
    let rest = find cs part in
    if starts_with (c ∷ cs) part
    then some 0
    else elim rest [ none ↦ none | some n ↦ some (utf8_len c + n) ]

unfoldable pub rfind : List ℕ → List ℕ → Option ℕ
rfind [] part = if starts_with [] part then some 0 else none
rfind (c ∷ cs) part = elim (rfind cs part) [
  | some n ↦ some (utf8_len c + n)
  | none ↦ if starts_with (c ∷ cs) part then some 0 else none
]

-- The last digits of a number.
unfoldable pub digits : ℕ → ℕ → List ℕ
digits zero n = []
digits (suc k) n = digits k (n / 10) ++ (48 + n % 10) ∷ []

unfoldable pub strip_zeros : List ℕ → List ℕ
strip_zeros [] = []
strip_zeros (d ∷ ds) = let rest = strip_zeros ds in if d == 48 then rest else d ∷ ds

-- `{:010}` of a `usize`.
unfoldable pub padded : ℕ → List ℕ
unfolding digits strip_zeros
padded n = if ltb n 10000000000 then digits 10 n else strip_zeros (digits 20 n)

abbrev pub version_line : List ℕ
version_line = version ++ (b'0' ∷ b'.' ∷ b'9' ∷ crlf)

abbrev pub header_line : List ℕ → List ℕ → List ℕ → List ℕ
header_line name value rest = name ++ (b':' ∷ (value ++ (crlf ++ rest)))

-- The header with its four offsets, and what follows it.
abbrev pub headed : List ℕ → List ℕ → List ℕ → List ℕ → List ℕ → List ℕ
headed start_html end_html start_fragment end_fragment rest =
    version_line
    ++ header_line start_html_name start_html (
        header_line end_html_name end_html (
          header_line start_fragment_name start_fragment
            (header_line end_fragment_name end_fragment rest)))

abbrev pub placeholder : List ℕ
placeholder = 48 ∷ 48 ∷ 48 ∷ 48 ∷ 48 ∷ 48 ∷ 48 ∷ 48 ∷ 48 ∷ 48 ∷ []

unfoldable pub header_len : ℕ
unfolding str_len
header_len = str_len (headed placeholder placeholder placeholder placeholder [])

abbrev pub start_or : Option ℕ → ℕ
start_or none = 0
start_or (some position) = position + str_len start_fragment_marker

abbrev pub end_or : Option ℕ → ℕ → ℕ
end_or none n = n
end_or (some position) n = position

unfoldable pub to_cf_html : List ℕ → List ℕ
unfolding document find rfind padded header_len
to_cf_html html =
    let doc = document html in
    if is_cf_html html
    then html
    else headed (padded header_len) (padded (header_len + str_len doc))
        (padded (header_len + start_or (find doc start_fragment_marker)))
        (padded (header_len + end_or (rfind doc end_fragment_marker) (str_len doc))) doc
