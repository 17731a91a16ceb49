-- ===== src/CfHtml.antt =====
-- CF_HTML assembly and capture parsing, src-tauri/src/cf_html.rs. A `str` is the list of its
-- characters and a payload a list of bytes; `encode` stands for the UTF-8 bytes of a `str` and
-- `from_utf8` for the conversion back. Offsets are `usize`, 64 bits.
pub mod Assembly
pub mod Digits
pub mod Header
pub mod Positions
pub mod Restores
use cubby_clipboard.Prelude.{
  ℕ, zero, suc, ◌+◌, ◌-◌, ◌*◌, ◌/◌, ◌%◌, ◌≤◌, ◌<◌, ◌≡◌, Bool, true, false, not, ◌&&◌, ◌||◌, List,
  [], ◌∷◌, ◌++◌, Option, none, some, length, leb, ltb, ◌==◌, if◌then◌else◌,
}
use cubby_clipboard.Secrets.Text.{
  str_len, is_whitespace, is_digit, every, trim_start, trim_matches, starts_with, contains, text_eq,
}

abbrev pub start_fragment_marker : List ℕ
start_fragment_marker =
    b'<' ∷ b'!' ∷ b'-' ∷ b'-' ∷ b'S' ∷ b't' ∷ b'a' ∷ b'r' ∷ b't' ∷ b'F' ∷ b'r' ∷ b'a' ∷ b'g' ∷ b'm'
    ∷ b'e' ∷ b'n' ∷ b't' ∷ b'-' ∷ b'-' ∷ b'>' ∷ []

abbrev pub end_fragment_marker : List ℕ
end_fragment_marker =
    b'<' ∷ b'!' ∷ b'-' ∷ b'-' ∷ b'E' ∷ b'n' ∷ b'd' ∷ b'F' ∷ b'r' ∷ b'a' ∷ b'g' ∷ b'm' ∷ b'e' ∷ b'n'
    ∷ b't' ∷ b'-' ∷ b'-' ∷ b'>' ∷ []

-- "Version:", "Version:0.9\r\n", "StartHTML:" and the other keys.
abbrev pub version : List ℕ
version = b'V' ∷ b'e' ∷ b'r' ∷ b's' ∷ b'i' ∷ b'o' ∷ b'n' ∷ b':' ∷ []

abbrev pub start_html_name : List ℕ
start_html_name = b'S' ∷ b't' ∷ b'a' ∷ b'r' ∷ b't' ∷ b'H' ∷ b'T' ∷ b'M' ∷ b'L' ∷ []

abbrev pub end_html_name : List ℕ
end_html_name = b'E' ∷ b'n' ∷ b'd' ∷ b'H' ∷ b'T' ∷ b'M' ∷ b'L' ∷ []

abbrev pub start_fragment_name : List ℕ
start_fragment_name =
    b'S' ∷ b't' ∷ b'a' ∷ b'r' ∷ b't' ∷ b'F' ∷ b'r' ∷ b'a' ∷ b'g' ∷ b'm' ∷ b'e' ∷ b'n' ∷ b't' ∷ []

abbrev pub end_fragment_name : List ℕ
end_fragment_name = b'E' ∷ b'n' ∷ b'd' ∷ b'F' ∷ b'r' ∷ b'a' ∷ b'g' ∷ b'm' ∷ b'e' ∷ b'n' ∷ b't' ∷ []

abbrev pub crlf : List ℕ
crlf = 13 ∷ 10 ∷ []

unfoldable pub is_cf_html : List ℕ → Bool
is_cf_html payload = starts_with payload version && contains payload (start_html_name ++ b':' ∷ [])

-- `payload[..header_end]`, up to the first '<'.
unfoldable pub before_lt : List ℕ → List ℕ
before_lt [] = []
before_lt (c ∷ cs) = let rest = before_lt cs in if c == b'<' then [] else c ∷ rest

unfoldable pub from_lt : List ℕ → List ℕ
from_lt [] = []
from_lt (c ∷ cs) = let rest = from_lt cs in if c == b'<' then c ∷ cs else rest

abbrev pub in_first_line : ℕ → List (List ℕ) → List (List ℕ)
in_first_line c [] = (c ∷ []) ∷ []
in_first_line c (line ∷ ls) = (c ∷ line) ∷ ls

-- `str::lines`: a line ends with "\n" or "\r\n", or with the text.
unfoldable pub lines : List ℕ → List (List ℕ)
lines [] = []
lines (c ∷ cs) =
    let rest = lines cs in
    if c == 13 && starts_with cs (10 ∷ [])
    then rest
    else if c == 10
    then [] ∷ rest
    else in_first_line c rest

-- `split_once(':')`
unfoldable pub split_colon : List ℕ → Option (List ℕ × List ℕ)
split_colon [] = none
split_colon (c ∷ cs) =
    let rest = split_colon cs in
    if c == b':'
    then some ([], cs)
    else elim rest [ none ↦ none | some (name, value) ↦ some (c ∷ name, value) ]

unfoldable pub value_of : ℕ → List ℕ → ℕ
value_of n [] = n
value_of n (d ∷ ds) = value_of (n * 10 + (d - 48)) ds

abbrev pub usize_mod : ℕ
usize_mod = 18446744073709551616

abbrev pub parse_usize : List ℕ → Option ℕ
parse_usize digits = if ltb (value_of 0 digits) usize_mod then some (value_of 0 digits) else none

unfoldable pub offset_of : List ℕ → Option ℕ
offset_of value =
    let digits = trim_matches is_whitespace value in
    if length digits == 0 || not (every is_digit digits) then none else parse_usize digits

unfoldable pub offset_in : List ℕ → List (List ℕ) → Option ℕ
offset_in key [] = none
offset_in key (line ∷ ls) =
    let rest = offset_in key ls in
    elim (split_colon line) [
      | none ↦ rest
      | some (name, value) ↦ if text_eq name key then offset_of value else rest
    ]

unfoldable pub cf_html_offset : (List ℕ → Option (List ℕ)) → List ℕ → List ℕ → Option ℕ
cf_html_offset from_utf8 payload key = elim (from_utf8 (before_lt payload)) [
  | none ↦ none
  | some header ↦ offset_in key (lines header)
]

abbrev pub or_else : Option ℕ → ℕ → ℕ
or_else none n = n
or_else (some m) n = m

unfoldable pub drop_first : ℕ → List ℕ → List ℕ
drop_first zero xs = xs
drop_first (suc n) [] = []
drop_first (suc n) (x ∷ xs) = drop_first n xs

unfoldable pub take_first : ℕ → List ℕ → List ℕ
take_first zero xs = []
take_first (suc n) [] = []
take_first (suc n) (x ∷ xs) = x ∷ take_first n xs

-- `payload.get(start..end)`
unfoldable pub get_range : List ℕ → ℕ → ℕ → Option (List ℕ)
get_range payload first last =
    if leb first last && leb last (length payload)
    then some (take_first (last - first) (drop_first first payload))
    else none

unfoldable pub html_document_from_cf_html : (List ℕ → Option (List ℕ)) → List ℕ → Option (List ℕ)
unfolding cf_html_offset get_range
html_document_from_cf_html from_utf8 payload =
    let first = or_else (cf_html_offset from_utf8 payload start_html_name) 0 in
    let last = or_else (cf_html_offset from_utf8 payload end_html_name) (length payload) in
    elim (get_range payload first last) [ none ↦ none | some document ↦ from_utf8 document ]
