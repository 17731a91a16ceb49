-- ===== src/Secrets/Shapes.antt =====
-- The shapes of single tokens that src-tauri/src/secrets.rs knows.
use cubby_clipboard.Prelude.{
  ℕ, Bool, false, not, ◌&&◌, ◌||◌, List, [], ◌∷◌, ◌++◌, ltb, leb, ◌==◌, if◌then◌else◌,
}
use cubby_clipboard.Secrets.Text.{contains, every, is_alphanumeric, starts_with, str_len}

abbrev pub is_token_separator : ℕ → Bool
is_token_separator b =
    b == 32
    || (b == 9
        || (b == 10
            || (b == 13
                || (b == 34
                    || (b == 39
                        || (b == 96
                            || (b == 44
                                || (b == 59
                                    || (b == 58
                                        || (b == 61
                                            || (b == 60
                                                || (b == 62
                                                    || (b == 91
                                                        || (b == 93
                                                            || (b == 123
                                                            || (b == 125
                                                            || (b == 40
                                                            || (b == 41
                                                            || (b == 124
                                                            || (b == 92
                                                            || b == 47))))))))))))))))))))

abbrev test_token : (List ℕ → Bool) → List ℕ → Bool
test_token predicate [] = false
test_token predicate (c ∷ cs) = predicate (c ∷ cs)

-- `token` is the text from `start` on, up to the character at hand.
token_loop : (List ℕ → Bool) → List ℕ → List ℕ → Bool
token_loop predicate token [] = test_token predicate token
token_loop predicate token (c ∷ cs) =
    let next = token_loop predicate [] cs in
    let longer = token_loop predicate (token ++ c ∷ []) cs in
    if is_token_separator c then test_token predicate token || next else longer

contains_token : List ℕ → (List ℕ → Bool) → Bool
unfolding token_loop
contains_token text predicate = token_loop predicate [] text

abbrev begin_mark : List ℕ
begin_mark = 45 ∷ 45 ∷ 45 ∷ 45 ∷ 45 ∷ b'B' ∷ b'E' ∷ b'G' ∷ b'I' ∷ b'N' ∷ []

abbrev key_mark : List ℕ
key_mark =
    b'P' ∷ b'R' ∷ b'I' ∷ b'V' ∷ b'A' ∷ b'T' ∷ b'E' ∷ 32 ∷ b'K' ∷ b'E' ∷ b'Y' ∷ 45 ∷ 45 ∷ 45 ∷ 45
    ∷ 45 ∷ []

abbrev openssh_mark : List ℕ
openssh_mark =
    b'O' ∷ b'P' ∷ b'E' ∷ b'N' ∷ b'S' ∷ b'S' ∷ b'H' ∷ 32 ∷ b'P' ∷ b'R' ∷ b'I' ∷ b'V' ∷ b'A' ∷ b'T'
    ∷ b'E' ∷ 32 ∷ b'K' ∷ b'E' ∷ b'Y' ∷ 45 ∷ 45 ∷ 45 ∷ 45 ∷ 45 ∷ []

abbrev akia : List ℕ
akia = b'A' ∷ b'K' ∷ b'I' ∷ b'A' ∷ []

abbrev ghp : List ℕ
ghp = b'g' ∷ b'h' ∷ b'p' ∷ b'_' ∷ []

abbrev gho : List ℕ
gho = b'g' ∷ b'h' ∷ b'o' ∷ b'_' ∷ []

abbrev ghu : List ℕ
ghu = b'g' ∷ b'h' ∷ b'u' ∷ b'_' ∷ []

abbrev ghs : List ℕ
ghs = b'g' ∷ b'h' ∷ b's' ∷ b'_' ∷ []

abbrev ghr : List ℕ
ghr = b'g' ∷ b'h' ∷ b'r' ∷ b'_' ∷ []

abbrev github_pat : List ℕ
github_pat = b'g' ∷ b'i' ∷ b't' ∷ b'h' ∷ b'u' ∷ b'b' ∷ b'_' ∷ b'p' ∷ b'a' ∷ b't' ∷ b'_' ∷ []

abbrev xoxb : List ℕ
xoxb = b'x' ∷ b'o' ∷ b'x' ∷ b'b' ∷ 45 ∷ []

abbrev xoxp : List ℕ
xoxp = b'x' ∷ b'o' ∷ b'x' ∷ b'p' ∷ 45 ∷ []

abbrev xoxa : List ℕ
xoxa = b'x' ∷ b'o' ∷ b'x' ∷ b'a' ∷ 45 ∷ []

abbrev xoxr : List ℕ
xoxr = b'x' ∷ b'o' ∷ b'x' ∷ b'r' ∷ 45 ∷ []

abbrev xoxs : List ℕ
xoxs = b'x' ∷ b'o' ∷ b'x' ∷ b's' ∷ 45 ∷ []

abbrev sk_live : List ℕ
sk_live = b's' ∷ b'k' ∷ b'_' ∷ b'l' ∷ b'i' ∷ b'v' ∷ b'e' ∷ b'_' ∷ []

abbrev sk_test : List ℕ
sk_test = b's' ∷ b'k' ∷ b'_' ∷ b't' ∷ b'e' ∷ b's' ∷ b't' ∷ b'_' ∷ []

abbrev aiza : List ℕ
aiza = b'A' ∷ b'I' ∷ b'z' ∷ b'a' ∷ []

abbrev pub eyj : List ℕ
eyj = b'e' ∷ b'y' ∷ b'J' ∷ []

pub looks_like_private_key : List ℕ → Bool
unfolding contains
looks_like_private_key text =
    contains text begin_mark && (contains text key_mark || contains text openssh_mark)

pub looks_like_aws_access_key : List ℕ → Bool
unfolding contains_token str_len starts_with every
looks_like_aws_access_key text = contains_token text (λ candidate.
    str_len candidate == 20 && (starts_with candidate akia && every is_alphanumeric candidate))

abbrev pub is_word : ℕ → Bool
is_word c = is_alphanumeric c || c == 95

pub looks_like_github_token : List ℕ → Bool
unfolding contains_token str_len starts_with every
looks_like_github_token text = contains_token text (λ candidate.
    ((starts_with candidate ghp
        || (starts_with candidate gho
            || (starts_with candidate ghu
                || (starts_with candidate ghs || starts_with candidate ghr))))
      && (str_len candidate == 40 && every is_word candidate))
    || (starts_with candidate github_pat
        && (leb 82 (str_len candidate) && every is_word candidate)))

-- The four bytes and the dash behind them are one prefix.
pub looks_like_slack_token : List ℕ → Bool
unfolding contains_token str_len starts_with every
looks_like_slack_token text = contains_token text (λ candidate.
    not (ltb (str_len candidate) 20)
    && ((starts_with candidate xoxb
          || (starts_with candidate xoxp
              || (starts_with candidate xoxa
                  || (starts_with candidate xoxr || starts_with candidate xoxs))))
        && every (λ c. is_alphanumeric c || c == 45) candidate))

pub looks_like_stripe_secret : List ℕ → Bool
unfolding contains_token str_len starts_with every
looks_like_stripe_secret text = contains_token text (λ candidate.
    (starts_with candidate sk_live || starts_with candidate sk_test)
    && (leb 20 (str_len candidate) && every is_word candidate))

pub looks_like_google_api_key : List ℕ → Bool
unfolding contains_token str_len starts_with every
looks_like_google_api_key text = contains_token text (λ candidate.
    starts_with candidate aiza
    && (str_len candidate == 39 && every (λ c. is_word c || c == 45) candidate))
