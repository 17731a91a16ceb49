-- ===== src/WinVActivation/Tokens.antt =====
-- What makes an activation of src-tauri/src/win_v_activation.rs authentic.
use Prim.Native.Nat.{bit_or, bit_xor, bit_or-bitwise, bit_xor-bitwise, digits, differ, max}
use cubby_clipboard.Prelude.{
  ℕ, zero, suc, ◌+◌, ◌/◌, ◌%◌, ◌≤◌, ◌<◌, ◌≡◌, refl, ◌∙◌, sym, ◌↔◌, Bool, true, List, [], ◌∷◌, ◌++◌,
  some, arith, length, All,
}
use cubby_clipboard.WinVActivation.{
  accept, activate_prefix, token_byte_len, rate_max_accepts, drop_old, allow, is_hex, all_hex,
  is_well_formed_token, encode_activate, diff_bytes, constant_time_eq, token_matches, hex_digit,
  hex_encode, decide_activation,
}

or_digits_zero : (n a b : ℕ) → a ≤ n → digits (λ b. b) max n a b ≡ 0 → (a ≡ 0) × (b ≡ 0)
or_digits_zero zero zero b h e = (refl, e)
or_digits_zero zero (suc a) b h e = absurd (omega arith)
or_digits_zero (suc n) zero b h e = (refl, e)
or_digits_zero (suc n) (suc a) b h e =
    omega (arith, or_digits_zero n (suc a / 2) (b / 2) (omega arith) (omega arith))

bit_or_zero : (a b : ℕ) → bit_or a b ≡ 0 → (a ≡ 0) × (b ≡ 0)
bit_or_zero a b e = or_digits_zero a a b (omega arith) (sym (bit_or-bitwise a b) ∙ e)

differ_zero : (a b : ℕ) → differ a b ≡ 0 → a < 2 → b < 2 → a ≡ b
differ_zero zero b e h k = ground arith
differ_zero (suc a) zero e h k = ground arith
differ_zero (suc a) (suc b) e h k = ground arith

differ_self : (a : ℕ) → differ a a ≡ 0
differ_self zero = refl
differ_self (suc a) = differ_self a

xor_digits_zero : (n a b : ℕ) → a ≤ n → digits (λ b. b) differ n a b ≡ 0 → a ≡ b
xor_digits_zero zero zero b h e = sym e
xor_digits_zero zero (suc a) b h e = absurd (omega arith)
xor_digits_zero (suc n) zero b h e = sym e
xor_digits_zero (suc n) (suc a) b h e = omega (
  arith,
  xor_digits_zero n (suc a / 2) (b / 2) (omega arith) (omega arith),
  differ_zero (suc a % 2) (b % 2) (omega arith) (omega arith) (omega arith),
)

bit_xor_zero : (a b : ℕ) → bit_xor a b ≡ 0 → a ≡ b
bit_xor_zero a b e = xor_digits_zero a a b (omega arith) (sym (bit_xor-bitwise a b) ∙ e)

diff_bytes_zero :
    (xs ys : List ℕ) (diff : ℕ)
    → length xs ≡ length ys
    → diff_bytes xs ys diff ≡ 0
    → (diff ≡ 0) × (xs ≡ ys)
unfolding diff_bytes
diff_bytes_zero [] [] diff l e = (e, refl)
diff_bytes_zero [] (y ∷ ys) diff l e = absurd (omega arith)
diff_bytes_zero (x ∷ xs) [] diff l e = absurd (omega arith)
diff_bytes_zero (x ∷ xs) (y ∷ ys) diff l e =
    let (d, same) = diff_bytes_zero xs ys (bit_or diff (bit_xor x y)) (omega arith) e in
    let (d', x') = bit_or_zero diff (bit_xor x y) d in (d', cc (bit_xor_zero x y x', same))

xor_digits_self : (n a : ℕ) → a ≤ n → digits (λ b. b) differ n a a ≡ 0
xor_digits_self zero zero h = refl
xor_digits_self zero (suc a) h = absurd (omega arith)
xor_digits_self (suc n) zero h = refl
xor_digits_self (suc n) (suc a) h =
    omega (arith, xor_digits_self n (suc a / 2) (omega arith), differ_self (suc a % 2))

diff_bytes_self : (xs : List ℕ) → diff_bytes xs xs 0 ≡ 0
unfolding diff_bytes
diff_bytes_self [] = refl
diff_bytes_self (x ∷ xs) =
    let same : bit_xor x x ≡ 0 = bit_xor-bitwise x x ∙ xor_digits_self x x (omega arith) in
    rw (same, bit_or-bitwise 0 0) (diff_bytes_self xs)

-- The comparison that folds all differences decides equality.
pub constant_time_eq_iff : (xs ys : List ℕ) → (constant_time_eq xs ys ≡ true) ↔ (xs ≡ ys)
unfolding constant_time_eq
constant_time_eq_iff xs ys = (
  λ e. (diff_bytes_zero xs ys 0 (ground arith) (ground arith)).1,
  λ e. rw e (ground (arith, diff_bytes_self ys)),
)

token_matches_iff :
    (payload token : List ℕ)
    → (token_matches payload token ≡ true)
      ↔ ((is_well_formed_token token ≡ true) × (payload ≡ activate_prefix ++ token))
unfolding token_matches encode_activate
token_matches_iff payload token =
    let same = constant_time_eq_iff payload (activate_prefix ++ token) in
    (λ e. (ground (arith, same), ground (arith, same)), λ (w, e). ground (arith, same))

-- A packet is accepted exactly if it comes from a loopback address, the token is well formed, the
-- payload is the prefix and the token with nothing behind, and fewer than `rate_max_accepts`
-- stamps are left once the old ones are dropped.
pub decide_activation_iff :
    (payload : List ℕ) (is_loopback : Bool) (token stamps : List ℕ) (now : ℕ)
    → ((decide_activation payload is_loopback token stamps now).0 ≡ accept) ↔ (
        (is_loopback ≡ true)
        × (is_well_formed_token token ≡ true)
        × (payload ≡ activate_prefix ++ token)
        × (length (drop_old stamps now) < rate_max_accepts))
unfolding decide_activation allow
decide_activation_iff payload is_loopback token stamps now =
    let (to, from) = token_matches_iff payload token in
    (
      λ e.
          let m : token_matches payload token ≡ true = ground arith in
          (ground arith, (to m).0, (to m).1, ground arith),
      λ (l, w, p, r). ground (arith, from (w, p)),
    )

hex_digit-is_hex : (n : ℕ) → n < 16 → is_hex (hex_digit n) ≡ true
hex_digit-is_hex n h = ground arith

abbrev pub AreBytes : List ℕ → Type 0
AreBytes = All (λ b. b < 256)

hex_encode-all_hex : (bytes : List ℕ) → AreBytes bytes → all_hex (hex_encode bytes) ≡ true
unfolding hex_encode all_hex
hex_encode-all_hex [] h = refl
hex_encode-all_hex (b ∷ bytes) h = ground (
  arith,
  hex_digit-is_hex (b / 16) (omega arith),
  hex_digit-is_hex (b % 16) (omega arith),
  hex_encode-all_hex bytes h.1,
)

length-hex_encode : (bytes : List ℕ) → length (hex_encode bytes) ≡ length bytes + length bytes
unfolding hex_encode
length-hex_encode [] = refl
length-hex_encode (b ∷ bytes) = omega (arith, length-hex_encode bytes)

hex_digit-injective : (m n : ℕ) → m < 16 → n < 16 → hex_digit m ≡ hex_digit n → m ≡ n
hex_digit-injective m n h k e = ground arith

-- Different random bytes give different tokens.
pub hex_encode-injective :
    (xs ys : List ℕ) → AreBytes xs → AreBytes ys → hex_encode xs ≡ hex_encode ys → xs ≡ ys
unfolding hex_encode
hex_encode-injective [] [] h k e = refl
hex_encode-injective [] (y ∷ ys) h k e = cc
hex_encode-injective (x ∷ xs) [] h k e = cc
hex_encode-injective (x ∷ xs) (y ∷ ys) h k e =
    let hi = hex_digit-injective (x / 16) (y / 16) (omega arith) (omega arith) (ground arith) in
    let lo = hex_digit-injective (x % 16) (y % 16) (omega arith) (omega arith) (ground arith) in
    let same : x ≡ y = omega (arith, hi, lo) in
    cc (same, hex_encode-injective xs ys h.1 k.1 (ground arith))

-- A token that is generated from sixteen random bytes is well formed, so the helper can encode it,
-- and the payload that it encodes is accepted from a loopback address while the rate allows it.
pub generated_token_accepted :
    (bytes stamps : List ℕ) (now : ℕ)
    → AreBytes bytes
    → length bytes ≡ token_byte_len
    → length (drop_old stamps now) < rate_max_accepts
    → (encode_activate (hex_encode bytes) ≡ some (activate_prefix ++ hex_encode bytes))
      × ((decide_activation
            (activate_prefix ++ hex_encode bytes)
            true
            (hex_encode bytes)
            stamps
            now).0
          ≡ accept)
unfolding encode_activate
generated_token_accepted bytes stamps now h l r =
    let hex = hex_encode-all_hex bytes h in
    let len = length-hex_encode bytes in
    let w : is_well_formed_token (hex_encode bytes) ≡ true =
      unfold is_well_formed_token in ground (arith, hex, len) in
    (
      ground (arith, hex, len),
      (decide_activation_iff _ true (hex_encode bytes) stamps now).1 (refl, w, refl, r),
    )
