-- ===== src/WinVActivation.antt =====
-- The datagram from the Win+V helper, src-tauri/src/win_v_activation.rs.
-- Bytes and the characters of a token are numbers, an `Instant` is a number of nanoseconds.
-- `duration_since` saturates, as it does since Rust 1.60. The source address is given by whether it
-- is a loopback address.
pub mod Tokens
pub mod Rate
use cubby_clipboard.Prelude.{
  ℕ, suc, ◌+◌, ◌-◌, ◌*◌, ◌/◌, ◌%◌, Bool, true, false, not, ◌&&◌, ◌||◌, List, [], ◌∷◌, ◌++◌, Option,
  none, some, length, get_elem?, ltb, leb, ◌==◌, if◌then◌else◌,
}
use Prim.Native.Nat.{bit_or, bit_xor}

abbrev pub token_byte_len : ℕ
token_byte_len = 16

abbrev pub token_hex_len : ℕ
token_hex_len = 32

-- "activate "
abbrev pub activate_prefix : List ℕ
activate_prefix = b'a' ∷ b'c' ∷ b't' ∷ b'i' ∷ b'v' ∷ b'a' ∷ b't' ∷ b'e' ∷ 32 ∷ []

abbrev pub rate_window : ℕ
rate_window = 1000000000

abbrev pub rate_max_accepts : ℕ
rate_max_accepts = 10

pub data ActivationDecision : Type 0 where
  accept reject_unauthenticated reject_origin reject_rate_limited : ActivationDecision

-- `stamps` of `ActivationRateLimit`, front first.
unfoldable pub drop_old : List ℕ → ℕ → List ℕ
drop_old [] now = []
drop_old (front ∷ stamps) now = elim (leb rate_window (now - front)) [
  | true ↦ drop_old stamps now
  | false ↦ front ∷ stamps
]

unfoldable pub allow : List ℕ → ℕ → Bool × List ℕ
allow stamps now =
    let kept = drop_old stamps now in
    if leb rate_max_accepts (length kept) then (false, kept) else (true, kept ++ now ∷ [])

abbrev pub is_hex : ℕ → Bool
is_hex b = leb b'0' b && leb b b'9' || leb b'a' b && leb b b'f'

pub all_hex : List ℕ → Bool
all_hex [] = true
all_hex (b ∷ bs) = is_hex b && all_hex bs

pub is_well_formed_token : List ℕ → Bool
unfolding all_hex
is_well_formed_token token = length token == token_hex_len && all_hex token

unfoldable pub encode_activate : List ℕ → Option (List ℕ)
unfolding is_well_formed_token
encode_activate token =
    if not (is_well_formed_token token) then none else some (activate_prefix ++ token)

-- The `u8` accumulator of `constant_time_eq`.
pub diff_bytes : List ℕ → List ℕ → ℕ → ℕ
diff_bytes [] right diff = diff
diff_bytes (a ∷ left) [] diff = diff
diff_bytes (a ∷ left) (b ∷ right) diff = diff_bytes left right (bit_or diff (bit_xor a b))

unfoldable pub constant_time_eq : List ℕ → List ℕ → Bool
unfolding diff_bytes
constant_time_eq left right =
    if not (length left == length right) then false else diff_bytes left right 0 == 0

unfoldable pub token_matches : List ℕ → List ℕ → Bool
token_matches payload token = elim (encode_activate token) [
  | none ↦ false
  | some expected ↦ constant_time_eq payload expected
]

-- `HEX[n]` of a nibble.
abbrev pub hex_digit : ℕ → ℕ
hex_digit n = if ltb n 10 then b'0' + n else b'a' + n - 10

unfoldable pub hex_encode : List ℕ → List ℕ
hex_encode [] = []
hex_encode (byte ∷ bytes) = hex_digit (byte / 16) ∷ hex_digit (byte % 16) ∷ hex_encode bytes

unfoldable pub decide_activation : List ℕ → Bool → List ℕ → List ℕ → ℕ → ActivationDecision × List ℕ
decide_activation payload is_loopback token stamps now =
    if not is_loopback
    then (reject_origin, stamps)
    else if not (token_matches payload token)
    then (reject_unauthenticated, stamps)
    else let (allowed, stamps') = allow stamps now in
      if not allowed then (reject_rate_limited, stamps') else (accept, stamps')
