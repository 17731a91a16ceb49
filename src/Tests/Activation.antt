-- ===== src/Tests/Activation.antt =====
-- Examples for the activation datagram, src-tauri/src/win_v_activation.rs.
use cubby_clipboard.Prelude.{ℕ, ◌≤◌, ◌<◌, ◌≡◌, ◌↔◌, true, List, [], ◌∷◌, ◌++◌, length, arith}
use cubby_clipboard.WinVActivation.{
  accept, activate_prefix, rate_max_accepts, drop_old, is_well_formed_token, hex_encode,
  decide_activation,
}
use cubby_clipboard.WinVActivation.Tokens.{decide_activation_iff, AreBytes}
use cubby_clipboard.WinVActivation.Rate.{limiter_after, count_recent, accepted_rate}

abbrev random : List ℕ
random = 1 ∷ 2 ∷ 3 ∷ 4 ∷ 5 ∷ 6 ∷ 7 ∷ 8 ∷ 9 ∷ 10 ∷ 11 ∷ 12 ∷ 13 ∷ 14 ∷ 15 ∷ 255 ∷ []

bytes_below : AreBytes random
bytes_below = (
  omega arith,
  (
    omega arith,
    (
      omega arith,
      (
        omega arith,
        (
          omega arith,
          (
            omega arith,
            (
              omega arith,
              (
                omega arith,
                (
                  omega arith,
                  (
                    omega arith,
                    (
                      omega arith,
                      (omega arith, (omega arith, (omega arith, (omega arith, (omega arith, tt))))),
                    ),
                  ),
                ),
              ),
            ),
          ),
        ),
      ),
    ),
  ),
)

decide_activation_iff_example :
    ((decide_activation
        (activate_prefix ++ hex_encode random)
        true
        (hex_encode random)
        (5 ∷ [])
        9).0
      ≡ accept)
    ↔ ((true ≡ true)
        × (is_well_formed_token (hex_encode random) ≡ true)
        × (activate_prefix ++ hex_encode random ≡ activate_prefix ++ hex_encode random)
        × (length (drop_old (5 ∷ []) 9) < rate_max_accepts))
decide_activation_iff_example =
    decide_activation_iff (activate_prefix ++ hex_encode random) true (hex_encode random) (5 ∷ []) 9

accepted_rate_example : count_recent 9 (limiter_after (8 ∷ 8 ∷ 3 ∷ [])).accepted ≤ rate_max_accepts
accepted_rate_example =
    accepted_rate 9 (8 ∷ 8 ∷ 3 ∷ []) (omega arith, (omega arith, (omega arith, tt)))
