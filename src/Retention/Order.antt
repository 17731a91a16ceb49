-- ===== src/Retention/Order.antt =====
-- The order of the overflow subquery of src-tauri/src/commands.rs, and what lies beyond its offset.
use Prim.Native.String.{String}
use text.Mathlib.Text.{◌==◌ as str_eq}
use text.Mathlib.TextEquality.{eq_iff}
use cubby_clipboard.Prelude.{
  ℕ, zero, suc, ◌+◌, ◌≤◌, ◌<◌, ◌≡◌, refl, inl, inr, Bool, true, not, ◌&&◌, List, [], ◌∷◌, leb, ◌==◌,
  arith, if◌then◌else◌, Bool-cases, All,
}
use cubby_clipboard.ClipTable.{Clip, is_in, count_where}
use cubby_clipboard.Retention.{Key, offset, live_keys, is_live_unpinned, key_of}

unfoldable pub count_keys : (Key → Bool) → List Key → ℕ
count_keys test [] = 0
count_keys test (k ∷ ks) = (if test k then 1 else 0) + count_keys test ks

abbrev pub IsDescending : List Key → Type 0
IsDescending [] = Unit
IsDescending (k ∷ ks) = All (λ j. j.1 ≤ k.1) ks × IsDescending ks

-- Documented of ORDER BY created_at DESC: the same rows, none before one that is newer.
pub record NewestFirstLaws (sort : List Key → List Key) : Type 0 where
  pub same_keys :
      (test : Key → Bool) (ks : List Key) → count_keys test (sort ks) ≡ count_keys test ks
  pub descending : (ks : List Key) → IsDescending (sort ks)

is_in-weaken :
    (v : String) (vs us : List String)
    → All (λ u. is_in vs u ≡ true) us
    → All (λ u. is_in (v ∷ vs) u ≡ true) us
unfolding is_in
is_in-weaken v vs [] h = tt
is_in-weaken v vs (u ∷ us) h = (ground (arith, h.0), is_in-weaken v vs us h.1)

pub is_in_self : (us : List String) → All (λ u. is_in us u ≡ true) us
unfolding is_in
is_in_self [] = tt
is_in_self (u ∷ us) = (ground (arith, eq_iff u u), is_in-weaken u us us (is_in_self us))

count_within :
    (n : ℕ) (ks : List Key) (vs : List String)
    → All (λ u. is_in vs u ≡ true) (offset n ks)
    → count_keys (λ k. not (is_in vs k.0)) ks ≤ n
unfolding offset count_keys
count_within n [] vs h = omega arith
count_within zero (k ∷ ks) vs h = ground (arith, h.0, count_within zero ks vs h.1)
count_within (suc n) (k ∷ ks) vs h = ground (arith, count_within n ks vs h)

-- At most `n` keys do not lie beyond the offset `n`.
pub count_keys-offset :
    (n : ℕ) (ks : List Key) → count_keys (λ k. not (is_in (offset n ks) k.0)) ks ≤ n
count_keys-offset n ks = count_within n ks (offset n ks) (is_in_self (offset n ks))

module _ (t : ℕ) where
  below :
      (b : ℕ) (ks : List Key) → All (λ j. j.1 ≤ b) ks → 0 < count_keys (λ k. leb t k.1) ks → t ≤ b
  unfolding count_keys
  below b [] h pos = absurd (omega (arith, pos))
  below b (k ∷ ks) h pos = elim (Bool-cases (leb t k.1)) [
    | inl e ↦ ground (arith, e, h.0)
    | inr e ↦ below b ks h.1 (ground (arith, e, pos))
  ]

  module _ (u : String) where
    -- A key of `u` that has another time.
    abbrev pub is_stray : Key → Bool
    is_stray k = str_eq k.0 u && not (k.1 == t)

    at_or_after :
        (ks : List Key)
        → count_keys is_stray ks ≡ 0
        → is_in (offset 0 ks) u ≡ true
        → 0 < count_keys (λ k. leb t k.1) ks
    unfolding count_keys offset is_in
    at_or_after [] stray h = cc
    at_or_after (k ∷ ks) stray h = elim (Bool-cases (str_eq k.0 u)) [
      | inl e ↦ ground (arith, e)
      | inr e ↦ ground (
        arith,
        e,
        eq_iff k.0 u,
        eq_iff u k.0,
        at_or_after ks (ground (arith, e)) (ground (arith, e, eq_iff k.0 u, eq_iff u k.0)),
      )
    ]

    -- Beyond the offset `n` of an order by time stand only keys that `n` others are as new as.
    pub offset-newer :
        (n : ℕ) (ks : List Key)
        → IsDescending ks
        → count_keys is_stray ks ≡ 0
        → is_in (offset n ks) u ≡ true
        → n < count_keys (λ k. leb t k.1) ks
    unfolding offset count_keys is_in
    offset-newer n [] desc stray h = cc
    offset-newer zero (k ∷ ks) desc stray h = at_or_after (k ∷ ks) stray h
    offset-newer (suc n) (k ∷ ks) desc stray h =
        let more = offset-newer n ks desc.1 (ground (arith, stray)) h in
        ground (arith, more, below k.1 ks desc.0 (omega (arith, more)))

-- Counting the keys of the live rows is counting those rows.
pub count_keys-live :
    (test : Key → Bool) (cs : List Clip)
    → count_keys test (live_keys cs) ≡ count_where (λ c. is_live_unpinned c && test (key_of c)) cs
unfolding count_keys live_keys count_where
count_keys-live test [] = refl
count_keys-live test (c ∷ cs) = ground (arith, count_keys-live test cs)
