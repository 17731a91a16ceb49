-- ===== src/Retention/Overflow.antt =====
-- The cap on the number of clips, src-tauri/src/commands.rs.
use Prim.Native.String.{String}
use cubby_clipboard.Prelude.{
  ℕ, ◌≤◌, ◌<◌, ◌≡◌, refl, sym, ◌∙◌, inl, inr, Bool, true, false, not, ◌&&◌, List, [], ◌∷◌, some,
  ltb, leb, arith, Bool-cases, All,
}
use mathlib.Core.Path.{subst}
use text.Mathlib.TextEquality.{eq_iff}
use cubby_clipboard.ClipTable.{Clip, is_uuid, select, uuids_where, delete_where, count_where, is_in}
use cubby_clipboard.ClipTable.Rows.{IsUniqueId, select-satisfies}
use cubby_clipboard.Retention.{
  Policy, Outcome, Key, is_aged, is_live_unpinned, overflow, live_keys, is_preserved, is_swept,
  preserve, sweep, enforce_retention_in_pool,
}
use cubby_clipboard.Retention.Order.{
  NewestFirstLaws, count_keys, count_keys-live, count_keys-offset, offset-newer, is_stray,
  is_in_self,
}
use cubby_clipboard.Retention.Kept.{untouched, outcome-clips}

-- A clip that counts against the cap: live, not pinned, and with its original.
abbrev pub is_capped : Clip → Bool
is_capped c = is_live_unpinned c && not c.full_image_expired

uuids_where-hit :
    (test : Clip → Bool) (c : Clip) (cs : List Clip)
    → test c ≡ true
    → uuids_where test (c ∷ cs) ≡ c.columns.uuid ∷ uuids_where test cs
unfolding uuids_where
uuids_where-hit test c cs h = rw h refl

uuids_where-miss :
    (test : Clip → Bool) (c : Clip) (cs : List Clip)
    → test c ≡ false
    → uuids_where test (c ∷ cs) ≡ uuids_where test cs
unfolding uuids_where
uuids_where-miss test c cs h = rw h refl

module _ (p : Policy) (over chosen : List String) where
  abbrev IsChosen : String → Type 0
  IsChosen u = is_in chosen u ≡ true

  -- What is left of the capped clips lies within the cap.
  capped_left :
      (cs : List Clip)
      → ltb 0 p.max_items ≡ true
      → All IsChosen (uuids_where (is_swept p over) cs)
      → count_where is_capped (delete_where (λ c. is_in chosen c.columns.uuid) cs)
        ≤ count_where (λ c. is_live_unpinned c && not (is_in over c.columns.uuid)) cs
  unfolding count_where delete_where is_swept
  capped_left [] capped h = omega arith
  capped_left (c ∷ cs) capped h = elim (Bool-cases (is_swept p over c)) [
    | inl e ↦
        let all = subst (All IsChosen) (uuids_where-hit (is_swept p over) c cs e) h in
        ground (arith, e, capped, all.0, capped_left cs capped all.1)
    | inr e ↦
        let all = subst (All IsChosen) (uuids_where-miss (is_swept p over) c cs e) h in
        ground (arith, e, capped, capped_left cs capped all)
  ]

module _ (u : String) (t : ℕ) where
  strays-absent :
      (cs : List Clip)
      → count_where (is_uuid u) cs ≡ 0
      → count_keys (is_stray t u) (live_keys cs) ≡ 0
  unfolding count_keys live_keys count_where
  strays-absent [] gone = refl
  strays-absent (c ∷ cs) gone = ground (arith, gone, strays-absent cs (ground (arith, gone)))

  -- The one row of an identifier has one time.
  strays-none :
      (cs : List Clip) (c : Clip)
      → IsUniqueId u cs
      → select (is_uuid u) cs ≡ some c
      → c.columns.created_at ≡ t
      → count_keys (is_stray t u) (live_keys cs) ≡ 0
  unfolding count_keys live_keys count_where select
  strays-none [] c one e time = cc
  strays-none (d ∷ ds) c one e time = elim (Bool-cases (is_uuid u d)) [
    | inl h ↦ ground (arith, h, strays-absent ds (ground (arith, h)))
    | inr h ↦ ground (arith, h, strays-none ds c (ground (arith, h)) (ground (arith, h)) time)
  ]

module _ (p : Policy) (laws : NewestFirstLaws p.newest_first) where
  sweep-le :
      (cs : List Clip) → ltb 0 p.max_items ≡ true → count_where is_capped (sweep p cs) ≤ p.max_items
  unfolding sweep overflow
  sweep-le cs capped =
      let over = overflow p cs in
      let chosen = uuids_where (is_swept p over) cs in
      let kept : Key → Bool = λ k. not (is_in over k.0) in
      omega (
        arith,
        capped_left p over chosen cs capped (is_in_self chosen),
        count_keys-live kept cs,
        laws.same_keys kept (live_keys cs),
        count_keys-offset p.max_items (p.newest_first (live_keys cs)),
      )

  -- With a cap, at most that many live clips that are not pinned and still have their original, or
  -- never had one, are left, whatever the order of clips of the same second.
  pub retention-IsCapped :
      (fails : Bool) (cs : List Clip) (out : Outcome)
      → 0 < p.max_items
      → enforce_retention_in_pool p fails cs ≡ some out
      → count_where is_capped out.clips ≤ p.max_items
  retention-IsCapped fails cs out capped done =
      subst (λ l. count_where is_capped l ≤ p.max_items) (sym (outcome-clips p fails cs out done))
        (sweep-le (preserve p cs) (ground (arith, capped)))

  -- How many live clips that are not pinned are as new as this one, itself among them.
  abbrev pub newer_count : Clip → List Clip → ℕ
  newer_count c cs =
      count_where (λ d. is_live_unpinned d && leb c.columns.created_at d.columns.created_at) cs

  in_cap :
      (u : String) (cs : List Clip) (c : Clip)
      → IsUniqueId u cs
      → select (is_uuid u) cs ≡ some c
      → newer_count c cs ≤ p.max_items
      → is_in (overflow p cs) u ≡ false
  unfolding overflow
  in_cap u cs c one e fits = elim (Bool-cases (is_in (overflow p cs) u)) [
    | inr h ↦ h
    | inl h ↦
        let t = c.columns.created_at in
        let keys = live_keys cs in
        let newer : Key → Bool = λ k. leb t k.1 in
        absurd (
          omega (
            arith,
            fits,
            laws.same_keys newer keys,
            count_keys-live newer cs,
            offset-newer t u p.max_items (p.newest_first keys) (laws.descending keys)
                (laws.same_keys (is_stray t u) keys ∙ strays-none u t cs c one e refl) h,
          ))
  ]

  -- A live clip stays as it was if it is not beyond the days and at most `max_items` live unpinned
  -- clips, itself among them, are as new as it is: the cap takes the oldest.
  pub newest_stays :
      (fails : Bool) (u : String) (cs : List Clip) (c : Clip) (out : Outcome)
      → IsUniqueId u cs
      → select (is_uuid u) cs ≡ some c
      → c.columns.is_deleted ≡ false
      → is_aged p c.last_accessed ≡ false
      → is_aged p c.columns.created_at ≡ false
      → newer_count c cs ≤ p.max_items
      → enforce_retention_in_pool p fails cs ≡ some out
      → select (is_uuid u) out.clips ≡ some c
  unfolding is_preserved is_swept
  newest_stays fails u cs c out one e live used made fits done =
      let inside = in_cap u cs c one e fits in
      let same = select-satisfies (is_uuid u) cs c e in
      let here : is_in (overflow p cs) c.columns.uuid ≡ false =
        ground (arith, inside, same, eq_iff c.columns.uuid u) in
      untouched p fails u cs c out one e (ground (arith, live, used, made, here))
        (ground (arith, live, used, made, here)) done
