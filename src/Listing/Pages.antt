-- ===== src/Listing/Pages.antt =====
-- What a page of src-tauri/src/commands.rs holds.
use Prim.Native.String.{String}
use mathlib.Core.Path.{ap₂}
use text.Mathlib.Text.{◌==◌ as str_eq}
use text.Mathlib.TextEquality.{eq_iff}
use cubby_clipboard.Prelude.{
  ◌&&◌, ℕ, zero, suc, ◌+◌, ◌-◌, ◌≤◌, ◌<◌, min, ◌≡◌, refl, sym, ap, ◌∙◌, inl, inr, Bool, true, false,
  not, List, [], ◌∷◌, ◌++◌, Option, some, length, length-append, ltb, leb, ◌==◌, arith, Bool-cases,
  Option-cases,
}
use mathlib.Core.List.{append_assoc, append-nil}
use cubby_clipboard.SnapshotQueue.{saturating_add}
use cubby_clipboard.Listing.Slices.{
  drop-beyond, drop-drop, filter_map-append, length-drop, take-all, take-prefix, take-drop,
}
use cubby_clipboard.Listing.{
  fill, collect_loop, collect_readable_clips, take, drop, slice, filter_map, batch_of,
  collect_readable_clips_by_id, position, source_start_for_ids,
}

module _ {A B : Type 0} (decrypt : A → Option B) (limit : ℕ) where
  -- A batch fills the page up to the limit.
  fill-page :
      (page : List B) (rows : List A)
      → length page < limit
      → ((fill decrypt limit page rows).page ≡ take limit (page ++ filter_map decrypt rows))
        × ((fill decrypt limit page rows).is_full
            ≡ leb limit (length (page ++ filter_map decrypt rows)))
  unfolding fill filter_map
  fill-page page [] room = (
    rw (append-nil page) (sym (take-all limit page (omega (arith, room)))),
    rw (append-nil page) (ground (arith, room)),
  )
  fill-page page (row ∷ rows) room = elim (Option-cases (decrypt row)) [
    | inl h ↦ ground (arith, h, fill-page page rows room)
    | inr (clip, h) ↦
        let longer = page ++ clip ∷ [] in
        let rest = filter_map decrypt rows in
        let joined : longer ++ rest ≡ page ++ clip ∷ rest = append_assoc page (clip ∷ []) rest in
        let size = length-append page (clip ∷ []) in
        let total = length-append longer rest in
        elim (Bool-cases (length longer == limit)) [
          | inl e ↦
              let kept =
                take-prefix limit longer rest (ground (arith, e))
                ∙ take-all limit longer (ground (arith, e)) in
              ground (arith, h, e, kept, ap (take limit) joined, ap length joined, total)
          | inr e ↦ ground (
            arith,
            h,
            e,
            fill-page longer rows (ground (arith, e, size, room)),
            ap (take limit) joined,
            ap length joined,
          )
        ]
  ]

-- Before the end of the list the sum of the indices is not cut.
saturating_add_below :
    (start count size : ℕ)
    → size < 18446744073709551616
    → leb size (min (saturating_add start count) size) ≡ false
    → (saturating_add start count ≡ start + count) × (start + count < size)
unfolding saturating_add
saturating_add_below start count size small more = ground (arith, small, more)

slice-take :
    {A : Type 0} (ids : List A) (start count : ℕ)
    → start + count ≤ length ids
    → slice ids start (start + count) ≡ take count (drop start ids)
unfolding slice
slice-take ids start count fits =
    let width : (start + count) - start ≡ count = omega arith in
    ground (arith, fits, ap (λ n. take n (drop start ids)) width)

-- A batch before the end, and what is left after it.
batch_rest :
    {A : Type 0} (ids : List A) (start count : ℕ)
    → start + count < length ids
    → slice ids start (min (start + count) (length ids)) ++ drop (start + count) ids
      ≡ drop start ids
batch_rest ids start count fits =
    let end : min (start + count) (length ids) ≡ start + count = omega (arith, fits) in
    ap (λ n. slice ids start n ++ drop (start + count) ids) end
    ∙ (ap (λ l. l ++ drop (start + count) ids) (slice-take ids start count (omega (arith, fits)))
        ∙ (ap (λ l. take count (drop start ids) ++ l) (sym (drop-drop count start ids))
            ∙ take-drop count (drop start ids)))

-- The last batch is all that is left.
batch_last : {A : Type 0} (ids : List A) (start : ℕ) → slice ids start (length ids) ≡ drop start ids
unfolding slice
batch_last ids start =
    let whole =
      take-all (length ids - start) (drop start ids) (omega (arith, length-drop start ids)) in
    elim (Bool-cases (ltb (length ids) start)) [
      | inl h ↦ ground (arith, h, drop-beyond start ids (ground (arith, h)))
      | inr h ↦ ground (arith, h, whole)
    ]

module _ {A B : Type 0} (row : String → Option A) (decrypt : A → Option B) where
  -- The readable clips of these identifiers.
  abbrev pub visible : List String → List B
  visible us = filter_map decrypt (filter_map row us)

  visible-append : (us vs : List String) → visible (us ++ vs) ≡ visible us ++ visible vs
  visible-append us vs =
      ap (filter_map decrypt) (filter_map-append row us vs)
      ∙ filter_map-append decrypt (filter_map row us) (filter_map row vs)

module _ {A B : Type 0} (row : String → Option A) (decrypt : A → Option B) (limit : ℕ)
    (ids : List String) where
  loop-page :
      (fuel scanned : ℕ) (page : List B)
      → length ids < 18446744073709551616
      → length page < limit
      → length ids - scanned < fuel
      → collect_loop decrypt limit (batch_of row decrypt ids) fuel scanned page
        ≡ some (take limit (page ++ visible row decrypt (drop scanned ids)))
  unfolding collect_loop
  loop-page zero scanned page small room enough = absurd (omega (arith, enough))
  loop-page (suc fuel) scanned page small room enough =
      let end = min (saturating_add scanned limit) (length ids) in
      let rows = filter_map row (slice ids scanned end) in
      let (filled, full) = fill-page decrypt limit page rows room in
      elim (Bool-cases (leb (length ids) end)) [
        | inl last ↦
            let at_end : end ≡ length ids = ground (arith, last) in
            let same = ap (slice ids scanned) at_end ∙ batch_last ids scanned in
            ground
              (arith, last, filled, ap (λ us. take limit (page ++ visible row decrypt us)) same)
        | inr more ↦
            let (plain, below) = saturating_add_below scanned limit (length ids) small more in
            let rest = drop (scanned + limit) ids in
            let all =
              sym (
                visible-append row decrypt (slice ids scanned (min (scanned + limit) (length ids)))
                  rest)
              ∙ ap (visible row decrypt) (batch_rest ids scanned limit below) in
            let chunk = visible row decrypt (slice ids scanned end) in
            let chunk_same =
              ap (λ n. visible row decrypt (slice ids scanned (min n (length ids)))) plain in
            let spread : page ++ visible row decrypt (drop scanned ids)
                ≡ (page ++ chunk) ++ visible row decrypt rest =
              ap (λ l. page ++ l) (sym (ap (λ l. l ++ visible row decrypt rest) chunk_same ∙ all))
              ∙ sym (append_assoc page chunk (visible row decrypt rest)) in
            elim (Bool-cases (leb limit (length (page ++ chunk)))) [
              | inl e ↦
                  let cut =
                    take-prefix limit (page ++ chunk) (visible row decrypt rest)
                      (ground (arith, e)) in
                  ground (arith, more, filled, full, e, cut, ap (take limit) spread)
              | inr e ↦
                  let whole = take-all limit (page ++ chunk) (ground (arith, e)) in
                  let next =
                    loop-page fuel (scanned + limit) (page ++ chunk) small (ground (arith, e))
                      (omega (arith, enough, below, room)) in
                  let longer = filled ∙ whole in
                  let again =
                    ap₂ (collect_loop decrypt limit (batch_of row decrypt ids) fuel) plain longer in
                  ground (arith, more, full, e, again, next, ap (take limit) spread)
            ]
      ]

  -- A page holds the next readable clips, as many as the limit or all that are left, whatever is
  -- unreadable or gone in between.
  pub collect_readable_clips_by_id-page :
      (source_start : ℕ)
      → length ids < 18446744073709551616
      → collect_readable_clips_by_id row decrypt ids source_start limit
        ≡ some (take limit (visible row decrypt (drop source_start ids)))
  unfolding collect_readable_clips_by_id collect_readable_clips take
  collect_readable_clips_by_id-page source_start small = elim (Bool-cases (limit == 0)) [
    | inl e ↦
        let none_taken : limit ≡ 0 = ground (arith, e) in
        ground (arith, e, ap (λ n. take n (visible row decrypt (drop source_start ids))) none_taken)
    | inr e ↦ ground (
      arith,
      e,
      loop-page (suc (length ids)) source_start [] small (ground (arith, e)) (omega arith),
    )
  ]

-- The cursor stands nowhere in this list.
abbrev pub is_absent : String → List String → Bool
is_absent id [] = true
is_absent id (u ∷ us) = not (str_eq u id) && is_absent id us

position-append :
    (id : String) (us vs : List String)
    → is_absent id us ≡ true
    → position (us ++ id ∷ vs) id ≡ some (length us)
unfolding position
position-append id [] vs h = ground (arith, eq_iff id id)
position-append id (u ∷ us) vs h = ground (arith, h, position-append id us vs (ground (arith, h)))

drop-append : {A : Type 0} (us vs : List A) (v : A) → drop (suc (length us)) (us ++ v ∷ vs) ≡ vs
unfolding drop
drop-append [] vs v = refl
drop-append (u ∷ us) vs v = drop-append us vs v

start_after :
    (id : String) (us vs : List String) (offset : ℕ)
    → is_absent id us ≡ true
    → length (us ++ id ∷ vs) < 18446744073709551616
    → source_start_for_ids (us ++ id ∷ vs) (some id) offset ≡ suc (length us)
unfolding source_start_for_ids saturating_add
start_after id us vs offset h small =
    ground (arith, position-append id us vs h, small, length-append us (id ∷ vs))

-- The page after a cursor holds the next readable clips behind the cursor's row, whether or not rows
-- before it are readable: no page repeats or leaves out a row that the one before it ended at.
pub page_after_cursor :
    {A B : Type 0} (row : String → Option A) (decrypt : A → Option B) (limit offset : ℕ)
    (id : String) (us vs : List String)
    → is_absent id us ≡ true
    → length (us ++ id ∷ vs) < 18446744073709551616
    → collect_readable_clips_by_id row decrypt
        (us ++ id ∷ vs)
        (source_start_for_ids (us ++ id ∷ vs) (some id) offset)
        limit
      ≡ some (take limit (visible row decrypt vs))
page_after_cursor row decrypt limit offset id us vs h small =
    let ids = us ++ id ∷ vs in
    ap (λ n. collect_readable_clips_by_id row decrypt ids n limit)
      (start_after id us vs offset h small)
    ∙ (collect_readable_clips_by_id-page row decrypt limit ids (suc (length us)) small
        ∙ ap (λ l. some (take limit (visible row decrypt l))) (drop-append us vs id))
