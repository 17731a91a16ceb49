-- ===== src/Listing.antt =====
-- The pages of a listing, `collect_readable_clips` and `collect_readable_clips_by_id` of
-- src-tauri/src/commands.rs. A row is what `fetch_clips_by_id` finds for an identifier, if it is still
-- there, and `decrypt` what is readable of it; the query orders the rows of a batch as the caller
-- ordered the identifiers. A query that fails ends the page with an error.
pub mod Slices
pub mod Pages
use Prim.Native.String.{String}
use package.text.Mathlib.Text.{◌==◌ as str_eq}
use cubby_clipboard.Prelude.{
  ℕ, zero, suc, ◌+◌, ◌-◌, min, Bool, true, false, not, ◌||◌, List, [], ◌∷◌, ◌++◌, Option, none,
  some, length, ltb, leb, ◌==◌, if◌then◌else◌,
}
use cubby_clipboard.SnapshotQueue.{saturating_add}

pub record ClipBatch (A : Type 0) : Type 0 where
  pub rows : List A
  pub exhausted : Bool

-- What the loop over a batch leaves: the page, and whether it is full.
pub record Filled (B : Type 0) : Type 0 where
  pub page : List B
  pub is_full : Bool

module _ {A B : Type 0} (decrypt : A → Option B) (limit : ℕ) where
  unfoldable pub fill : List B → List A → Filled B
  fill page [] = record { page = page; is_full = false }
  fill page (row ∷ rows) = elim (decrypt row) [
    | none ↦ fill page rows
    | some clip ↦
        let longer = page ++ clip ∷ [] in
        let rest = fill longer rows in
        if length longer == limit then record { page = longer; is_full = true } else rest
  ]

  -- `none` is an error of a query, or the end of the fuel.
  unfoldable pub collect_loop : (ℕ → ℕ → Option (ClipBatch A)) → ℕ → ℕ → List B → Option (List B)
  unfolding fill
  collect_loop fetch_batch zero scanned page = none
  collect_loop fetch_batch (suc fuel) scanned page = elim (fetch_batch scanned limit) [
    | none ↦ none
    | some batch ↦
        let filled = fill page batch.rows in
        let rest = collect_loop fetch_batch fuel (saturating_add scanned limit) filled.page in
        if filled.is_full || batch.exhausted then some filled.page else rest
  ]

  unfoldable pub collect_readable_clips : (ℕ → ℕ → Option (ClipBatch A)) → ℕ → ℕ → Option (List B)
  unfolding collect_loop
  collect_readable_clips fetch_batch fuel source_start =
      if limit == 0 then some [] else collect_loop fetch_batch fuel source_start []

module _ {A : Type 0} where
  unfoldable pub take : ℕ → List A → List A
  take zero xs = []
  take (suc n) [] = []
  take (suc n) (x ∷ xs) = x ∷ take n xs

  unfoldable pub drop : ℕ → List A → List A
  drop zero xs = xs
  drop (suc n) [] = []
  drop (suc n) (x ∷ xs) = drop n xs

  -- `get(start..end).unwrap_or_default()`
  unfoldable pub slice : List A → ℕ → ℕ → List A
  unfolding take drop
  slice xs start end =
      if ltb end start || ltb (length xs) end then [] else take (end - start) (drop start xs)

-- `position`
unfoldable pub position : List String → String → Option ℕ
position [] id = none
position (candidate ∷ ids) id =
    let rest = position ids id in
    if str_eq candidate id then some 0 else elim rest [ none ↦ none | some n ↦ some (suc n) ]

-- The cursor is the one that `listing_cursor_id` leaves: trimmed, and none if it was empty.
unfoldable pub source_start_for_ids : List String → Option String → ℕ → ℕ
unfolding position saturating_add
source_start_for_ids ids none offset = offset
source_start_for_ids ids (some id) offset = elim (position ids id) [
  | none ↦ offset
  | some index ↦ saturating_add index 1
]

-- The rows that are there, in the order of the identifiers.
unfoldable pub filter_map {ℓ} : {A B : Type ℓ} → (A → Option B) → List A → List B
filter_map f [] = []
filter_map f (x ∷ xs) = let rest = filter_map f xs in elim (f x) [ none ↦ rest | some y ↦ y ∷ rest ]

module _ {A B : Type 0} (row : String → Option A) (decrypt : A → Option B) where
  abbrev pub batch_of : List String → ℕ → ℕ → Option (ClipBatch A)
  batch_of ids start count =
      let end = min (saturating_add start count) (length ids) in
      some
        (record { rows = filter_map row (slice ids start end); exhausted = leb (length ids) end })

  -- Each round but the last reads `limit` identifiers more, so their number and one more rounds are
  -- enough.
  unfoldable pub collect_readable_clips_by_id : List String → ℕ → ℕ → Option (List B)
  unfolding collect_readable_clips slice filter_map
  collect_readable_clips_by_id ids source_start limit =
      collect_readable_clips decrypt limit (batch_of ids) (suc (length ids)) source_start
