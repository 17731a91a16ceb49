-- ===== src/Retention.antt =====
-- The retention of src-tauri/src/commands.rs, `enforce_retention_in_pool`.
-- Times are seconds. Both settings are tested with `> 0`, so one that is not positive is 0.
-- `newest_first` stands for SQLite's ORDER BY created_at DESC on the pairs that the subquery reads:
-- which of two rows of one second stands first is SQLite's. A failing statement rolls the whole
-- transaction back.
pub mod Order
pub mod Kept
pub mod Overflow
use Prim.Native.String.{String}
use cubby_clipboard.Prelude.{
  ℕ, zero, suc, ◌+◌, ◌*◌, Bool, true, false, not, ◌&&◌, ◌||◌, List, [], ◌∷◌, ◌++◌, Option, none,
  some, map, ltb, if◌then◌else◌,
}
use cubby_clipboard.OcrQueue.{OcrClip, OcrStatus, completed, has_text}
use cubby_clipboard.ClipTable.{Clip, uuids_where, update_where, delete_where, count_where, is_in}

-- What a row is ordered by, and its identifier.
abbrev pub Key : Type 0
Key = String × ℕ

pub record Policy : Type 0 where
  pub max_items : ℕ
  pub auto_delete_days : ℕ
  pub now : ℕ
  pub newest_first : List Key → List Key

abbrev pub is_completed : Option OcrStatus → Bool
is_completed (some completed) = true
is_completed _ = false

-- time < datetime('now', '-' || days || ' days')
abbrev pub is_aged : Policy → ℕ → Bool
is_aged p time = ltb 0 p.auto_delete_days && ltb (time + p.auto_delete_days * 86400) p.now

-- LIMIT -1 OFFSET n
unfoldable pub offset : ℕ → List Key → List String
offset n [] = []
offset zero (k ∷ ks) = k.0 ∷ offset zero ks
offset (suc n) (k ∷ ks) = offset n ks

abbrev pub is_live_unpinned : Clip → Bool
is_live_unpinned c = not c.columns.is_deleted && not c.is_pinned

abbrev pub key_of : Clip → Key
key_of c = (c.columns.uuid, c.columns.created_at)

unfoldable pub live_keys : List Clip → List Key
live_keys [] = []
live_keys (c ∷ cs) = let rest = live_keys cs in if is_live_unpinned c then key_of c ∷ rest else rest

-- The subquery of both queries.
unfoldable pub overflow : Policy → List Clip → List String
unfolding offset live_keys
overflow p clips = offset p.max_items (p.newest_first (live_keys clips))

abbrev pub is_overflow : Policy → List String → Clip → Bool
is_overflow p over c = ltb 0 p.max_items && is_in over c.columns.uuid

-- `preserve_query`
unfoldable pub is_preserved : Policy → List String → Clip → Bool
is_preserved p over c =
    not c.is_pinned
    && (not c.columns.is_deleted
        && (c.columns.is_image
            && (not c.full_image_expired
                && (is_completed c.columns.ocr_status
                    && (has_text c.columns
                        && (is_aged p c.last_accessed || is_overflow p over c))))))

-- `delete_query`
unfoldable pub is_swept : Policy → List String → Clip → Bool
is_swept p over c =
    let time = if c.columns.is_image then c.last_accessed else c.columns.created_at in
    not c.is_pinned
    && (c.columns.is_deleted
        || (not c.full_image_expired && (is_aged p time || is_overflow p over c)))

-- DELETE FROM clip_images and UPDATE clips SET full_image_expired = 1
abbrev pub expire : Clip → Clip
expire c = record c {
  full_image_expired = true;
  columns = record c.columns { file_path = none; full_content = none };
}

-- The stored paths of these rows.
unfoldable pub paths_of : List String → List Clip → List String
paths_of uuids [] = []
paths_of uuids (c ∷ cs) =
    let rest = paths_of uuids cs in
    elim c.columns.file_path [
      | none ↦ rest
      | some path ↦ if is_in uuids c.columns.uuid then path ∷ rest else rest
    ]

pub record Outcome : Type 0 where
  pub clips : List Clip
  pub deleted : ℕ
  pub unlink : List String

-- The first half of the transaction.
unfoldable pub preserve : Policy → List Clip → List Clip
unfolding overflow is_preserved uuids_where update_where
preserve p clips =
    let kept = uuids_where (is_preserved p (overflow p clips)) clips in
    update_where (λ c. is_in kept c.columns.uuid) expire clips

-- The second half.
unfoldable pub sweep : Policy → List Clip → List Clip
unfolding overflow is_swept uuids_where delete_where
sweep p clips =
    let candidates = uuids_where (is_swept p (overflow p clips)) clips in
    delete_where (λ c. is_in candidates c.columns.uuid) clips

unfoldable pub enforce_retention_in_pool : Policy → Bool → List Clip → Option Outcome
unfolding preserve sweep paths_of overflow is_preserved is_swept uuids_where count_where
enforce_retention_in_pool p fails clips =
    let kept = uuids_where (is_preserved p (overflow p clips)) clips in
    let flagged = preserve p clips in
    let candidates = uuids_where (is_swept p (overflow p flagged)) flagged in
    if fails
    then none
    else some (record {
      clips = sweep p flagged;
      deleted = count_where (λ c. is_in candidates c.columns.uuid) flagged;
      unlink = paths_of candidates flagged ++ paths_of kept clips;
    })
