-- ===== src/History.antt =====
-- The commands of src-tauri/src/commands.rs that change the history, on the state of the capture
-- worker. A command returns `none` or `false` where the source returns an error; `fails` says that one
-- of its SQL statements does, which rolls its transaction back. Folders, hidden clips and notes are
-- left out.
pub mod Editing
pub mod Names
pub mod Steps
pub mod Cleared
pub mod Edited
pub mod Found
use Prim.Native.String.{String}
use package.text.Mathlib.Text.{◌==◌ as str_eq}
use cubby_clipboard.Prelude.{
  ℕ, suc, ◌+◌, Bool, true, false, not, ◌&&◌, ◌||◌, List, [], ◌∷◌, ◌++◌, Option, none, some, ltb,
  ◌==◌, if◌then◌else◌,
}
use cubby_clipboard.ListenerEvent.{text_type, build_clip_hash_material}
use cubby_clipboard.SearchIndex.Service.{SearchIndex, upsert, remove, invalidate}
use cubby_clipboard.ClipTable.{
  Clip, is_uuid, is_hash, select, update_where, delete_where, count_where, is_in,
}
use cubby_clipboard.Retention.{Policy, Outcome, enforce_retention_in_pool}
use cubby_clipboard.Capture.State.{Platform, CaptureState}
use cubby_clipboard.Capture.{reset_capture_dedup, path_of}

abbrev pub soft_delete : Clip → Clip
soft_delete c = record c { columns = record c.columns { is_deleted = true } }

-- `delete_clip_in_database`
unfoldable pub delete_clip : Bool → String → Bool → CaptureState → Bool × CaptureState
unfolding delete_where update_where select reset_capture_dedup remove
delete_clip fails id hard_delete w =
    let paths = if hard_delete then path_of (select (is_uuid id) w.clips) else [] in
    let clips =
      if hard_delete
      then delete_where (is_uuid id) w.clips
      else update_where (is_uuid id) soft_delete w.clips in
    if fails then (false, w) else (
      true,
      reset_capture_dedup
          (record w { clips = clips; unlinked = paths ++ w.unlinked; index = remove w.index id }),
    )

abbrev pub count_ok : Bool → ℕ → ℕ
count_ok ok n = if ok then suc n else n

-- The loop of `delete_clips`: how many were deleted, and whether one failed.
unfoldable pub delete_each :
    (String → Bool) → List String → Bool → CaptureState → ℕ × Bool × CaptureState
unfolding delete_clip
delete_each fails [] hard_delete w = (0, false, w)
delete_each fails (id ∷ ids) hard_delete w =
    let (ok, w') = delete_clip (fails id) id hard_delete w in
    let (n, failed, w'') = delete_each fails ids hard_delete w' in
    (count_ok ok n, not ok || failed, w'')

unfoldable pub delete_clips :
    (String → Bool) → List String → Bool → CaptureState → Option ℕ × CaptureState
unfolding delete_each
delete_clips fails ids hard_delete w =
    let (deleted, failed, w') = delete_each fails ids hard_delete w in
    (if failed && deleted == 0 then none else some deleted, w')

abbrev pub pin : Bool → Clip → Clip
pin pinned c = record c { is_pinned = pinned }

abbrev pub is_empty : List String → Bool
is_empty [] = true
is_empty (id ∷ ids) = false

unfoldable pub set_clips_pinned : Bool → List String → Bool → CaptureState → Option ℕ × CaptureState
unfolding update_where count_where is_in
set_clips_pinned fails ids pinned w =
    if is_empty ids then (some 0, w) else if fails then (none, w) else (
      some (count_where (λ c. is_in ids c.columns.uuid) w.clips),
      record w { clips = update_where (λ c. is_in ids c.columns.uuid) (pin pinned) w.clips },
    )

abbrev pub is_live_id : String → Clip → Bool
is_live_id id c = is_uuid id c && not c.columns.is_deleted

abbrev pub flip_pin : Clip → Clip
flip_pin c = record c { is_pinned = not c.is_pinned }

-- RETURNING is_pinned
abbrev pub pinned_of : Option Clip → Option Bool
pinned_of none = none
pinned_of (some c) = some c.is_pinned

unfoldable pub toggle_clip_pin : Bool → String → CaptureState → Option Bool × CaptureState
unfolding update_where select
toggle_clip_pin fails id w =
    let clips = update_where (is_live_id id) flip_pin w.clips in
    if fails
    then (none, w)
    else (pinned_of (select (is_live_id id) clips), record w { clips = clips })

-- The paths of the rows of `clip_images` that are deleted, but the empty ones.
unfoldable pub image_paths : (Clip → Bool) → List Clip → List String
image_paths test [] = []
image_paths test (c ∷ cs) =
    let rest = image_paths test cs in
    elim c.columns.file_path [
      | none ↦ rest
      | some path ↦ if test c && not (str_eq path "") then path ∷ rest else rest
    ]

abbrev pub is_cleared : Bool → Clip → Bool
is_cleared preserve_pinned c =
    if preserve_pinned then not c.is_pinned || c.columns.is_deleted else true

-- Both filters name the same rows: not pinned, or deleted.
unfoldable pub clear_clips_in_pool : Bool → Bool → List Clip → Option Outcome
unfolding delete_where count_where image_paths
clear_clips_in_pool fails preserve_pinned clips =
    if fails
    then none
    else some (record {
      clips = delete_where (is_cleared preserve_pinned) clips;
      deleted = count_where (is_cleared preserve_pinned) clips;
      unlink = image_paths (is_cleared preserve_pinned) clips;
    })

-- The clips and the files of an outcome.
abbrev pub apply_outcome : Outcome → CaptureState → CaptureState
apply_outcome out w = record w { clips = out.clips; unlinked = out.unlink ++ w.unlinked }

unfoldable pub clear_unpinned_clips : Bool → CaptureState → Option ℕ × CaptureState
unfolding clear_clips_in_pool reset_capture_dedup invalidate
clear_unpinned_clips fails w = elim (clear_clips_in_pool fails true w.clips) [
  | none ↦ (none, w)
  | some out ↦
      let w' = reset_capture_dedup (apply_outcome out w) in
      (
        some out.deleted,
        if ltb 0 out.deleted then record w' { index = invalidate w'.index } else w',
      )
]

unfoldable pub clear_all_clips : Bool → CaptureState → Bool × CaptureState
unfolding clear_clips_in_pool reset_capture_dedup invalidate
clear_all_clips fails w = elim (clear_clips_in_pool fails false w.clips) [
  | none ↦ (false, w)
  | some out ↦
      let w' = reset_capture_dedup (apply_outcome out w) in
      (true, record w' { index = invalidate w'.index })
]

unfoldable pub apply_retention : Policy → Bool → CaptureState → Option ℕ × CaptureState
unfolding enforce_retention_in_pool invalidate
apply_retention policy fails w = elim (enforce_retention_in_pool policy fails w.clips) [
  | none ↦ (none, w)
  | some out ↦
      let w' = apply_outcome out w in
      (
        some out.deleted,
        if ltb 0 out.deleted then record w' { index = invalidate w'.index } else w',
      )
]

abbrev pub used_at : ℕ → Clip → Clip
used_at now c = record c { columns = record c.columns { created_at = now } }

-- After a paste: `fails` is the UPDATE, whose result is ignored.
unfoldable pub mark_clip_used : Bool → ℕ → String → Bool → CaptureState → CaptureState
unfolding update_where
mark_clip_used fails now id write_succeeded w =
    if not write_succeeded || fails
    then w
    else record w { clips = update_where (is_uuid id) (used_at now) w.clips }
