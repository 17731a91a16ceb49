-- ===== src/ClipTable.antt =====
-- The table `clips` of src-tauri/src/database.rs with its rows of `clip_images` and `clip_formats`, as
-- the capture worker and the retention of src-tauri/src/commands.rs read and write it.
-- The columns that the OCR queue also uses, the path of the stored original among them, are `columns`;
-- `is_image` is `clip_type = 'image'`. Left out are the folder, the notes and the flag `is_thumbnail`,
-- which a capture sets to 0.
pub mod Rows
use Prim.Native.String.{String}
use text.Mathlib.Text.{◌==◌ as str_eq}
use cubby_clipboard.Prelude.{
  ℕ, ◌+◌, Bool, true, false, not, ◌&&◌, ◌||◌, List, [], ◌∷◌, Option, none, some, ◌==◌,
  if◌then◌else◌,
}
use cubby_clipboard.OcrQueue.{OcrClip, has_text, reset_to_pending}
use cubby_clipboard.ListenerEvent.{CapturedFormat}
use cubby_clipboard.ForgetOnClear.{ClipFlags}

pub record Clip : Type 0 where
  pub columns : OcrClip
  pub content_hash : String
  pub content : List ℕ
  pub text_preview : List ℕ
  pub source_app : Option (List ℕ)
  pub source_icon : Option (List ℕ)
  pub metadata : Option (List ℕ)
  pub is_pinned : Bool
  pub full_image_expired : Bool
  pub last_accessed : ℕ
  pub formats : List CapturedFormat

abbrev pub uuid_of : Clip → String
uuid_of c = c.columns.uuid

abbrev pub is_uuid : String → Clip → Bool
is_uuid u c = str_eq c.columns.uuid u

abbrev pub is_hash : String → Clip → Bool
is_hash h c = str_eq c.content_hash h

-- The first row that a SELECT with this WHERE clause finds.
unfoldable pub select : (Clip → Bool) → List Clip → Option Clip
select test [] = none
select test (c ∷ cs) = let rest = select test cs in if test c then some c else rest

-- SELECT uuid FROM clips WHERE ...
unfoldable pub uuids_where : (Clip → Bool) → List Clip → List String
uuids_where test [] = []
uuids_where test (c ∷ cs) =
    let rest = uuids_where test cs in if test c then c.columns.uuid ∷ rest else rest

-- UPDATE clips SET ... WHERE ...
unfoldable pub update_where : (Clip → Bool) → (Clip → Clip) → List Clip → List Clip
update_where test set [] = []
update_where test set (c ∷ cs) =
    let rest = update_where test set cs in if test c then set c ∷ rest else c ∷ rest

-- DELETE FROM clips WHERE ..., which takes the rows of the other two tables along.
unfoldable pub delete_where : (Clip → Bool) → List Clip → List Clip
delete_where test [] = []
delete_where test (c ∷ cs) = let rest = delete_where test cs in if test c then rest else c ∷ rest

-- SELECT COUNT(*) FROM clips WHERE ...
unfoldable pub count_where : (Clip → Bool) → List Clip → ℕ
count_where test [] = 0
count_where test (c ∷ cs) = (if test c then 1 else 0) + count_where test cs

-- u IN (...)
unfoldable pub is_in : List String → String → Bool
is_in [] u = false
is_in (v ∷ vs) u = str_eq u v || is_in vs u

-- What the clear handler reads of a row.
abbrev pub flags_of : Option Clip → Option ClipFlags
flags_of none = none
flags_of (some c) = some (record { is_pinned = c.is_pinned; is_deleted = c.columns.is_deleted })
