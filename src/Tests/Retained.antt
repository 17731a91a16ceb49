-- ===== src/Tests/Retained.antt =====
-- Examples for the retention, src-tauri/src/commands.rs: an order by time, and three clips.
use Prim.Native.String.{String}
use cubby_clipboard.Prelude.{
  ℕ, ◌≤◌, ◌≡◌, refl, inl, inr, Bool, true, false, List, [], ◌∷◌, none, some, leb, arith,
  if◌then◌else◌, Bool-cases, All,
}
use cubby_clipboard.OcrQueue.{OcrClip, completed}
use cubby_clipboard.ClipTable.{
  Clip, is_uuid, select, count_where, is_in, delete_where, update_where, uuids_where,
}
use cubby_clipboard.Retention.{
  Key, Policy, Outcome, expire, is_preserved, is_swept, overflow, offset, live_keys, preserve,
  sweep, enforce_retention_in_pool, paths_of,
}
use cubby_clipboard.Retention.Order.{IsDescending, NewestFirstLaws, count_keys}
use cubby_clipboard.Retention.Kept.{recognized_stays}
use cubby_clipboard.Retention.Overflow.{is_capped, retention-IsCapped, newest_stays}

abbrev pub place : Key → List Key → List Key
place k [] = k ∷ []
place k (j ∷ js) = let rest = place k js in if leb j.1 k.1 then k ∷ j ∷ js else j ∷ rest

-- Insertion sort.
abbrev pub by_time : List Key → List Key
by_time [] = []
by_time (k ∷ ks) = place k (by_time ks)

place-same :
    (test : Key → Bool) (k : Key) (ks : List Key)
    → count_keys test (place k ks) ≡ count_keys test (k ∷ ks)
unfolding count_keys
place-same test k [] = refl
place-same test k (j ∷ js) = ground (arith, place-same test k js)

by_time-same :
    (test : Key → Bool) (ks : List Key) → count_keys test (by_time ks) ≡ count_keys test ks
unfolding count_keys
by_time-same test [] = refl
by_time-same test (k ∷ ks) = ground (arith, place-same test k (by_time ks), by_time-same test ks)

place-bound :
    (b : ℕ) (k : Key) (ks : List Key)
    → k.1 ≤ b
    → All (λ j. j.1 ≤ b) ks
    → All (λ j. j.1 ≤ b) (place k ks)
place-bound b k [] h all = (h, tt)
place-bound b k (j ∷ js) h all = elim (Bool-cases (leb j.1 k.1)) [
  | inl e ↦ rw e (h, (all.0, all.1))
  | inr e ↦ rw e (all.0, place-bound b k js h all.1)
]

All-le : (a b : ℕ) (ks : List Key) → a ≤ b → All (λ j. j.1 ≤ a) ks → All (λ j. j.1 ≤ b) ks
All-le a b [] h all = tt
All-le a b (k ∷ ks) h all = (omega (arith, h, all.0), All-le a b ks h all.1)

place-IsDescending : (k : Key) (ks : List Key) → IsDescending ks → IsDescending (place k ks)
place-IsDescending k [] d = (tt, tt)
place-IsDescending k (j ∷ js) d = elim (Bool-cases (leb j.1 k.1)) [
  | inl e ↦
      let less : j.1 ≤ k.1 = ground (arith, e) in
      rw e ((less, All-le j.1 k.1 js less d.0), (d.0, d.1))
  | inr e ↦ rw e (place-bound j.1 k js (ground (arith, e)) d.0, place-IsDescending k js d.1)
]

by_time-IsDescending : (ks : List Key) → IsDescending (by_time ks)
by_time-IsDescending [] = tt
by_time-IsDescending (k ∷ ks) = place-IsDescending k (by_time ks) (by_time-IsDescending ks)

pub by_time-NewestFirstLaws : NewestFirstLaws by_time
by_time-NewestFirstLaws = record { same_keys = by_time-same; descending = by_time-IsDescending }

abbrev pub columns_of : String → ℕ → Bool → OcrClip
columns_of uuid time pictured = record {
  id = time;
  uuid = uuid;
  created_at = time;
  is_image = pictured;
  is_deleted = false;
  ocr_text = if pictured then some "sign" else none;
  ocr_words = none;
  ocr_status = if pictured then some completed else none;
  ocr_attempts = 0;
  ocr_next_retry_at = none;
  ocr_error_kind = none;
  file_path = if pictured then some "a.cubby" else none;
  full_content = none;
}

abbrev pub clip_of : String → ℕ → Bool → Clip
clip_of uuid time pictured = record {
  columns = columns_of uuid time pictured;
  content_hash = uuid;
  content = [];
  text_preview = [];
  source_app = none;
  source_icon = none;
  metadata = none;
  is_pinned = false;
  full_image_expired = false;
  last_accessed = time;
  formats = [];
}

-- An old image with text, an old text, and a new text.
abbrev pub three : List Clip
three = clip_of "a" 1 true ∷ clip_of "b" 2 false ∷ clip_of "c" 300000 false ∷ []

abbrev one_day : Policy
one_day = record { max_items = 1; auto_delete_days = 1; now = 300000; newest_first = by_time }

abbrev left : Outcome
left = record {
  clips = expire (clip_of "a" 1 true) ∷ clip_of "c" 300000 false ∷ [];
  deleted = 1;
  unlink = "a.cubby" ∷ [];
}

ran : enforce_retention_in_pool one_day false three ≡ some left
unfolding enforce_retention_in_pool preserve sweep is_preserved is_swept overflow offset live_keys
    is_in delete_where update_where uuids_where paths_of count_where
ran = refl

retention-IsCapped_example : count_where is_capped left.clips ≤ 1
retention-IsCapped_example =
    retention-IsCapped one_day by_time-NewestFirstLaws false three left (omega arith) ran

newest_stays_example : select (is_uuid "c") left.clips ≡ some (clip_of "c" 300000 false)
unfolding count_where select
newest_stays_example =
    newest_stays one_day by_time-NewestFirstLaws false "c" three (clip_of "c" 300000 false) left
      (omega arith) refl refl refl refl (omega arith) ran

recognized_stays_example :
    select (is_uuid "a") left.clips
    ≡ some (
        if is_preserved one_day (overflow one_day three) (clip_of "a" 1 true)
        then expire (clip_of "a" 1 true)
        else clip_of "a" 1 true)
unfolding count_where select
recognized_stays_example =
    recognized_stays one_day false "a" three (clip_of "a" 1 true) left (omega arith) refl refl refl
      refl refl ran
