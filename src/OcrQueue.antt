-- ===== src/OcrQueue.antt =====
-- The durable queue of images that wait for text recognition, src-tauri/src/ocr_queue.rs.
-- The rows of `clips`, each with its row of `clip_images`, are a list; an UPDATE is `update`, which
-- also counts the rows it affected. A NULL column is `none`, and a comparison with NULL is not true.
-- Times are seconds. A status that names none of the six is left out, and so are SQL statements that
-- fail: each operation returns their error. Encryption is left out: `ocr_text` is the text.
pub mod Selection
pub mod Claims
pub mod Recovery
pub mod Attempts
pub mod Worker
use Prim.Native.String.{String}
use text.Mathlib.Text.{◌==◌ as str_eq}
use cubby_clipboard.Prelude.{
  ℕ, ◌+◌, ◌-◌, ◌*◌, ◌^◌, min, Bool, true, false, not, ◌&&◌, ◌||◌, List, [], ◌∷◌, Option, none, some,
  ltb, leb, ◌==◌, if◌then◌else◌,
}

abbrev pub max_attempts : ℕ
max_attempts = 3

pub data OcrStatus : Type 0 where
  pending retry processing completed failed unavailable : OcrStatus

pub data OcrFailureKind : Type 0 where
  engine_unavailable timeout canceled decode resource_limit missing_image engine : OcrFailureKind

unfoldable pub is_retryable : OcrFailureKind → Bool
is_retryable timeout = true
is_retryable canceled = true
is_retryable engine = true
is_retryable _ = false

pub record OcrClip : Type 0 where
  pub id : ℕ
  pub uuid : String
  pub created_at : ℕ
  pub is_image : Bool
  pub is_deleted : Bool
  pub ocr_text : Option String
  pub ocr_words : Option String
  pub ocr_status : Option OcrStatus
  pub ocr_attempts : ℕ
  pub ocr_next_retry_at : Option ℕ
  pub ocr_error_kind : Option OcrFailureKind
  pub file_path : Option String
  pub full_content : Option (List ℕ)

pub record OcrJob : Type 0 where
  pub clip_uuid : String
  pub file_path : Option String
  pub full_content : List ℕ
  pub attempts : ℕ

abbrev pub has_text : OcrClip → Bool
has_text c = elim c.ocr_text [ none ↦ false | some t ↦ true ]

-- ocr_status IN ('pending', 'retry')
abbrev pub is_waiting : Option OcrStatus → Bool
is_waiting (some pending) = true
is_waiting (some retry) = true
is_waiting _ = false

abbrev pub is_processing : Option OcrStatus → Bool
is_processing (some processing) = true
is_processing _ = false

-- ocr_status IN ('failed', 'unavailable')
abbrev pub is_given_up : Option OcrStatus → Bool
is_given_up (some failed) = true
is_given_up (some unavailable) = true
is_given_up _ = false

-- UPDATE clips SET ... WHERE ...
unfoldable pub update : (OcrClip → Bool) → (OcrClip → OcrClip) → List OcrClip → List OcrClip × ℕ
update test set [] = ([], 0)
update test set (c ∷ cs) =
    let (rest, n) = update test set cs in if test c then (set c ∷ rest, n + 1) else (c ∷ rest, n)

abbrev pub reset_to_pending : OcrClip → OcrClip
reset_to_pending c = record c {
  ocr_status = some pending;
  ocr_attempts = 0;
  ocr_next_retry_at = none;
  ocr_error_kind = none;
}

unfoldable pub enqueue : List OcrClip → String → List OcrClip
enqueue clips clip_uuid =
    (update (λ c. str_eq c.uuid clip_uuid && (c.is_image && not (has_text c))) reset_to_pending
      clips).0

-- The setting `ocr_linebreak_reprocess_v1` is the flag.
unfoldable pub reprocess_existing_for_linebreaks : Bool → List OcrClip → Bool × List OcrClip × ℕ
reprocess_existing_for_linebreaks already_done clips =
    if already_done
    then (already_done, clips, 0)
    else let (clips', count) =
        update (λ c. c.is_image && (not c.is_deleted && has_text c))
          (λ c. record (reset_to_pending c) { ocr_text = none; ocr_words = none }) clips in
      (true, clips', count)

unfoldable pub retry_failed_ocr : List OcrClip → List OcrClip × ℕ
retry_failed_ocr clips =
    update (λ c. c.is_image && (not (has_text c) && is_given_up c.ocr_status)) reset_to_pending
      clips

-- `none` is the error "That clip is not an image".
unfoldable pub rescan_clip_ocr : List OcrClip → String → Option (List OcrClip)
rescan_clip_ocr clips id =
    let (clips', n) = update (λ c. str_eq c.uuid id && c.is_image) reset_to_pending clips in
    if n == 0 then none else some clips'

unfoldable pub recover_processing_jobs : List OcrClip → List OcrClip × ℕ
recover_processing_jobs clips =
    update
      (λ c. c.is_image && (not c.is_deleted && (not (has_text c) && is_processing c.ocr_status)))
      (λ c. record c { ocr_status = some retry; ocr_next_retry_at = none; ocr_error_kind = none })
      clips

abbrev pub is_due : ℕ → Option ℕ → Bool
is_due now none = true
is_due now (some t) = leb t now

-- The WHERE clause of the SELECT.
abbrev pub is_claimable : ℕ → OcrClip → Bool
is_claimable now c =
    c.is_image
    && (not c.is_deleted
        && (not (has_text c) && (is_waiting c.ocr_status && is_due now c.ocr_next_retry_at)))

-- `a` stands before `b` in ORDER BY created_at DESC, id DESC.
abbrev pub is_newer : OcrClip → OcrClip → Bool
is_newer a b = ltb b.created_at a.created_at || (a.created_at == b.created_at && ltb b.id a.id)

abbrev pub newer_of : OcrClip → Option OcrClip → OcrClip
newer_of c none = c
newer_of c (some d) = if is_newer d c then d else c

-- The first row of the SELECT.
unfoldable pub select_next : ℕ → List OcrClip → Option OcrClip
select_next now [] = none
select_next now (c ∷ cs) =
    let best = select_next now cs in if is_claimable now c then some (newer_of c best) else best

abbrev pub content_or_empty : Option (List ℕ) → List ℕ
content_or_empty none = []
content_or_empty (some bytes) = bytes

abbrev pub mark_processing : OcrClip → OcrClip
mark_processing c = record c {
  ocr_status = some processing;
  ocr_attempts = c.ocr_attempts + 1;
  ocr_next_retry_at = none;
  ocr_error_kind = none;
}

-- A rollback leaves the rows as they were.
unfoldable pub claim_next : ℕ → List OcrClip → List OcrClip × Option OcrJob
unfolding select_next
claim_next now clips = elim (select_next now clips) [
  | none ↦ (clips, none)
  | some row ↦
      let (clips', updated) =
        update (λ c. str_eq c.uuid row.uuid && is_waiting c.ocr_status) mark_processing clips in
      if not (updated == 1) then (clips, none) else (
        clips',
        some (record {
          clip_uuid = row.uuid;
          file_path = row.file_path;
          full_content = content_or_empty row.full_content;
          attempts = row.ocr_attempts + 1;
        }),
      )
]

-- `text` is trimmed already. The words are NULL if recognition found none.
unfoldable pub mark_completed : List OcrClip → String → String → Option String → List OcrClip
mark_completed clips clip_uuid text words =
    (update (λ c. str_eq c.uuid clip_uuid)
      (λ c. record c {
        ocr_text = if str_eq text "" then none else some text;
        ocr_words = words;
        ocr_status = some completed;
        ocr_next_retry_at = none;
        ocr_error_kind = none;
      })
      clips).0

-- A claimed job has at least one attempt.
unfoldable pub retry_delay_seconds : ℕ → ℕ
retry_delay_seconds attempts = 30 * 2 ^ min (attempts - 1) 4

abbrev pub is_unavailable : OcrFailureKind → Bool
is_unavailable engine_unavailable = true
is_unavailable _ = false

unfoldable pub mark_failed : ℕ → List OcrClip → OcrJob → OcrFailureKind → List OcrClip
mark_failed now clips job kind =
    if is_unavailable kind
    then (update
        (λ c.
          c.is_image
          && (not (has_text c) && (is_waiting c.ocr_status || is_processing c.ocr_status)))
        (λ c. record c {
          ocr_status = some unavailable;
          ocr_next_retry_at = none;
          ocr_error_kind = some kind;
        })
        clips).0
    else if is_retryable kind && ltb job.attempts max_attempts
    then (update (λ c. str_eq c.uuid job.clip_uuid)
        (λ c. record c {
          ocr_status = some retry;
          ocr_next_retry_at = some (now + retry_delay_seconds job.attempts);
          ocr_error_kind = some kind;
        })
        clips).0
    else (update (λ c. str_eq c.uuid job.clip_uuid)
        (λ c. record c {
          ocr_status = some failed;
          ocr_next_retry_at = none;
          ocr_error_kind = some kind;
        })
        clips).0
