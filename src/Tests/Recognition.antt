-- ===== src/Tests/Recognition.antt =====
-- Examples for the recognition queue, src-tauri/src/ocr_queue.rs.
use Prim.Native.String.{String}
use text.Mathlib.Text.{◌==◌ as str_eq}
use text.Mathlib.TextEquality.{eq_iff}
use cubby_clipboard.Prelude.{
  ℕ, ◌+◌, ◌≤◌, ◌<◌, ◌≡◌, refl, ◌⊎◌, true, false, List, [], ◌∷◌, none, some, arith, All, Bool-cases,
  inl, inr,
}
use cubby_clipboard.OcrQueue.{
  OcrClip, OcrJob, OcrStatus, pending, processing, timeout, is_retryable, max_attempts,
  retry_delay_seconds, select_next, update, claim_next, mark_failed,
}
use cubby_clipboard.OcrQueue.Selection.{IsUnique, IsClaimOf}
use cubby_clipboard.OcrQueue.Claims.{
  IsClaimable, IsNewest, job_of, claim_next-IsNewest, mark_failed_claimed,
}
use cubby_clipboard.OcrQueue.Attempts.{fails, claims}
use cubby_clipboard.OcrQueue.Worker.{worker_after, worker_after_bound}

abbrev image : ℕ → String → OcrStatus → OcrClip
image id uuid status = record {
  id = id;
  uuid = uuid;
  created_at = id;
  is_image = true;
  is_deleted = false;
  ocr_text = none;
  ocr_words = none;
  ocr_status = some status;
  ocr_attempts = 0;
  ocr_next_retry_at = none;
  ocr_error_kind = none;
  file_path = none;
  full_content = some (1 ∷ []);
}

abbrev images : List OcrClip
images = image 1 "a" pending ∷ image 2 "b" pending ∷ []

images-IsUnique : IsUnique images
images-IsUnique u = elim (Bool-cases (str_eq "a" u)) [
  | inl h ↦ rw (← (eq_iff "a" u).0 h) (omega arith)
  | inr h ↦ ground (arith, h)
]

claim_next-IsNewest_example :
    let (clips', job) = claim_next 5 images in
    ((job ≡ none) × (clips' ≡ images) × All (λ d. ¬ IsClaimable 5 d) images)
    ⊎ ((row : OcrClip) × (job ≡ some (job_of row))
        × IsClaimable 5 row
        × IsNewest 5 images row
        × IsClaimOf row images clips')
claim_next-IsNewest_example = claim_next-IsNewest 5 images images-IsUnique

first_claim : (claim_next 5 images).1 ≡ some (job_of (image 2 "b" pending))
unfolding claim_next select_next update
first_claim = refl

second_claim : (claim_next 6 (claim_next 5 images).0).1 ≡ some (job_of (image 1 "a" pending))
unfolding claim_next select_next update
second_claim = refl

abbrev job : OcrJob
job = record { clip_uuid = "b"; file_path = none; full_content = []; attempts = 2 }

abbrev next_job : OcrJob
next_job = record { clip_uuid = "b"; file_path = none; full_content = 1 ∷ []; attempts = 1 }

claimed_again :
    (claim_next 200 (mark_failed 100 (image 2 "b" processing ∷ []) job timeout)).1 ≡ some next_job
unfolding claim_next select_next update mark_failed is_retryable retry_delay_seconds
claimed_again = refl

mark_failed_claimed_example :
    (is_retryable timeout ≡ true)
    × (job.attempts < max_attempts)
    × (100 + retry_delay_seconds job.attempts ≤ 200)
mark_failed_claimed_example =
    mark_failed_claimed 100 200 (image 2 "b" processing ∷ []) job next_job timeout claimed_again
      refl

abbrev interrupted : List OcrClip
interrupted = image 1 "a" processing ∷ image 2 "b" pending ∷ []

worker_after_bound_example :
    All
      (λ c. c.ocr_attempts ≤ max_attempts)
      (worker_after
        (record { clips = images; held = none })
        (fails 9 timeout ∷ claims 5 ∷ [])).clips
worker_after_bound_example =
    worker_after_bound images (fails 9 timeout ∷ claims 5 ∷ []) images-IsUnique (refl, (refl, tt))
