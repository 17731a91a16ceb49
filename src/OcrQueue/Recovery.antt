-- ===== src/OcrQueue/Recovery.antt =====
-- What `recover_processing_jobs` of src-tauri/src/ocr_queue.rs brings back after an exit, and how often
-- a clip is attempted between two exits.
use cubby_clipboard.Prelude.{
  ℕ, ◌+◌, ◌≡◌, refl, inl, inr, Bool, not, ◌&&◌, List, [], ◌∷◌, arith, if◌then◌else◌, Bool-cases,
}
use cubby_clipboard.OcrQueue.{
  OcrClip, has_text, is_processing, is_claimable, update, recover_processing_jobs,
}

-- An image that the process left in the middle of recognition.
abbrev pub is_stranded : OcrClip → Bool
is_stranded c = c.is_image && (not c.is_deleted && (not (has_text c) && is_processing c.ocr_status))

pub count_of : (OcrClip → Bool) → List OcrClip → ℕ
count_of test [] = 0
count_of test (c ∷ cs) = (if test c then 1 else 0) + count_of test cs

-- After recovery no image is stranded, and the images that can be claimed at any given time are as
-- many more as the rows that recovery changed, which are the stranded ones.
pub recover_processing_jobs-claimable :
    (now : ℕ) (clips : List OcrClip)
    → let (clips', n) = recover_processing_jobs clips in
      (count_of is_stranded clips' ≡ 0)
      × (n ≡ count_of is_stranded clips)
      × (count_of (is_claimable now) clips' ≡ count_of (is_claimable now) clips + n)
unfolding recover_processing_jobs count_of update
recover_processing_jobs-claimable now [] = (refl, refl, refl)
recover_processing_jobs-claimable now (c ∷ cs) =
    let ih = recover_processing_jobs-claimable now cs in
    elim (Bool-cases (is_stranded c)) [
      | inl h ↦ (ground (arith, ih), ground (arith, ih), ground (arith, ih))
      | inr h ↦ (ground (arith, ih), ground (arith, ih), ground (arith, ih))
    ]
