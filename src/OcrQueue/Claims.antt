-- ===== src/OcrQueue/Claims.antt =====
-- Which jobs `claim_next` of src-tauri/src/ocr_queue.rs hands to the worker, and when one returns.
use Prim.Native.String.{String}
use text.Mathlib.Text.{◌==◌ as str_eq}
use text.Mathlib.TextEquality.{eq_iff}
use mathlib.Core.Path.{subst}
use cubby_clipboard.Prelude.{
  ℕ, ◌+◌, ◌≤◌, ◌<◌, ◌≡◌, sym, ap, ◌≢◌, ◌⊎◌, inl, inr, Bool, true, false, ◌&&◌, List, [], ◌∷◌,
  Option, none, some, arith, leb, ltb, Bool-cases, Option-cases, All,
}
use cubby_clipboard.OcrQueue.{
  OcrClip, OcrJob, OcrStatus, pending, retry, OcrFailureKind, is_retryable, content_or_empty,
  is_waiting, is_claimable, select_next, claim_next, update, mark_failed, is_unavailable,
  max_attempts, retry_delay_seconds,
}
use cubby_clipboard.OcrQueue.Selection.{
  IsClaimOf, claim_update-IsClaimOf, IsFirst, IsUnique, IsShut, select_next-claimable,
  select_next-none, select_next-IsFirst, claim_update, claim_update-le, claim_update-some,
  select_next-IsShut,
}

-- The job that a row makes.
abbrev pub job_of : OcrClip → OcrJob
job_of row = record {
  clip_uuid = row.uuid;
  file_path = row.file_path;
  full_content = content_or_empty row.full_content;
  attempts = row.ocr_attempts + 1;
}

pub claim_next-some :
    (now : ℕ) (clips : List OcrClip) (row : OcrClip)
    → IsUnique clips
    → select_next now clips ≡ some row
    → claim_next now clips ≡ ((claim_update row.uuid clips).0, some (job_of row))
unfolding claim_next
claim_next-some now clips row u e =
    let one : (claim_update row.uuid clips).1 ≡ 1 =
      omega
        (arith, claim_update-le row.uuid clips, claim_update-some now clips row e, u row.uuid) in
    rw (e, claim_next) (ground (arith, one))

pub claim_next-none :
    (now : ℕ) (clips : List OcrClip)
    → select_next now clips ≡ none
    → claim_next now clips ≡ (clips, none)
unfolding claim_next
claim_next-none now clips e = rw (e, claim_next)

-- The conditions under which a row may be claimed.
abbrev pub IsClaimable : ℕ → OcrClip → Type 0
IsClaimable now c =
    (c.is_image ≡ true)
    × (c.is_deleted ≡ false)
    × (c.ocr_text ≡ none)
    × ((c.ocr_status ≡ some pending) ⊎ (c.ocr_status ≡ some retry))
    × ((t : ℕ) → c.ocr_next_retry_at ≡ some t → t ≤ now)

claimable-status :
    (s : Option OcrStatus) → is_waiting s ≡ true → (s ≡ some pending) ⊎ (s ≡ some retry)
claimable-status s h = ground arith

is_claimable-IsClaimable : (now : ℕ) (c : OcrClip) → is_claimable now c ≡ true → IsClaimable now c
is_claimable-IsClaimable now c h = (
  ground arith,
  ground arith,
  ground arith,
  claimable-status c.ocr_status (ground arith),
  λ t e. ground arith,
)

IsClaimable-is_claimable : (now : ℕ) (c : OcrClip) → IsClaimable now c → is_claimable now c ≡ true
IsClaimable-is_claimable now c (i, d, t, s, n) = elim (Option-cases c.ocr_next_retry_at) [
  | inl e ↦ ground (arith, e, s)
  | inr (r, e) ↦ ground (arith, e, s, n r e)
]

-- Every row that may be claimed is older than this one, or as old with an identifier not larger.
abbrev pub IsNewest : ℕ → List OcrClip → OcrClip → Type 0
IsNewest now clips c =
    All
      (λ d.
        IsClaimable now d
        → (d.created_at < c.created_at) ⊎ ((d.created_at ≡ c.created_at) × (d.id ≤ c.id)))
      clips

IsFirst-IsNewest :
    (now : ℕ) (clips : List OcrClip) (c : OcrClip) → IsFirst now clips c → IsNewest now clips c
IsFirst-IsNewest now [] c f = tt
IsFirst-IsNewest now (d ∷ ds) c f =
    (λ h. ground (arith, IsClaimable-is_claimable now d h, f.0), IsFirst-IsNewest now ds c f.1)

IsClaimable-none :
    (now : ℕ) (clips : List OcrClip)
    → All (λ d. is_claimable now d ≡ false) clips
    → All (λ d. ¬ IsClaimable now d) clips
IsClaimable-none now [] h = tt
IsClaimable-none now (d ∷ ds) h =
    (λ k. cc (h.0, IsClaimable-is_claimable now d k), IsClaimable-none now ds h.1)

-- A claim returns nothing exactly if no row may be claimed, and then changes nothing. Otherwise it
-- returns the job of the newest row of the table that may be claimed, with one attempt more, and if
-- rows are equally old of the one with the largest identifier; this row is marked as being processed,
-- with one attempt more and without retry time and error, and all others stay the same. The column
-- `uuid` is unique.
pub claim_next-IsNewest :
    (now : ℕ) (clips : List OcrClip)
    → IsUnique clips
    → let (clips', job) = claim_next now clips in
      ((job ≡ none) × (clips' ≡ clips) × All (λ d. ¬ IsClaimable now d) clips)
      ⊎ ((row : OcrClip) × (job ≡ some (job_of row))
          × IsClaimable now row
          × IsNewest now clips row
          × IsClaimOf row clips clips')
claim_next-IsNewest now clips u = elim (Option-cases (select_next now clips)) [
  | inl e ↦
      let same = claim_next-none now clips e in
      inl (
        ap (λ r. r.1) same,
        ap (λ r. r.0) same,
        IsClaimable-none now clips (select_next-none now clips e),
      )
  | inr (row, e) ↦
      let made = claim_next-some now clips row u e in
      inr (
        row,
        ap (λ r. r.1) made,
        is_claimable-IsClaimable now row (select_next-claimable now clips row e),
        IsFirst-IsNewest now clips row (select_next-IsFirst now clips row e),
        subst (IsClaimOf row clips) (sym (ap (λ r. r.0) made))
            (claim_update-IsClaimOf now clips row e (u row.uuid)),
      )
]

claim_update-IsShut :
    (later : ℕ) (u : String) (cs : List OcrClip) → IsShut later u (claim_update u cs).0
unfolding update
claim_update-IsShut later u [] = tt
claim_update-IsShut later u (c ∷ cs) =
    elim (Bool-cases (str_eq c.uuid u && is_waiting c.ocr_status)) [
      | inl h ↦ rw h (ground arith, claim_update-IsShut later u cs)
      | inr h ↦ rw h (ground arith, claim_update-IsShut later u cs)
    ]

claim_next-IsShut :
    (later : ℕ) (clips : List OcrClip) (u : String) (job : OcrJob)
    → IsShut later u clips
    → (claim_next later clips).1 ≡ some job
    → job.clip_uuid ≢ u
unfolding claim_next
claim_next-IsShut later clips u job h e f = elim (Option-cases (select_next later clips)) [
  | inl n ↦ ground (arith, n)
  | inr (row, n) ↦ ground (arith, n, select_next-IsShut later u clips row h n, eq_iff row.uuid u)
]

-- Two claims with nothing between them never hand out the same clip. The identifiers are unique.
pub claim_next_distinct :
    (now later : ℕ) (clips : List OcrClip) (first second : OcrJob)
    → IsUnique clips
    → (claim_next now clips).1 ≡ some first
    → (claim_next later (claim_next now clips).0).1 ≡ some second
    → second.clip_uuid ≢ first.clip_uuid
claim_next_distinct now later clips first second u e f =
    elim (Option-cases (select_next now clips)) [
      | inl n ↦ absurd (cc (claim_next-none now clips n))
      | inr (row, n) ↦
          let claimed = claim_next-some now clips row u n in
          let same : first.clip_uuid ≡ row.uuid = ground (arith, claimed) in
          rw same (
            claim_next-IsShut later (claim_update row.uuid clips).0 row.uuid second
              (claim_update-IsShut later row.uuid clips) (rw claimed at f))
    ]

update-IsShut :
    (later : ℕ) (u : String) (test : OcrClip → Bool) (set : OcrClip → OcrClip)
    → ((c : OcrClip) → (str_eq (set c).uuid u && is_claimable later (set c)) ≡ false)
    → ((c : OcrClip) → test c ≡ false → (str_eq c.uuid u && is_claimable later c) ≡ false)
    → (cs : List OcrClip) → IsShut later u (update test set cs).0
unfolding update
update-IsShut later u test set hit miss [] = tt
update-IsShut later u test set hit miss (c ∷ cs) = elim (Bool-cases (test c)) [
  | inl h ↦ rw h (hit c, update-IsShut later u test set hit miss cs)
  | inr h ↦ rw h (miss c h, update-IsShut later u test set hit miss cs)
]

mark_failed-IsShut :
    (now later : ℕ) (clips : List OcrClip) (job : OcrJob) (kind : OcrFailureKind)
    → (is_retryable kind
        && (ltb job.attempts max_attempts && leb (now + retry_delay_seconds job.attempts) later))
      ≡ false
    → IsShut later job.clip_uuid (mark_failed now clips job kind)
unfolding mark_failed
mark_failed-IsShut now later clips job kind h = elim (Bool-cases (is_unavailable kind)) [
  | inl a ↦
      rw a (update-IsShut later job.clip_uuid _ _ (λ c. ground arith) (λ c n. ground arith) clips)
  | inr a ↦ elim (Bool-cases (is_retryable kind && ltb job.attempts max_attempts)) [
    | inl r ↦
        rw (a, r)
          (update-IsShut later job.clip_uuid _ _ (λ c. ground arith) (λ c n. ground arith) clips)
    | inr r ↦
        rw (a, r)
          (update-IsShut later job.clip_uuid _ _ (λ c. ground arith) (λ c n. ground arith) clips)
  ]
]

-- After a job has failed, its clip is claimed next only if the kind of the failure may pass, fewer
-- than `max_attempts` attempts were made, and the delay after the last one is over.
pub mark_failed_claimed :
    (now later : ℕ) (clips : List OcrClip) (job next : OcrJob) (kind : OcrFailureKind)
    → (claim_next later (mark_failed now clips job kind)).1 ≡ some next
    → next.clip_uuid ≡ job.clip_uuid
    → (is_retryable kind ≡ true)
      × (job.attempts < max_attempts)
      × (now + retry_delay_seconds job.attempts ≤ later)
mark_failed_claimed now later clips job next kind e same =
    elim (Bool-cases (
      is_retryable kind
      && (ltb job.attempts max_attempts && leb (now + retry_delay_seconds job.attempts) later))) [
        | inl h ↦ (ground arith, ground arith, ground arith)
        | inr h ↦ absurd (
            claim_next-IsShut later (mark_failed now clips job kind) job.clip_uuid next
              (mark_failed-IsShut now later clips job kind h) e same)
      ]
