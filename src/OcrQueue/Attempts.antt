-- ===== src/OcrQueue/Attempts.antt =====
-- How often a clip is attempted between two starts of the worker, src-tauri/src/ocr_queue.rs.
use Prim.Native.String.{String}
use text.Mathlib.Text.{◌==◌ as str_eq}
use text.Mathlib.TextEquality.{eq_iff}
use cubby_clipboard.Prelude.{
  ℕ, ◌≤◌, ◌<◌, ◌≡◌, refl, sym, ap, ◌∙◌, inl, inr, Bool, true, false, not, ◌&&◌, ◌||◌, List, [], ◌∷◌,
  Option, none, some, arith, leb, ltb, Bool-cases, Option-cases, All,
}
use cubby_clipboard.OcrQueue.{
  OcrClip, OcrJob, OcrFailureKind, is_retryable, is_waiting, is_claimable, is_newer, select_next,
  claim_next, update, mark_failed, mark_completed, is_unavailable, max_attempts, enqueue,
  rescan_clip_ocr, retry_failed_ocr, reprocess_existing_for_linebreaks, reset_to_pending,
  mark_processing,
}
use cubby_clipboard.OcrQueue.Selection.{
  IsUnique, uuid_count, claim_update, claim_update-le, claim_update-some,
}
use cubby_clipboard.OcrQueue.Claims.{job_of, claim_next-some, claim_next-none}

-- The table and the job that the worker holds.
pub record Worker : Type 0 where
  pub clips : List OcrClip
  pub held : Option OcrJob

-- The worker claims or ends its job; the user asks for another pass.
pub data Action : Type 0 where
  claims : ℕ → Action
  completes : String → Option String → Action
  fails : ℕ → OcrFailureKind → Action
  asks : String → Action
  rescans : String → Action
  retries : Action
  reprocesses : Bool → Action

abbrev pub or_same : List OcrClip → Option (List OcrClip) → List OcrClip
or_same clips none = clips
or_same clips (some clips') = clips'

unfoldable pub step : Worker → Action → Worker
step w (claims now) = elim w.held [
  | none ↦ let (clips, job) = claim_next now w.clips in record { clips = clips; held = job }
  | some job ↦ w
]
step w (completes text words) = elim w.held [
  | none ↦ w
  | some job ↦ record { clips = mark_completed w.clips job.clip_uuid text words; held = none }
]
step w (fails now kind) = elim w.held [
  | none ↦ w
  | some job ↦ record { clips = mark_failed now w.clips job kind; held = none }
]
step w (asks u) = record w { clips = enqueue w.clips u }
step w (rescans u) = record w { clips = or_same w.clips (rescan_clip_ocr w.clips u) }
step w retries = record w { clips = (retry_failed_ocr w.clips).0 }
step w (reprocesses done) = record w { clips = (reprocess_existing_for_linebreaks done w.clips).1 }

-- The row of the job in hand has no more attempts than the job.
abbrev pub is_behind : Option OcrJob → OcrClip → Bool
is_behind none c = true
is_behind (some job) c = not (str_eq c.uuid job.clip_uuid) || leb c.ocr_attempts job.attempts

-- At most `max_attempts` attempts, and fewer while the row waits.
abbrev pub is_modest : Option OcrJob → OcrClip → Bool
is_modest held c =
    leb c.ocr_attempts max_attempts
    && ((not (is_waiting c.ocr_status) || ltb c.ocr_attempts max_attempts) && is_behind held c)

unfoldable pub AreModest : Option OcrJob → List OcrClip → Type 0
AreModest held = All (λ c. is_modest held c ≡ true)

pub update-AreModest :
    (before after : Option OcrJob) (test : OcrClip → Bool) (set : OcrClip → OcrClip)
    → ((c : OcrClip) → is_modest before c ≡ true → test c ≡ true → is_modest after (set c) ≡ true)
    → ((c : OcrClip) → is_modest before c ≡ true → test c ≡ false → is_modest after c ≡ true)
    → (cs : List OcrClip) → AreModest before cs
    → AreModest after (update test set cs).0
unfolding update AreModest
update-AreModest before after test set hit miss [] h = tt
update-AreModest before after test set hit miss (c ∷ cs) h = elim (Bool-cases (test c)) [
  | inl e ↦ rw e (hit c h.0 e, update-AreModest before after test set hit miss cs h.1)
  | inr e ↦ rw e (miss c h.0 e, update-AreModest before after test set hit miss cs h.1)
]

pub reset-is_modest :
    (held : Option OcrJob) (c : OcrClip) → is_modest held (reset_to_pending c) ≡ true
reset-is_modest none c = ground arith
reset-is_modest (some job) c = ground arith

pub completed-AreModest :
    (job : OcrJob) (text : String) (words : Option String) (cs : List OcrClip)
    → AreModest (some job) cs
    → AreModest none (mark_completed cs job.clip_uuid text words)
unfolding mark_completed
completed-AreModest job text words =
    update-AreModest (some job) none _ _ (λ c h e. ground arith) (λ c h e. ground arith)

pub failed-AreModest :
    (now : ℕ) (job : OcrJob) (kind : OcrFailureKind) (cs : List OcrClip)
    → AreModest (some job) cs
    → AreModest none (mark_failed now cs job kind)
unfolding mark_failed
failed-AreModest now job kind cs h = elim (Bool-cases (is_unavailable kind)) [
  | inl a ↦
      rw a
        (update-AreModest (some job) none _ _ (λ c h e. ground arith) (λ c h e. ground arith) cs h)
  | inr a ↦ elim (Bool-cases (is_retryable kind && ltb job.attempts max_attempts)) [
    | inl r ↦
        rw (a, r)
          (update-AreModest (some job) none _ _ (λ c h e. ground arith) (λ c h e. ground arith) cs
            h)
    | inr r ↦
        rw (a, r)
          (update-AreModest (some job) none _ _ (λ c h e. ground arith) (λ c h e. ground arith) cs
            h)
  ]
]

-- No row with the identifier has more attempts than so many.
AreAtMost : String → ℕ → List OcrClip → Type 0
AreAtMost u n = All (λ c. (str_eq c.uuid u && ltb n c.ocr_attempts) ≡ false)

AreAtMost-absent : (u : String) (n : ℕ) (cs : List OcrClip) → uuid_count u cs ≡ 0 → AreAtMost u n cs
unfolding AreAtMost
AreAtMost-absent u n [] h = tt
AreAtMost-absent u n (c ∷ cs) h = (ground arith, AreAtMost-absent u n cs (ground arith))

select_next-present :
    (now : ℕ) (cs : List OcrClip) (row : OcrClip)
    → select_next now cs ≡ some row
    → 0 < uuid_count row.uuid cs
select_next-present now cs row e =
    omega (arith, claim_update-some now cs row e, claim_update-le row.uuid cs)

select_next-AreAtMost :
    (now : ℕ) (cs : List OcrClip) (row : OcrClip)
    → select_next now cs ≡ some row
    → uuid_count row.uuid cs ≤ 1
    → AreAtMost row.uuid row.ocr_attempts cs
unfolding select_next AreAtMost
select_next-AreAtMost now [] row e l = cc
select_next-AreAtMost now (d ∷ ds) row e l = elim (Option-cases (select_next now ds)) [
  | inl n ↦
      let same : row ≡ d = ground (arith, n) in
      (
        ground (arith, same, eq_iff d.uuid d.uuid),
        AreAtMost-absent row.uuid row.ocr_attempts ds
            (ground (arith, l, same, eq_iff d.uuid d.uuid)),
      )
  | inr (b, n) ↦ elim (Bool-cases (is_claimable now d && not (is_newer b d))) [
    | inl h ↦
        let same : row ≡ d = ground (arith, n) in
        (
          ground (arith, same, eq_iff d.uuid d.uuid),
          AreAtMost-absent row.uuid row.ocr_attempts ds
              (ground (arith, l, same, eq_iff d.uuid d.uuid)),
        )
    | inr h ↦
        let same : row ≡ b = ground (arith, n) in
        let here = select_next-present now ds b n in
        (
          ground (arith, l, same, here),
          select_next-AreAtMost now ds row (n ∙ ap some (sym same)) (ground (arith, l)),
        )
  ]
]

claimed-AreModest :
    (row : OcrClip) (cs : List OcrClip)
    → AreAtMost row.uuid row.ocr_attempts cs
    → AreModest none cs
    → AreModest (some (job_of row)) (claim_update row.uuid cs).0
unfolding AreAtMost AreModest update
claimed-AreModest row [] a h = tt
claimed-AreModest row (c ∷ cs) a h =
    elim (Bool-cases (str_eq c.uuid row.uuid && is_waiting c.ocr_status)) [
      | inl e ↦ rw e (ground (arith, h.0, a.0), claimed-AreModest row cs a.1 h.1)
      | inr e ↦ rw e (ground (arith, h.0, a.0), claimed-AreModest row cs a.1 h.1)
    ]

uuid_count-update :
    (u : String) (test : OcrClip → Bool) (set : OcrClip → OcrClip)
    → ((c : OcrClip) → (set c).uuid ≡ c.uuid)
    → (cs : List OcrClip) → uuid_count u (update test set cs).0 ≡ uuid_count u cs
unfolding update
uuid_count-update u test set keeps [] = refl
uuid_count-update u test set keeps (c ∷ cs) =
    ground (arith, keeps c, uuid_count-update u test set keeps cs)

pub IsUnique-update :
    (test : OcrClip → Bool) (set : OcrClip → OcrClip)
    → ((c : OcrClip) → (set c).uuid ≡ c.uuid)
    → (cs : List OcrClip) → IsUnique cs
    → IsUnique (update test set cs).0
IsUnique-update test set keeps cs h u = rw (uuid_count-update u test set keeps cs) (h u)

-- What every step keeps.
pub record IsSteady (w : Worker) : Type 0 where
  pub unique : IsUnique w.clips
  pub modest : AreModest w.held w.clips

step-claims_idle :
    (now : ℕ) (w : Worker) (job : OcrJob) → w.held ≡ some job → step w (claims now) ≡ w
unfolding step
step-claims_idle now w job e = ground (arith, e)

step-claims :
    (now : ℕ) (w : Worker)
    → w.held ≡ none
    → step w (claims now)
      ≡ record { clips = (claim_next now w.clips).0; held = (claim_next now w.clips).1 }
unfolding step
step-claims now w e = ground (arith, e)

pub claims-IsSteady : (now : ℕ) (w : Worker) → IsSteady w → IsSteady (step w (claims now))
claims-IsSteady now w k = elim (Option-cases w.held) [
  | inr (job, e) ↦ rw (step-claims_idle now w job e) k
  | inl e ↦ rw (step-claims now w e) (elim (Option-cases (select_next now w.clips)) [
    | inl n ↦
        rw (claim_next-none now w.clips n) (record { unique = k.unique; modest = rw e at k.modest })
    | inr (row, n) ↦ rw (claim_next-some now w.clips row k.unique n) (record {
      unique = IsUnique-update _ mark_processing (λ c. refl) w.clips k.unique;
      modest =
          claimed-AreModest row w.clips
            (select_next-AreAtMost now w.clips row n (k.unique row.uuid)) (rw e at k.modest);
    })
  ])
]
