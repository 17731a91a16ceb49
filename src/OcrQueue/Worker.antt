-- ===== src/OcrQueue/Worker.antt =====
-- The bound on the attempts over every run of the worker of src-tauri/src/ocr_queue.rs.
use Prim.Native.String.{String}
use text.Mathlib.Text.{◌==◌ as str_eq}
use cubby_clipboard.Prelude.{
  ℕ, ◌≤◌, ◌≡◌, refl, inl, inr, Bool, true, false, ◌&&◌, List, [], ◌∷◌, Option, none, some, arith,
  ltb, ◌==◌, Bool-cases, Option-cases, All,
}
use cubby_clipboard.OcrQueue.{
  OcrClip, OcrJob, OcrFailureKind, update, mark_failed, mark_completed, max_attempts, is_retryable,
  is_unavailable, enqueue, rescan_clip_ocr, retry_failed_ocr, reprocess_existing_for_linebreaks,
  reset_to_pending,
}
use cubby_clipboard.OcrQueue.Selection.{IsUnique}
use cubby_clipboard.OcrQueue.Attempts.{
  Worker, Action, claims, completes, fails, asks, rescans, retries, reprocesses, step, IsSteady,
  AreModest, claims-IsSteady, update-AreModest, reset-is_modest, is_modest, completed-AreModest,
  failed-AreModest, IsUnique-update,
}

reset-IsSteady :
    (test : OcrClip → Bool) (set : OcrClip → OcrClip) (w : Worker)
    → ((c : OcrClip) → (set c).uuid ≡ c.uuid)
    → ((c : OcrClip) → is_modest w.held (set c) ≡ true)
    → IsSteady w
    → IsSteady (record w { clips = (update test set w.clips).0 })
reset-IsSteady test set w keeps modest k = record {
  unique = IsUnique-update test set keeps w.clips k.unique;
  modest =
      update-AreModest w.held w.held test set (λ c h e. modest c) (λ c h e. h) w.clips k.modest;
}

rescan-IsSteady : (u : String) (w : Worker) → IsSteady w → IsSteady (step w (rescans u))
unfolding step rescan_clip_ocr
rescan-IsSteady u w k =
    let test : OcrClip → Bool = λ c. str_eq c.uuid u && c.is_image in
    elim (Bool-cases ((update test reset_to_pending w.clips).1 == 0)) [
      | inl e ↦ rw e k
      | inr e ↦
          rw e
            (reset-IsSteady test reset_to_pending w (λ c. refl) (λ c. reset-is_modest w.held c) k)
    ]

abbrev forget_text : OcrClip → OcrClip
forget_text c = record (reset_to_pending c) { ocr_text = none; ocr_words = none }

forget_text-is_modest : (held : Option OcrJob) (c : OcrClip) → is_modest held (forget_text c) ≡ true
forget_text-is_modest none c = ground arith
forget_text-is_modest (some job) c = ground arith

reprocess-IsSteady : (done : Bool) (w : Worker) → IsSteady w → IsSteady (step w (reprocesses done))
unfolding step reprocess_existing_for_linebreaks
reprocess-IsSteady true w k = k
reprocess-IsSteady false w k =
    reset-IsSteady _ forget_text w (λ c. refl) (λ c. forget_text-is_modest w.held c) k

IsUnique-mark_failed :
    (now : ℕ) (job : OcrJob) (kind : OcrFailureKind) (cs : List OcrClip)
    → IsUnique cs
    → IsUnique (mark_failed now cs job kind)
unfolding mark_failed
IsUnique-mark_failed now job kind cs h = elim (Bool-cases (is_unavailable kind)) [
  | inl a ↦ rw a (IsUnique-update _ _ (λ c. refl) cs h)
  | inr a ↦ elim (Bool-cases (is_retryable kind && ltb job.attempts max_attempts)) [
    | inl r ↦ rw (a, r) (IsUnique-update _ _ (λ c. refl) cs h)
    | inr r ↦ rw (a, r) (IsUnique-update _ _ (λ c. refl) cs h)
  ]
]

-- The worker ends the job that it holds, or holds none.
abbrev ended : Worker → (List OcrClip → OcrJob → List OcrClip) → Worker
ended w finish = elim w.held [
  | none ↦ w
  | some job ↦ record { clips = finish w.clips job; held = none }
]

ended_idle :
    (w : Worker) (finish : List OcrClip → OcrJob → List OcrClip)
    → w.held ≡ none
    → ended w finish ≡ w
ended_idle w finish e = ground (arith, e)

ended_held :
    (w : Worker) (finish : List OcrClip → OcrJob → List OcrClip) (job : OcrJob)
    → w.held ≡ some job
    → ended w finish ≡ record { clips = finish w.clips job; held = none }
ended_held w finish job e = ground (arith, e)

ended-IsSteady :
    (w : Worker) (finish : List OcrClip → OcrJob → List OcrClip)
    → ((job : OcrJob) → IsUnique w.clips → IsUnique (finish w.clips job))
    → ((job : OcrJob) → AreModest (some job) w.clips → AreModest none (finish w.clips job))
    → IsSteady w
    → IsSteady (ended w finish)
ended-IsSteady w finish u m k = elim (Option-cases w.held) [
  | inl e ↦ rw (ended_idle w finish e) k
  | inr (job, e) ↦
      rw (ended_held w finish job e)
        (record { unique = u job k.unique; modest = m job (rw e at k.modest) })
]

step-IsSteady : (w : Worker) (a : Action) → IsSteady w → IsSteady (step w a)
unfolding step enqueue retry_failed_ocr mark_completed
step-IsSteady w (claims now) k = claims-IsSteady now w k
step-IsSteady w (completes text words) k =
    ended-IsSteady w (λ cs job. mark_completed cs job.clip_uuid text words)
      (λ job. IsUnique-update _ _ (λ c. refl) w.clips)
      (λ job. completed-AreModest job text words w.clips) k
step-IsSteady w (fails now kind) k =
    ended-IsSteady w (λ cs job. mark_failed now cs job kind)
      (λ job. IsUnique-mark_failed now job kind w.clips)
      (λ job. failed-AreModest now job kind w.clips) k
step-IsSteady w (asks u) k =
    reset-IsSteady _ reset_to_pending w (λ c. refl) (λ c. reset-is_modest w.held c) k
step-IsSteady w (rescans u) k = rescan-IsSteady u w k
step-IsSteady w retries k =
    reset-IsSteady _ reset_to_pending w (λ c. refl) (λ c. reset-is_modest w.held c) k
step-IsSteady w (reprocesses done) k = reprocess-IsSteady done w k

-- The worker after a run, whose newest action comes first.
pub worker_after : Worker → List Action → Worker
worker_after w [] = w
worker_after w (a ∷ actions) = step (worker_after w actions) a

worker_after-IsSteady :
    (w : Worker) (actions : List Action) → IsSteady w → IsSteady (worker_after w actions)
unfolding worker_after
worker_after-IsSteady w [] k = k
worker_after-IsSteady w (a ∷ actions) k =
    step-IsSteady (worker_after w actions) a (worker_after-IsSteady w actions k)

fresh-AreModest : (cs : List OcrClip) → All (λ c. c.ocr_attempts ≡ 0) cs → AreModest none cs
unfolding AreModest
fresh-AreModest [] h = tt
fresh-AreModest (c ∷ cs) h = (ground (arith, h.0), fresh-AreModest cs h.1)

modest-le :
    (held : Option OcrJob) (cs : List OcrClip)
    → AreModest held cs
    → All (λ c. c.ocr_attempts ≤ max_attempts) cs
unfolding AreModest
modest-le held [] h = tt
modest-le held (c ∷ cs) h = (ground (arith, h.0), modest-le held cs h.1)

-- Over every run that the worker starts on clips never attempted, whatever the user asks for
-- meanwhile, no clip counts more than `max_attempts` attempts. The column `uuid` is unique, and the
-- run is not interrupted by an exit, whose recovery keeps the count.
pub worker_after_bound :
    (clips : List OcrClip) (actions : List Action)
    → IsUnique clips
    → All (λ c. c.ocr_attempts ≡ 0) clips
    → All
        (λ c. c.ocr_attempts ≤ max_attempts)
        (worker_after (record { clips = clips; held = none }) actions).clips
worker_after_bound clips actions u h =
    let w : Worker = record { clips = clips; held = none } in
    let k =
      worker_after-IsSteady w actions (record { unique = u; modest = fresh-AreModest clips h }) in
    modest-le (worker_after w actions).held (worker_after w actions).clips k.modest
