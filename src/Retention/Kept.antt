-- ===== src/Retention/Kept.antt =====
-- Which rows `enforce_retention_in_pool` of src-tauri/src/commands.rs leaves, and how.
use Prim.Native.String.{String}
use cubby_clipboard.Prelude.{
  ◌≤◌, ◌≡◌, refl, sym, ap, ◌∙◌, inl, inr, Bool, true, false, List, [], ◌∷◌, none, some, arith,
  if◌then◌else◌, Bool-cases,
}
use mathlib.Core.Path.{subst}
use cubby_clipboard.OcrQueue.{has_text}
use cubby_clipboard.ClipTable.{Clip, is_uuid, select, update_where}
use cubby_clipboard.ClipTable.Rows.{
  IsUniqueId, is_in-false, is_in-true, select-update_others, select-update_these,
  select-delete_others, select-delete_these, count-update,
}
use cubby_clipboard.Retention.{
  Policy, Outcome, is_completed, overflow, live_keys, is_preserved, is_swept, expire, preserve,
  sweep, enforce_retention_in_pool,
}

live_keys-update :
    (test : Clip → Bool) (cs : List Clip) → live_keys (update_where test expire cs) ≡ live_keys cs
unfolding live_keys update_where
live_keys-update test [] = refl
live_keys-update test (c ∷ cs) = ground (arith, live_keys-update test cs)

-- Flagging rows leaves the overflow as it is.
pub overflow-preserve : (p : Policy) (cs : List Clip) → overflow p (preserve p cs) ≡ overflow p cs
unfolding overflow preserve
overflow-preserve p cs = rw (live_keys-update _ cs) refl

module _ (p : Policy) (u : String) (cs : List Clip) (c : Clip) where
  preserve-kept :
      IsUniqueId u cs
      → select (is_uuid u) cs ≡ some c
      → is_preserved p (overflow p cs) c ≡ false
      → select (is_uuid u) (preserve p cs) ≡ some c
  unfolding preserve
  preserve-kept one e h =
      select-update_others u _ expire cs (λ d. refl) (is_in-false u _ cs c one e h) ∙ e

  preserve-flagged :
      select (is_uuid u) cs ≡ some c
      → is_preserved p (overflow p cs) c ≡ true
      → select (is_uuid u) (preserve p cs) ≡ some (expire c)
  unfolding preserve
  preserve-flagged e h = select-update_these u _ expire cs c (λ d. refl) (is_in-true u _ cs c e h) e

  preserve-IsUniqueId : IsUniqueId u cs → IsUniqueId u (preserve p cs)
  unfolding preserve
  preserve-IsUniqueId one =
      subst (λ n. n ≤ 1) (sym (count-update (is_uuid u) _ expire cs (λ d. refl))) one

  sweep-kept :
      IsUniqueId u cs
      → select (is_uuid u) cs ≡ some c
      → is_swept p (overflow p cs) c ≡ false
      → select (is_uuid u) (sweep p cs) ≡ some c
  unfolding sweep
  sweep-kept one e h = select-delete_others u _ cs (is_in-false u _ cs c one e h) ∙ e

  sweep-swept :
      select (is_uuid u) cs ≡ some c
      → is_swept p (overflow p cs) c ≡ true
      → select (is_uuid u) (sweep p cs) ≡ none
  unfolding sweep
  sweep-swept e h = select-delete_these u _ cs (is_in-true u _ cs c e h)

module _ (p : Policy) (over : List String) (c : Clip) where
  expired_unswept : c.columns.is_deleted ≡ false → is_swept p over (expire c) ≡ false
  unfolding is_swept
  expired_unswept d = ground (arith, d)

  unpreserved_unswept :
      c.columns.is_deleted ≡ false
      → c.columns.is_image ≡ true
      → is_completed c.columns.ocr_status ≡ true
      → has_text c.columns ≡ true
      → is_preserved p over c ≡ false
      → is_swept p over c ≡ false
  unfolding is_swept is_preserved
  unpreserved_unswept d i o t h = ground (arith, d, i, o, t, h)

pub outcome-clips :
    (p : Policy) (fails : Bool) (cs : List Clip) (out : Outcome)
    → enforce_retention_in_pool p fails cs ≡ some out
    → out.clips ≡ sweep p (preserve p cs)
unfolding enforce_retention_in_pool
outcome-clips p fails cs out e = ground (arith, e)

module _ (p : Policy) (fails : Bool) (u : String) (cs : List Clip) (c : Clip) (out : Outcome) where
  -- A row that neither query selects stays as it was.
  pub untouched :
      IsUniqueId u cs
      → select (is_uuid u) cs ≡ some c
      → is_preserved p (overflow p cs) c ≡ false
      → is_swept p (overflow p cs) c ≡ false
      → enforce_retention_in_pool p fails cs ≡ some out
      → select (is_uuid u) out.clips ≡ some c
  untouched one e keep stay done =
      ap (select (is_uuid u)) (outcome-clips p fails cs out done)
      ∙ sweep-kept p u (preserve p cs) c (preserve-IsUniqueId p u cs c one)
          (preserve-kept p u cs c one e keep)
          (ap (λ o. is_swept p o c) (overflow-preserve p cs) ∙ stay)

  -- A pinned clip stays as it was, however old.
  pub pinned_stays :
      IsUniqueId u cs
      → select (is_uuid u) cs ≡ some c
      → c.is_pinned ≡ true
      → enforce_retention_in_pool p fails cs ≡ some out
      → select (is_uuid u) out.clips ≡ some c
  unfolding is_preserved is_swept
  pinned_stays one e pinned done =
      untouched one e (ground (arith, pinned)) (ground (arith, pinned)) done

  -- A live image whose text was recognized is never deleted: it stays as it was, or loses its
  -- original and nothing else.
  pub recognized_stays :
      IsUniqueId u cs
      → select (is_uuid u) cs ≡ some c
      → c.columns.is_deleted ≡ false
      → c.columns.is_image ≡ true
      → is_completed c.columns.ocr_status ≡ true
      → has_text c.columns ≡ true
      → enforce_retention_in_pool p fails cs ≡ some out
      → select (is_uuid u) out.clips
        ≡ some (if is_preserved p (overflow p cs) c then expire c else c)
  recognized_stays one e live image completed text done =
      elim (Bool-cases (is_preserved p (overflow p cs) c)) [
        | inl h ↦ rw h (
            ap (select (is_uuid u)) (outcome-clips p fails cs out done)
            ∙ sweep-kept p u (preserve p cs) (expire c) (preserve-IsUniqueId p u cs c one)
                (preserve-flagged p u cs c e h) (expired_unswept p _ c live))
        | inr h ↦
            rw h (untouched one e h (unpreserved_unswept p _ c live image completed text h) done)
      ]
