-- ===== src/History/Names.antt =====
-- No command of src-tauri/src/commands.rs but an edit gives a clip a new name.
use Prim.Native.String.{String}
use cubby_clipboard.Prelude.{
  ℕ, ◌≤◌, refl, inl, inr, Bool, true, false, List, [], ◌∷◌, arith, Option-cases,
}
use cubby_clipboard.ClipTable.{Clip, is_uuid, is_in}
use cubby_clipboard.ClipTable.Rows.{count-update, count-delete}
use cubby_clipboard.Retention.{Policy, enforce_retention_in_pool}
use cubby_clipboard.Capture.State.{CaptureState}
use cubby_clipboard.Capture.{reset_capture_dedup}
use cubby_clipboard.Capture.Uniqueness.{is_named, named_count, retention-le}
use cubby_clipboard.History.{
  soft_delete, delete_clip, delete_each, delete_clips, pin, set_clips_pinned, flip_pin, is_live_id,
  toggle_clip_pin, is_cleared, clear_clips_in_pool, clear_unpinned_clips, clear_all_clips,
  apply_retention, used_at, mark_clip_used,
}

-- A count of clips by their identifier and their hash.
module _ (named : String → String → Bool) where
  pub delete_clip-le :
      (fails : Bool) (id : String) (hard : Bool) (w : CaptureState)
      → named_count named (delete_clip fails id hard w).1 ≤ named_count named w
  unfolding delete_clip reset_capture_dedup
  delete_clip-le fails id hard w = ground (
    arith,
    count-delete (is_named named) (is_uuid id) w.clips,
    count-update (is_named named) (is_uuid id) soft_delete w.clips (λ c. refl),
  )

  pub delete_each-le :
      (fails : String → Bool) (ids : List String) (hard : Bool) (w : CaptureState)
      → named_count named (delete_each fails ids hard w).2 ≤ named_count named w
  unfolding delete_each
  delete_each-le fails [] hard w = omega arith
  delete_each-le fails (id ∷ ids) hard w = omega (
    arith,
    delete_clip-le (fails id) id hard w,
    delete_each-le fails ids hard (delete_clip (fails id) id hard w).1,
  )

  pub delete_clips-le :
      (fails : String → Bool) (ids : List String) (hard : Bool) (w : CaptureState)
      → named_count named (delete_clips fails ids hard w).1 ≤ named_count named w
  unfolding delete_clips
  delete_clips-le fails ids hard w = delete_each-le fails ids hard w

  pub set_clips_pinned-le :
      (fails : Bool) (ids : List String) (pinned : Bool) (w : CaptureState)
      → named_count named (set_clips_pinned fails ids pinned w).1 ≤ named_count named w
  unfolding set_clips_pinned
  set_clips_pinned-le fails ids pinned w =
      let test : Clip → Bool = λ c. is_in ids c.columns.uuid in
      ground (arith, count-update (is_named named) test (pin pinned) w.clips (λ c. refl))

  pub toggle_clip_pin-le :
      (fails : Bool) (id : String) (w : CaptureState)
      → named_count named (toggle_clip_pin fails id w).1 ≤ named_count named w
  unfolding toggle_clip_pin
  toggle_clip_pin-le fails id w =
      ground (arith, count-update (is_named named) (is_live_id id) flip_pin w.clips (λ c. refl))

  pub clear_unpinned_clips-le :
      (fails : Bool) (w : CaptureState)
      → named_count named (clear_unpinned_clips fails w).1 ≤ named_count named w
  unfolding clear_unpinned_clips clear_clips_in_pool reset_capture_dedup
  clear_unpinned_clips-le fails w =
      ground (arith, count-delete (is_named named) (is_cleared true) w.clips)

  pub clear_all_clips-le :
      (fails : Bool) (w : CaptureState)
      → named_count named (clear_all_clips fails w).1 ≤ named_count named w
  unfolding clear_all_clips clear_clips_in_pool reset_capture_dedup
  clear_all_clips-le fails w =
      ground (arith, count-delete (is_named named) (is_cleared false) w.clips)

  pub apply_retention-le :
      (policy : Policy) (fails : Bool) (w : CaptureState)
      → named_count named (apply_retention policy fails w).1 ≤ named_count named w
  unfolding apply_retention
  apply_retention-le policy fails w =
      elim (Option-cases (enforce_retention_in_pool policy fails w.clips)) [
        | inl h ↦ ground (arith, h)
        | inr (out, h) ↦ ground (arith, h, retention-le named policy fails w.clips out h)
      ]

  pub mark_clip_used-le :
      (fails : Bool) (now : ℕ) (id : String) (ok : Bool) (w : CaptureState)
      → named_count named (mark_clip_used fails now id ok w) ≤ named_count named w
  unfolding mark_clip_used
  mark_clip_used-le fails now id ok w =
      ground (arith, count-update (is_named named) (is_uuid id) (used_at now) w.clips (λ c. refl))
