-- ===== src/History/Steps.antt =====
-- Histories of captures and commands, src-tauri/src/clipboard.rs and src-tauri/src/commands.rs.
use Prim.Native.String.{String}
use mathlib.Core.Path.{subst}
use package.text.Mathlib.Text.{◌==◌ as str_eq}
use cubby_clipboard.Prelude.{ℕ, ◌≤◌, sym, inl, inr, Bool, List, Option, arith, Option-cases}
use cubby_clipboard.ClipTable.{is_hash, count_where}
use cubby_clipboard.ClipTable.Rows.{IsUniqueId}
use cubby_clipboard.Retention.{Policy}
use cubby_clipboard.Capture.Gates.{Settings}
use cubby_clipboard.Capture.State.{Platform, Snapshot, Environment, CaptureState}
use cubby_clipboard.Capture.{process_clipboard_snapshot, reset_capture_dedup}
use cubby_clipboard.Capture.Uniqueness.{
  named_count, process_clipboard_snapshot-IsUnique, process_clipboard_snapshot-IsUniqueId,
}
use cubby_clipboard.History.{
  delete_clips, set_clips_pinned, toggle_clip_pin, clear_unpinned_clips, clear_all_clips,
  apply_retention, mark_clip_used,
}
use cubby_clipboard.History.Names.{
  delete_clips-le, set_clips_pinned-le, toggle_clip_pin-le, clear_unpinned_clips-le,
  clear_all_clips-le, apply_retention-le, mark_clip_used-le,
}
use cubby_clipboard.History.Editing.{edited_clips, update_clip_text}
use cubby_clipboard.History.Edited.{edited_clips-le, edited_clips-same}

-- A capture or a command, with what its statements and the clock do.
pub data Action : Type 0 where
  captures : Settings → Environment → Snapshot → Action
  deletes : (String → Bool) → List String → Bool → Action
  pins : Bool → List String → Bool → Action
  toggles : Bool → String → Action
  edits : Bool → (List ℕ → Option (List ℕ)) → String → List ℕ → Action
  clears_unpinned : Bool → Action
  clears_all : Bool → Action
  retains : Policy → Bool → Action
  uses : Bool → ℕ → String → Bool → Action

module _ (p : Platform) where
  unfoldable pub perform : Action → CaptureState → CaptureState
  unfolding process_clipboard_snapshot delete_clips set_clips_pinned toggle_clip_pin
      update_clip_text clear_unpinned_clips clear_all_clips apply_retention mark_clip_used
  perform (captures settings env s) w = process_clipboard_snapshot p settings env s w
  perform (deletes fails ids hard_delete) w = (delete_clips fails ids hard_delete w).1
  perform (pins fails ids pinned) w = (set_clips_pinned fails ids pinned w).1
  perform (toggles fails id) w = (toggle_clip_pin fails id w).1
  perform (edits fails encrypt id text) w = (update_clip_text p fails encrypt id text w).1
  perform (clears_unpinned fails) w = (clear_unpinned_clips fails w).1
  perform (clears_all fails) w = (clear_all_clips fails w).1
  perform (retains policy fails) w = (apply_retention policy fails w).1
  perform (uses fails now id write_succeeded) w = mark_clip_used fails now id write_succeeded w

  -- The states that captures and commands lead to, in any order.
  pub data Reachable (w : CaptureState) : CaptureState → Type 0 where
    start : Reachable w w
    next : (a : Action) (w' : CaptureState) → Reachable w w' → Reachable w (perform a w')

-- Each identifier and each hash is of one clip at most.
pub record IsConsistent (w : CaptureState) : Type 0 where
  pub ids : (u : String) → IsUniqueId u w.clips
  pub hashes : (hash : String) → count_where (is_hash hash) w.clips ≤ 1

module _ (fails : Bool) (p : Platform) (encrypt : List ℕ → Option (List ℕ)) (id : String)
    (text : List ℕ) (w : CaptureState) where
  update_clip_text-IsConsistent :
      IsConsistent w → IsConsistent (update_clip_text p fails encrypt id text w).1
  unfolding update_clip_text reset_capture_dedup
  update_clip_text-IsConsistent good =
      elim (Option-cases (edited_clips p fails encrypt id text w.clips)) [
        | inl h ↦ rw (update_clip_text, h) good
        | inr (cs, h) ↦
            rw (update_clip_text, h)
              (record {
                ids = λ u.
                    subst (λ n. n ≤ 1)
                      (sym (edited_clips-same p encrypt id text w.clips fails cs u h)) (good.ids u);
                hashes = λ hash.
                    edited_clips-le p encrypt id text w.clips fails cs hash h (good.ids id)
                      (good.hashes hash);
              })
      ]

-- What never makes a name more frequent keeps the names apart.
fewer-IsConsistent :
    (w w' : CaptureState)
    → ((named : String → String → Bool) → named_count named w' ≤ named_count named w)
    → IsConsistent w
    → IsConsistent w'
fewer-IsConsistent w w' fewer good = record {
  ids = λ u. omega (arith, fewer (λ v h. str_eq v u), good.ids u);
  hashes = λ hash. omega (arith, fewer (λ v h. str_eq h hash), good.hashes hash);
}

module _ (p : Platform) where
  perform-IsConsistent :
      (a : Action) (w : CaptureState) → IsConsistent w → IsConsistent (perform p a w)
  unfolding perform
  perform-IsConsistent (captures settings env s) w good = record {
    ids = λ u. process_clipboard_snapshot-IsUniqueId p settings env s w u (good.ids u);
    hashes = λ hash. process_clipboard_snapshot-IsUnique p settings env s w hash (good.hashes hash);
  }
  perform-IsConsistent (deletes fails ids hard) w good =
      fewer-IsConsistent w _ (λ n. delete_clips-le n fails ids hard w) good
  perform-IsConsistent (pins fails ids pinned) w good =
      fewer-IsConsistent w _ (λ n. set_clips_pinned-le n fails ids pinned w) good
  perform-IsConsistent (toggles fails id) w good =
      fewer-IsConsistent w _ (λ n. toggle_clip_pin-le n fails id w) good
  perform-IsConsistent (edits fails encrypt id text) w good =
      update_clip_text-IsConsistent fails p encrypt id text w good
  perform-IsConsistent (clears_unpinned fails) w good =
      fewer-IsConsistent w _ (λ n. clear_unpinned_clips-le n fails w) good
  perform-IsConsistent (clears_all fails) w good =
      fewer-IsConsistent w _ (λ n. clear_all_clips-le n fails w) good
  perform-IsConsistent (retains policy fails) w good =
      fewer-IsConsistent w _ (λ n. apply_retention-le n policy fails w) good
  perform-IsConsistent (uses fails now id ok) w good =
      fewer-IsConsistent w _ (λ n. mark_clip_used-le n fails now id ok w) good

  -- Through every sequence of captures, deletions, pins, edits, clears, retentions and pastes, whatever
  -- statements fail, each identifier and each content hash stays on one clip at most.
  pub Reachable-IsConsistent :
      (w w' : CaptureState) → IsConsistent w → Reachable p w w' → IsConsistent w'
  Reachable-IsConsistent w w' good start = good
  Reachable-IsConsistent w w' good (next a w'' r) =
      perform-IsConsistent a w'' (Reachable-IsConsistent w w'' good r)
