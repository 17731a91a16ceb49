-- ===== src/History/Cleared.antt =====
-- What clearing and deleting leave, src-tauri/src/commands.rs, and the copy after it.
use Prim.Native.String.{String}
use package.text.Mathlib.Text.{◌==◌ as str_eq}
use cubby_clipboard.Prelude.{
  ℕ, ◌≡◌, refl, ◌∙◌, Bool, true, false, not, ◌&&◌, List, [], ◌∷◌, none, some, arith, length, ◌+◌,
  if◌then◌else◌,
}
use cubby_clipboard.ListenerEvent.{CapturedFormat}
use cubby_clipboard.ClipTable.{Clip, is_uuid, select, delete_where, count_where}
use cubby_clipboard.Capture.Gates.{Settings}
use cubby_clipboard.Capture.State.{Platform, Snapshot, Environment, CaptureState}
use cubby_clipboard.Capture.Storing.{Encrypted, encrypt_fields, encrypt_formats}
use cubby_clipboard.Capture.{
  refuses, self_paste, hash_of, skips_consecutive, reset_capture_dedup, process_clipboard_snapshot,
}
use cubby_clipboard.Capture.Outcomes.{maybe_relay-stable, arrived, relayed}
use cubby_clipboard.Capture.Stored.{IsFine}
use cubby_clipboard.Capture.Kept.{IsCaptured, process_clipboard_snapshot-IsCaptured}
use cubby_clipboard.History.{delete_clip, is_cleared, clear_clips_in_pool, clear_unpinned_clips}
use cubby_clipboard.History.Steps.{IsConsistent}
use cubby_clipboard.History.Names.{delete_clip-le}

-- A clip that a clear keeps.
abbrev pub is_kept : Clip → Bool
is_kept c = c.is_pinned && not c.columns.is_deleted

abbrev pub kept : List Clip → List Clip
kept [] = []
kept (c ∷ cs) = let rest = kept cs in if is_kept c then c ∷ rest else rest

delete_cleared-kept : (cs : List Clip) → delete_where (is_cleared true) cs ≡ kept cs
unfolding delete_where
delete_cleared-kept [] = refl
delete_cleared-kept (c ∷ cs) = ground (arith, delete_cleared-kept cs)

count_cleared-kept :
    (cs : List Clip) → count_where (is_cleared true) cs + length (kept cs) ≡ length cs
unfolding count_where
count_cleared-kept [] = refl
count_cleared-kept (c ∷ cs) = ground (arith, count_cleared-kept cs)

-- A clear that succeeds keeps the live pinned clips, as they were and in their order, and nothing
-- else, also if there are none; it returns how many clips went, and the next copy is not taken for a
-- repeat. One that fails changes nothing.
pub clear_unpinned_clips_keeps :
    (w : CaptureState)
    → ((clear_unpinned_clips false w).1.clips ≡ kept w.clips)
      × ((clear_unpinned_clips false w).1.last_stable_hash ≡ none)
      × ((n : ℕ) × ((clear_unpinned_clips false w).0 ≡ some n)
          × (n + length (kept w.clips) ≡ length w.clips))
      × (clear_unpinned_clips true w ≡ (none, w))
unfolding clear_unpinned_clips clear_clips_in_pool reset_capture_dedup
clear_unpinned_clips_keeps w =
    let same = delete_cleared-kept w.clips in
    let total = count_cleared-kept w.clips in
    (ground (arith, same), ground arith, (count_where (is_cleared true) w.clips, refl, total), refl)

delete_clip-stable :
    (fails : Bool) (id : String) (hard : Bool) (w : CaptureState)
    → (delete_clip fails id hard w).0 ≡ true
    → (delete_clip fails id hard w).1.last_stable_hash ≡ none
unfolding delete_clip reset_capture_dedup
delete_clip-stable fails id hard w done = ground (arith, done)

skips_consecutive-fresh :
    (p : Platform) (env : Environment) (s : Snapshot) (hash : String) (w : CaptureState)
    → w.last_stable_hash ≡ none
    → skips_consecutive p env s hash w ≡ false
unfolding skips_consecutive
skips_consecutive-fresh p env s hash w fresh = ground (arith, fresh)

-- After a clip was deleted, softly or not, copying content that passes the gates is never taken for a
-- repeat: if no statement fails, the encryption succeeds, a new identifier is free and the settings
-- keep every clip, it is stored as a live clip.
pub deleted_recopied :
    (p : Platform) (settings : Settings) (env : Environment) (s : Snapshot) (w : CaptureState)
    (fails : Bool) (id : String) (hard : Bool) (e : Encrypted) (formats : List CapturedFormat)
    → IsConsistent w
    → (delete_clip fails id hard w).0 ≡ true
    → IsFine env
    → settings.max_items ≡ 0
    → settings.auto_delete_days ≡ 0
    → encrypt_fields p env s ≡ some e
    → encrypt_formats env.encrypt s.event.formats ≡ some formats
    → select (is_uuid env.new_uuid) (delete_clip fails id hard w).1.clips ≡ none
    → (self_paste p env s (delete_clip fails id hard w).1).0 ≡ false
    → refuses p settings s ≡ false
    → IsCaptured p settings env s
        (delete_clip fails id hard w).1
        formats
        (process_clipboard_snapshot p settings env s (delete_clip fails id hard w).1)
deleted_recopied p settings env s w fails id hard e formats good done fine uncapped forever sealed
      coded free own passed =
    let w' = (delete_clip fails id hard w).1 in
    let forgot =
      maybe_relay-stable p settings env s (hash_of p s) (arrived p settings env s w')
      ∙ delete_clip-stable fails id hard w done in
    process_clipboard_snapshot-IsCaptured p settings env s w' e formats fine uncapped forever sealed
      coded (λ u. omega (arith, good.ids u, delete_clip-le (λ v h. str_eq v u) fails id hard w))
      free own passed
      (skips_consecutive-fresh p env s (hash_of p s) (relayed p settings env s w') forgot)
