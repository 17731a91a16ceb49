-- ===== src/Capture/Outcomes.antt =====
-- The ways that a capture of src-tauri/src/clipboard.rs takes.
use Prim.Native.String.{String}
use mathlib.Core.Path.{subst}
use cubby_clipboard.Prelude.{◌≡◌, refl, sym, inl, inr, true, false, none, arith, Bool-cases}
use cubby_clipboard.Capture.Gates.{Settings}
use cubby_clipboard.Capture.State.{Platform, Snapshot, Environment, CaptureState}
use cubby_clipboard.Capture.Relay.{
  relay_remote_capture, set_ignore_hash, clear_ignore_hash_if_matches,
}
use cubby_clipboard.Capture.{
  refuses, discard_clear_target, maybe_relay, skips_consecutive, store_capture, accept, hash_of,
  self_paste, process_clipboard_snapshot,
}

module _ (p : Platform) (settings : Settings) (env : Environment) (s : Snapshot) where
  -- A relay leaves the table, the index and the target of a clear alone.
  pub maybe_relay-clips :
      (hash : String) (w : CaptureState) → (maybe_relay p settings env s hash w).clips ≡ w.clips
  unfolding maybe_relay relay_remote_capture set_ignore_hash clear_ignore_hash_if_matches
  maybe_relay-clips hash w = ground arith

  pub maybe_relay-accepted :
      (hash : String) (w : CaptureState)
      → (maybe_relay p settings env s hash w).last_accepted ≡ w.last_accepted
  unfolding maybe_relay relay_remote_capture set_ignore_hash clear_ignore_hash_if_matches
  maybe_relay-accepted hash w = ground arith

  pub maybe_relay-stable :
      (hash : String) (w : CaptureState)
      → (maybe_relay p settings env s hash w).last_stable_hash ≡ w.last_stable_hash
  unfolding maybe_relay relay_remote_capture set_ignore_hash clear_ignore_hash_if_matches
  maybe_relay-stable hash w = ground arith

  pub maybe_relay-emitted :
      (hash : String) (w : CaptureState) → (maybe_relay p settings env s hash w).emitted ≡ w.emitted
  unfolding maybe_relay relay_remote_capture set_ignore_hash clear_ignore_hash_if_matches
  maybe_relay-emitted hash w = ground arith

  module _ (w : CaptureState) where
    -- The state once the marker is checked.
    abbrev pub arrived : CaptureState
    arrived = record w { ignore = (self_paste p env s w).1 }

    abbrev pub relayed : CaptureState
    relayed = maybe_relay p settings env s (hash_of p s) arrived

    pub process-own :
        (self_paste p env s w).0 ≡ true → process_clipboard_snapshot p settings env s w ≡ arrived
    unfolding process_clipboard_snapshot
    process-own h = rw h refl

    pub process-refused :
        (self_paste p env s w).0 ≡ false
        → refuses p settings s ≡ true
        → process_clipboard_snapshot p settings env s w ≡ record arrived { last_accepted = none }
    unfolding process_clipboard_snapshot discard_clear_target
    process-refused h r = rw (h, r) refl

    pub process-skipped :
        (self_paste p env s w).0 ≡ false
        → refuses p settings s ≡ false
        → skips_consecutive p env s (hash_of p s) relayed ≡ true
        → process_clipboard_snapshot p settings env s w ≡ relayed
    unfolding process_clipboard_snapshot accept
    process-skipped h r k = rw (h, r, k) refl

    pub process-stored :
        (self_paste p env s w).0 ≡ false
        → refuses p settings s ≡ false
        → skips_consecutive p env s (hash_of p s) relayed ≡ false
        → process_clipboard_snapshot p settings env s w
          ≡ store_capture p settings env s (hash_of p s) (record relayed { last_accepted = none })
    unfolding process_clipboard_snapshot accept discard_clear_target
    process-stored h r k = rw (h, r, k) refl

    -- What holds of each of the four ways, when it is taken, holds of every capture.
    pub process-induction {ℓ} :
        (P : CaptureState → Type ℓ)
        → ((self_paste p env s w).0 ≡ true → P arrived)
        → ((self_paste p env s w).0 ≡ false
            → refuses p settings s ≡ true
            → P (record arrived { last_accepted = none }))
        → ((self_paste p env s w).0 ≡ false
            → refuses p settings s ≡ false
            → skips_consecutive p env s (hash_of p s) relayed ≡ true
            → P relayed)
        → ((self_paste p env s w).0 ≡ false
            → refuses p settings s ≡ false
            → skips_consecutive p env s (hash_of p s) relayed ≡ false
            → P (
                store_capture p settings env s
                  (hash_of p s)
                  (record relayed { last_accepted = none })))
        → P (process_clipboard_snapshot p settings env s w)
    process-induction P own refused skipped stored = elim (Bool-cases (self_paste p env s w).0) [
      | inl h ↦ subst P (sym (process-own h)) (own h)
      | inr h ↦ elim (Bool-cases (refuses p settings s)) [
        | inl r ↦ subst P (sym (process-refused h r)) (refused h r)
        | inr r ↦ elim (Bool-cases (skips_consecutive p env s (hash_of p s) relayed)) [
          | inl k ↦ subst P (sym (process-skipped h r k)) (skipped h r k)
          | inr k ↦ subst P (sym (process-stored h r k)) (stored h r k)
        ]
      ]
    ]
