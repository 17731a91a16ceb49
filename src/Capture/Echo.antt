-- ===== src/Capture/Echo.antt =====
-- The copy that Cubby itself makes when it relays a remote session, src-tauri/src/clipboard.rs.
use Prim.Native.String.{String}
use mathlib.Core.Path.{subst, ap₂}
use package.text.Mathlib.TextEquality.{eq_iff}
use cubby_clipboard.Prelude.{
  ℕ, ◌+◌, ◌≤◌, ◌≡◌, refl, sym, ap, ◌∙◌, inl, inr, true, false, List, Option, none, some, arith,
  Bool-cases,
}
use cubby_clipboard.ListenerEvent.{CapturedFormat, CapturedContent, text, image, captured_clip_hash}
use cubby_clipboard.ListenerEvent.Hashing.{StreamLaws, material_of, captured_clip_hash-material}
use cubby_clipboard.IgnoreHash.{
  IgnoreState, QueuedIgnore, ignore_hash_ttl, ignore_and_consume_self_paste, new_marker,
}
use cubby_clipboard.Capture.Gates.{Settings}
use cubby_clipboard.Capture.State.{Platform, Snapshot, Environment, CaptureState}
use cubby_clipboard.Capture.Relay.{
  relay_remote_capture, relayed_clip_hash, relayed_auxiliary_formats, calculate_hash, is_hash_of,
  set_ignore_hash,
}
use cubby_clipboard.Capture.{
  refuses, relays, maybe_relay, hash_of, self_paste, skips_consecutive, process_clipboard_snapshot,
}
use cubby_clipboard.Capture.Outcomes.{
  arrived, relayed, process-own, process-skipped, process-stored,
}
use cubby_clipboard.Capture.Target.{captured, dropped, store_capture-IsFinal}

module _ (p : Platform) (laws : StreamLaws p.hasher) where
  -- The hash that the relay arms is the one that a capture of what it wrote streams.
  relayed_clip_hash-captured :
      (content : CapturedContent) (formats : List CapturedFormat)
      → captured_clip_hash p.hasher content (relayed_auxiliary_formats p formats)
        ≡ relayed_clip_hash p content formats
  unfolding relayed_clip_hash calculate_hash material_of
  relayed_clip_hash-captured (text bytes preview hash) formats =
      captured_clip_hash-material p.hasher laws (text bytes preview hash)
        (relayed_auxiliary_formats p formats)
  relayed_clip_hash-captured (image png_bytes hash) formats =
      captured_clip_hash-material p.hasher laws (image png_bytes hash)
        (relayed_auxiliary_formats p formats)

module _ (p : Platform) (settings : Settings) (env : Environment) (s : Snapshot)
    (w : CaptureState) where
  -- A relay that is neither repeated nor failed arms the marker.
  relay_armed :
      (hash : String)
      → is_hash_of w.last_relayed_hash hash ≡ false
      → env.relay_fails ≡ false
      → (relay_remote_capture p env s hash w).ignore.marker
        ≡ some
            (new_marker
              (relayed_clip_hash p s.event.content s.event.formats)
              env.relayed_at
              w.next_generation).0
  unfolding relay_remote_capture set_ignore_hash
  relay_armed hash fresh fine = ground (arith, fresh, fine)

  maybe_relay-on :
      (hash : String)
      → relays p settings s ≡ true
      → maybe_relay p settings env s hash w ≡ relay_remote_capture p env s hash w
  unfolding maybe_relay
  maybe_relay-on hash on = rw (maybe_relay, on) refl

-- A live marker that holds the hash ignores it.
ignored_live :
    (state : IgnoreState) (queued : Option QueuedIgnore) (hash : String) (marked now generation : ℕ)
    → state.marker ≡ some (new_marker hash marked generation).0
    → marked ≤ now
    → now ≤ marked + ignore_hash_ttl
    → (ignore_and_consume_self_paste state queued hash now ignore_hash_ttl).0 ≡ true
unfolding ignore_and_consume_self_paste new_marker
ignored_live state queued hash marked now generation e after soon =
    ground (arith, e, after, soon, eq_iff hash hash)

module _ (p : Platform) (settings : Settings) (env : Environment) (s : Snapshot)
    (w : CaptureState) where
  -- Neither a skip nor the storing of the clip touches the marker.
  relayed_marker_kept :
      (self_paste p env s w).0 ≡ false
      → refuses p settings s ≡ false
      → (process_clipboard_snapshot p settings env s w).ignore ≡ (relayed p settings env s w).ignore
  relayed_marker_kept own passed =
      let sent = relayed p settings env s w in
      elim (Bool-cases (skips_consecutive p env s (hash_of p s) sent)) [
        | inl k ↦ ap (λ w. w.ignore) (process-skipped p settings env s w own passed k)
        | inr k ↦
            ap (λ w. w.ignore) (process-stored p settings env s w own passed k)
            ∙ elim (store_capture-IsFinal p settings env s (record sent { last_accepted = none })) [
              | captured id a b c d ↦ d
              | dropped q why ↦ q.marked
            ]
      ]

  -- When the listener captures what a relay wrote, within five seconds of the write, the copy changes
  -- nothing but the marker: it is neither stored again nor relayed again, whatever the settings.
  pub relay_echo_ignored :
      (laws : StreamLaws p.hasher) (later : Settings) (env' : Environment) (s' : Snapshot)
      → (self_paste p env s w).0 ≡ false
      → refuses p settings s ≡ false
      → relays p settings s ≡ true
      → env.relay_fails ≡ false
      → is_hash_of w.last_relayed_hash (hash_of p s) ≡ false
      → s'.event.content ≡ s.event.content
      → s'.event.formats ≡ relayed_auxiliary_formats p s.event.formats
      → env.relayed_at ≤ env'.checked_at
      → env'.checked_at ≤ env.relayed_at + ignore_hash_ttl
      → process_clipboard_snapshot p later env' s' (process_clipboard_snapshot p settings env s w)
        ≡ arrived p later env' s' (process_clipboard_snapshot p settings env s w)
  relay_echo_ignored laws later env' s' own passed on fine fresh content formats after soon =
      let came = arrived p settings env s w in
      let w' = process_clipboard_snapshot p settings env s w in
      let expected = relayed_clip_hash p s.event.content s.event.formats in
      let same : hash_of p s' ≡ expected =
        ap₂ (captured_clip_hash p.hasher) content formats
        ∙ relayed_clip_hash-captured p laws s.event.content s.event.formats in
      let armed =
        ap (λ i. i.marker)
          (relayed_marker_kept own passed
            ∙ ap (λ w. w.ignore) (maybe_relay-on p settings env s came (hash_of p s) on))
        ∙ relay_armed p settings env s came (hash_of p s) fresh fine in
      process-own p later env' s' w' (
        subst
          (λ h.
            (ignore_and_consume_self_paste w'.ignore s'.event.ignore h env'.checked_at
              ignore_hash_ttl).0
            ≡ true)
          (sym same)
          (ignored_live w'.ignore s'.event.ignore expected env.relayed_at env'.checked_at
            w.next_generation armed after soon))
