-- ===== src/Capture/Kept.antt =====
-- The clip that a capture without a failing statement leaves after the retention,
-- src-tauri/src/clipboard.rs.
use Prim.Native.String.{String}
use mathlib.Core.Path.{subst}
use package.text.Mathlib.TextEquality.{eq_iff}
use cubby_clipboard.Prelude.{
  ℕ, ◌≡◌, ◌≢◌, refl, sym, ap, ◌∙◌, inl, inr, Bool, true, false, ◌&&◌, List, none, some, arith,
  if◌then◌else◌, Option-cases,
}
use cubby_clipboard.OcrQueue.{has_text}
use cubby_clipboard.ListenerEvent.{CapturedFormat}
use cubby_clipboard.ClipTable.{Clip, is_uuid, is_hash, select}
use cubby_clipboard.ClipTable.Rows.{IsUniqueId, select-satisfies}
use cubby_clipboard.Retention.{
  Policy, is_completed, is_preserved, is_swept, overflow, expire, enforce_retention_in_pool,
}
use cubby_clipboard.Retention.Kept.{untouched, recognized_stays}
use cubby_clipboard.Capture.Gates.{Settings}
use cubby_clipboard.Capture.State.{Platform, Snapshot, Environment, CaptureState}
use cubby_clipboard.Capture.Relay.{is_image}
use cubby_clipboard.Capture.Storing.{Encrypted, storage_hash, encrypt_fields, encrypt_formats}
use cubby_clipboard.Capture.{
  retain, finish, recent_capture, retention_policy, refuses, hash_of, self_paste, skips_consecutive,
  process_clipboard_snapshot,
}
use cubby_clipboard.Capture.Outcomes.{maybe_relay-clips, arrived, relayed, process-stored}
use cubby_clipboard.Capture.Stored.{
  IsFine, IsReady, settled, rewritten, inserted, existing-IsReady, new-IsReady,
}

enforced :
    (policy : Policy) (fails : Bool) (cs : List Clip)
    → fails ≡ false
    → enforce_retention_in_pool policy fails cs ≢ none
unfolding enforce_retention_in_pool
enforced policy fails cs fine h = absurd (ground (arith, fine, h))

module _ (p : Platform) (settings : Settings) (env : Environment) (s : Snapshot) where
  policy_free_unswept :
      (over : List String) (c : Clip)
      → settings.max_items ≡ 0
      → settings.auto_delete_days ≡ 0
      → c.columns.is_deleted ≡ false
      → (is_preserved (retention_policy p settings env) over c ≡ false)
        × (is_swept (retention_policy p settings env) over c ≡ false)
  unfolding is_preserved is_swept
  policy_free_unswept over c uncapped forever live = ground (arith, uncapped, forever, live)

  -- Without a cap and without a number of days, a live clip stays.
  finish_keeps :
      (hash id : String) (c : Clip) (w : CaptureState)
      → settings.max_items ≡ 0
      → settings.auto_delete_days ≡ 0
      → IsUniqueId id w.clips
      → select (is_uuid id) w.clips ≡ some c
      → c.columns.is_deleted ≡ false
      → select (is_uuid id) (finish p settings env s hash id w).clips ≡ some c
  unfolding finish retain
  finish_keeps hash id c w uncapped forever one there live =
      let policy = retention_policy p settings env in
      let fails = env.retention_fails in
      elim (Option-cases (enforce_retention_in_pool policy fails w.clips)) [
        | inl h ↦ ground (arith, h, there)
        | inr (out, h) ↦
            let (unkept, unswept) =
              policy_free_unswept (overflow policy w.clips) c uncapped forever live in
            ground (arith, h, untouched policy fails id w.clips c out one there unkept unswept h)
      ]

  -- A live image whose text is known loses its original if it is beyond the days.
  pub finish_expires :
      (hash id : String) (c : Clip) (w : CaptureState)
      → env.retention_fails ≡ false
      → IsUniqueId id w.clips
      → select (is_uuid id) w.clips ≡ some c
      → c.columns.is_deleted ≡ false
      → c.columns.is_image ≡ true
      → is_completed c.columns.ocr_status ≡ true
      → has_text c.columns ≡ true
      → is_preserved
          (retention_policy p settings env)
          (overflow (retention_policy p settings env) w.clips)
          c
        ≡ true
      → select (is_uuid id) (finish p settings env s hash id w).clips ≡ some (expire c)
  unfolding finish retain
  finish_expires hash id c w fine one there live image completed text kept =
      let policy = retention_policy p settings env in
      let fails = env.retention_fails in
      elim (Option-cases (enforce_retention_in_pool policy fails w.clips)) [
        | inl h ↦ absurd (enforced policy fails w.clips fine h)
        | inr (out, h) ↦ ground (
          arith,
          h,
          kept,
          recognized_stays policy fails id w.clips c out one there live image completed text h,
        )
      ]

-- The row that a capture of this content is stored under: live, with these formats, and an image has
-- its original.
pub record IsStored (p : Platform) (s : Snapshot) (formats : List CapturedFormat) (c : Clip)
    : Type 0 where
  pub live : c.columns.is_deleted ≡ false
  pub hashed : c.content_hash ≡ storage_hash p s.event
  pub formatted : c.formats ≡ formats
  pub backed :
      (if is_image s.event.content
        then c.columns.file_path
        else some (p.original_path c.columns.uuid))
      ≡ some (p.original_path c.columns.uuid)
  pub restored : (is_image s.event.content && c.full_image_expired) ≡ false

module _ (p : Platform) (settings : Settings) (env : Environment) (s : Snapshot) (e : Encrypted)
    (formats : List CapturedFormat) where
  rewritten-IsStored :
      (id : String) (c : Clip)
      → c.content_hash ≡ storage_hash p s.event
      → IsStored p s formats (settled env s formats id (rewritten p settings env s e c))
  rewritten-IsStored id c same = ground (arith, same)

  inserted-IsStored :
      (id : String) (n : ℕ)
      → IsStored p s formats (settled env s formats id (inserted p settings env s e n))
  inserted-IsStored id n = ground arith

finish-accepted :
    (p : Platform) (settings : Settings) (env : Environment) (s : Snapshot) (hash id : String)
    (w : CaptureState)
    → (finish p settings env s hash id w).last_accepted ≡ some (recent_capture p env s id)
unfolding finish
finish-accepted p settings env s hash id w = refl

module _ (p : Platform) (settings : Settings) (env : Environment) (s : Snapshot)
    (w : CaptureState) where
  -- The clip that a capture left, and that it is the target of the next clear.
  pub record IsCaptured (formats : List CapturedFormat) (w' : CaptureState) : Type 0 where
    pub id : String
    pub clip : Clip
    pub there : select (is_uuid id) w'.clips ≡ some clip
    pub stored : IsStored p s formats clip
    pub target : w'.last_accepted ≡ some (recent_capture p env s id)

  ready-IsCaptured :
      (formats : List CapturedFormat) (hash id : String) (c : Clip) (w' : CaptureState)
      → settings.max_items ≡ 0
      → settings.auto_delete_days ≡ 0
      → IsStored p s formats c
      → IsReady p settings env s hash id c w'
      → IsCaptured formats w'
  ready-IsCaptured formats hash id c w' uncapped forever stored ready = record {
    id = id;
    clip = c;
    there =
        ap (λ w. select (is_uuid id) w.clips) ready.finishes
        ∙ finish_keeps p settings env s hash id c ready.start uncapped forever ready.unique
            ready.row stored.live;
    stored = stored;
    target =
        ap (λ w. w.last_accepted) ready.finishes
        ∙ finish-accepted p settings env s hash id ready.start;
  }

  -- A copy that passes the gates and is no repeat is stored, if no statement fails, the encryption
  -- succeeds, a new identifier is free and the settings keep every clip: afterwards there is a live
  -- clip with its hash and its formats, an image with its original even if that had expired, and the
  -- clip is the target of the next clear.
  pub process_clipboard_snapshot-IsCaptured :
      (e : Encrypted) (formats : List CapturedFormat)
      → IsFine env
      → settings.max_items ≡ 0
      → settings.auto_delete_days ≡ 0
      → encrypt_fields p env s ≡ some e
      → encrypt_formats env.encrypt s.event.formats ≡ some formats
      → ((u : String) → IsUniqueId u w.clips)
      → select (is_uuid env.new_uuid) w.clips ≡ none
      → (self_paste p env s w).0 ≡ false
      → refuses p settings s ≡ false
      → skips_consecutive p env s (hash_of p s) (relayed p settings env s w) ≡ false
      → IsCaptured formats (process_clipboard_snapshot p settings env s w)
  process_clipboard_snapshot-IsCaptured e formats fine uncapped forever sealed coded unique free own
        passed new =
      let hash = hash_of p s in
      let came = record (relayed p settings env s w) { last_accepted = none } in
      let back : came.clips ≡ w.clips =
        maybe_relay-clips p settings env s hash (arrived p settings env s w) in
      subst (IsCaptured formats) (sym (process-stored p settings env s w own passed new))
        (elim (Option-cases (select (is_hash (storage_hash p s.event)) came.clips)) [
          | inl absent ↦
              ready-IsCaptured formats hash env.new_uuid _ _ uncapped forever
                (inserted-IsStored p settings env s e formats env.new_uuid came.next_id)
                (new-IsReady p settings env s hash e formats came fine sealed coded
                  (ap (select (is_uuid env.new_uuid)) back ∙ free) absent)
          | inr (c, found) ↦
              ready-IsCaptured formats hash c.columns.uuid _ _ uncapped forever
                (rewritten-IsStored p settings env s e formats c.columns.uuid c (
                  ground (
                    arith,
                    select-satisfies (is_hash (storage_hash p s.event)) came.clips c found,
                    eq_iff c.content_hash (storage_hash p s.event),
                  )))
                (existing-IsReady p settings env s hash e formats c came fine sealed coded
                  (subst (IsUniqueId c.columns.uuid) (sym back) (unique c.columns.uuid)) found)
        ])
