-- ===== src/Capture/Clearing.antt =====
-- A capture of src-tauri/src/clipboard.rs and the clear of the clipboard after it.
use Prim.Native.String.{String}
use mathlib.Core.Path.{subst}
use cubby_clipboard.Prelude.{
  ℕ, ◌≡◌, refl, sym, ap, ◌∙◌, inl, inr, true, false, [], ◌∷◌, none, some, Bool-cases,
}
use mathlib.Core.Option.{some-injective, none-ne-some}
use cubby_clipboard.ForgetOnClear.{RecentCapture, ClipFlags, Store, process_clipboard_clear}
use cubby_clipboard.ForgetOnClear as Clear
use cubby_clipboard.ForgetOnClear.Safety.{process_clipboard_clear_forgets}
use cubby_clipboard.ClipTable.{is_uuid, select, flags_of}
use cubby_clipboard.Capture.Gates.{Settings}
use cubby_clipboard.Capture.State.{Platform, Snapshot, Environment, CaptureState}
use cubby_clipboard.Capture.{
  is_credential, scanned, recent_capture, refuses, hash_of, self_paste, process_clipboard_snapshot,
  store_capture, skips_consecutive,
}
use cubby_clipboard.Capture.Outcomes.{
  maybe_relay-accepted, maybe_relay-clips, maybe_relay-stable, maybe_relay-emitted, arrived,
  relayed, process-refused, process-stored, process-induction,
}
use cubby_clipboard.Capture.Target.{HasFailed, IsFinal, captured, dropped, store_capture-IsFinal}

-- What the statics hold after a capture, by the way that it took.
pub data IsRemembered (p : Platform) (settings : Settings) (env : Environment) (s : Snapshot)
    (w w' : CaptureState) : Type 0 where
  own_write :
      (self_paste p env s w).0 ≡ true
      → w'.last_accepted ≡ w.last_accepted
      → w'.clips ≡ w.clips
      → w'.emitted ≡ w.emitted
      → w'.last_stable_hash ≡ w.last_stable_hash
      → IsRemembered p settings env s w w'
  refused :
      (self_paste p env s w).0 ≡ false
      → refuses p settings s ≡ true
      → w'.last_accepted ≡ none
      → w'.clips ≡ w.clips
      → w'.emitted ≡ w.emitted
      → w'.last_stable_hash ≡ w.last_stable_hash
      → IsRemembered p settings env s w w'
  repeated :
      (self_paste p env s w).0 ≡ false
      → refuses p settings s ≡ false
      → skips_consecutive p env s (hash_of p s) (relayed p settings env s w) ≡ true
      → w'.last_accepted ≡ w.last_accepted
      → w'.clips ≡ w.clips
      → w'.emitted ≡ w.emitted
      → w'.last_stable_hash ≡ w.last_stable_hash
      → IsRemembered p settings env s w w'
  announced :
      (id : String)
      → (self_paste p env s w).0 ≡ false
      → refuses p settings s ≡ false
      → skips_consecutive p env s (hash_of p s) (relayed p settings env s w) ≡ false
      → w'.last_accepted ≡ some (recent_capture p env s id)
      → w'.emitted ≡ id ∷ w.emitted
      → w'.last_stable_hash ≡ some (hash_of p s)
      → IsRemembered p settings env s w w'
  failed :
      (self_paste p env s w).0 ≡ false
      → refuses p settings s ≡ false
      → skips_consecutive p env s (hash_of p s) (relayed p settings env s w) ≡ false
      → HasFailed p env s w.clips
      → w'.last_accepted ≡ none
      → w'.emitted ≡ w.emitted
      → w'.last_stable_hash ≡ w.last_stable_hash
      → IsRemembered p settings env s w w'

-- What the clear handler reads and writes.
abbrev pub clear_store : CaptureState → Store
clear_store w' = record {
  last_accepted = w'.last_accepted;
  clips = λ u. flags_of (select (is_uuid u) w'.clips);
  retries = [];
  forgotten = [];
}

module _ (p : Platform) (settings : Settings) (env : Environment) (s : Snapshot)
    (w : CaptureState) where
  final-IsRemembered :
      (w' : CaptureState)
      → (self_paste p env s w).0 ≡ false
      → refuses p settings s ≡ false
      → skips_consecutive p env s (hash_of p s) (relayed p settings env s w) ≡ false
      → IsFinal p env s w.clips (record (relayed p settings env s w) { last_accepted = none }) w'
      → IsRemembered p settings env s w w'
  final-IsRemembered w' own passed fresh f =
      let came = arrived p settings env s w in
      let emitted = maybe_relay-emitted p settings env s (hash_of p s) came in
      let stable = maybe_relay-stable p settings env s (hash_of p s) came in
      elim f [
        | captured id a b c d ↦ announced id own passed fresh a (b ∙ ap (λ l. id ∷ l) emitted) c
        | dropped q why ↦
            failed own passed fresh why q.accepted (q.announced ∙ emitted) (q.stable ∙ stable)
      ]

  -- A capture of Cubby's own write and a repeat of the last copy leave the target of the next clear,
  -- the clips and the last hash as they are. A refused copy leaves no target, and the clips and the
  -- last hash as they are. Any other copy either was announced, and then is the target and its hash the
  -- last one; or the encryption or a statement failed or the new identifier was in use, and then there
  -- is no target and the last hash is kept, so that the same copy is tried again.
  pub process_clipboard_snapshot-IsRemembered :
      IsRemembered p settings env s w (process_clipboard_snapshot p settings env s w)
  process_clipboard_snapshot-IsRemembered =
      let came = arrived p settings env s w in
      let sent = relayed p settings env s w in
      let hash = hash_of p s in
      process-induction p settings env s w (IsRemembered p settings env s w)
        (λ own. own_write own refl refl refl refl) (λ own r. refused own r refl refl refl refl)
        (λ own passed again.
          repeated own passed again (maybe_relay-accepted p settings env s hash came)
            (maybe_relay-clips p settings env s hash came)
            (maybe_relay-emitted p settings env s hash came)
            (maybe_relay-stable p settings env s hash came))
        (λ own passed fresh.
          let start = record sent { last_accepted = none } in
          let end = store_capture p settings env s hash start in
          final-IsRemembered end own passed fresh (
            subst (λ cs. IsFinal p env s cs start end)
              (maybe_relay-clips p settings env s hash came)
              (store_capture-IsFinal p settings env s start)))

  -- A copy that was not passed over leaves as the target no older clip.
  fresh_target :
      (self_paste p env s w).0 ≡ false
      → skips_consecutive p env s (hash_of p s) (relayed p settings env s w) ≡ false
      → (c : RecentCapture) → (process_clipboard_snapshot p settings env s w).last_accepted ≡ some c
      → ((process_clipboard_snapshot p settings env s w).emitted ≡ c.uuid ∷ w.emitted)
        × (c.credential_like ≡ is_credential (scanned p s.event.content))
  fresh_target own skipped c e = elim (Bool-cases (refuses p settings s)) [
    | inl r ↦ absurd (
        none-ne-some c
          (sym (ap (λ w. w.last_accepted) (process-refused p settings env s w own r)) ∙ e))
    | inr r ↦
        let path = process-stored p settings env s w own r skipped in
        let start = record (relayed p settings env s w) { last_accepted = none } in
        elim (store_capture-IsFinal p settings env s start) [
          | captured id a b d g ↦
              let same = some-injective _ c (sym a ∙ (ap (λ w. w.last_accepted) (sym path) ∙ e)) in
              let sent =
                maybe_relay-emitted p settings env s (hash_of p s) (arrived p settings env s w) in
              (
                ap (λ w. w.emitted) path
                    ∙ (b ∙ (ap (λ l. id ∷ l) sent ∙ ap (λ r. r.uuid ∷ w.emitted) same)),
                ap (λ r. r.credential_like) (sym same),
              )
          | dropped q why ↦
              absurd (none-ne-some c (sym q.accepted ∙ (ap (λ w. w.last_accepted) (sym path) ∙ e)))
        ]
  ]

  -- If the clipboard is cleared after a copy that was not passed over, and a clip is deleted by that
  -- clear, the clip is the one that this copy was announced as, and its content looks like a
  -- credential: an older clip is never deleted in place of a copy that was refused or that failed.
  pub clear_forgets_this_capture :
      (clearing : Clear.Environment) (n a : ℕ) (u : String) (f : ClipFlags)
      → (self_paste p env s w).0 ≡ false
      → skips_consecutive p env s (hash_of p s) (relayed p settings env s w) ≡ false
      → (clear_store (process_clipboard_snapshot p settings env s w)).clips u ≡ some f
      → (process_clipboard_clear clearing
            (clear_store (process_clipboard_snapshot p settings env s w))
            n
            a
            none).clips
          u
        ≡ none
      → ((process_clipboard_snapshot p settings env s w).emitted ≡ u ∷ w.emitted)
        × (is_credential (scanned p s.event.content) ≡ true)
  clear_forgets_this_capture clearing n a u f own skipped there gone =
      let after = clear_store (process_clipboard_snapshot p settings env s w) in
      let (on, free, (c, named, credential, (marker, before, within))) =
        process_clipboard_clear_forgets clearing after n a none u f there gone in
      let (told, like) = fresh_target own skipped c marker in
      (told ∙ ap (λ v. v ∷ w.emitted) named, sym like ∙ credential)
