-- ===== src/Capture/Phases.antt =====
-- The ways that the storing of a capture takes, src-tauri/src/clipboard.rs.
use Prim.Native.String.{String}
use mathlib.Core.Path.{subst}
use cubby_clipboard.Prelude.{
  ◌≡◌, refl, sym, inl, inr, Bool, true, false, List, Option, none, some, if◌then◌else◌, Bool-cases,
  Option-cases,
}
use cubby_clipboard.ListenerEvent.{CapturedFormat}
use cubby_clipboard.ClipTable.{Clip, is_hash, select}
use cubby_clipboard.Capture.Gates.{Settings}
use cubby_clipboard.Capture.State.{Platform, Snapshot, Environment, CaptureState}
use cubby_clipboard.Capture.Storing.{
  Encrypted, row_error, storage_hash, encrypt_fields, encrypt_formats, write_existing, write_new,
  enqueue_ocr, replace_clip_formats,
}
use cubby_clipboard.Capture.{finish, roll_back, complete, store_capture}

module _ (p : Platform) (settings : Settings) (env : Environment) (s : Snapshot)
    (hash : String) where
  abbrev pub sealed_formats : Option (List CapturedFormat)
  sealed_formats = if env.formats_fail then none else encrypt_formats env.encrypt s.event.formats

  abbrev pub queued : String → CaptureState → CaptureState
  queued id w = record w { clips = enqueue_ocr env s id w.clips }

  abbrev pub formatted : List CapturedFormat → String → CaptureState → CaptureState
  formatted formats id w = record w {
    clips = replace_clip_formats formats id (enqueue_ocr env s id w.clips);
  }

  pub complete-unsealed :
      (inserted : Bool) (w : CaptureState) (id : String)
      → sealed_formats ≡ none
      → complete p settings env s hash inserted (w, some id)
        ≡ (if inserted then roll_back p env id (queued id w) else queued id w)
  unfolding complete
  complete-unsealed inserted w id h = rw (complete, h) refl

  pub complete-sealed :
      (inserted : Bool) (w : CaptureState) (id : String) (formats : List CapturedFormat)
      → sealed_formats ≡ some formats
      → complete p settings env s hash inserted (w, some id)
        ≡ finish p settings env s hash id (formatted formats id w)
  unfolding complete
  complete-sealed inserted w id formats h = rw (complete, h) refl

  module _ (w : CaptureState) where
    pub store-unencrypted :
        encrypt_fields p env s ≡ none → store_capture p settings env s hash w ≡ w
    unfolding store_capture
    store-unencrypted h = rw (store_capture, h) refl

    pub store-unselected :
        (e : Encrypted)
        → encrypt_fields p env s ≡ some e
        → env.select_fails ≡ true
        → store_capture p settings env s hash w ≡ row_error w s.event.sequence
    unfolding store_capture
    store-unselected e h f = rw (store_capture, h, f) refl

    pub store-new :
        (e : Encrypted)
        → encrypt_fields p env s ≡ some e
        → env.select_fails ≡ false
        → select (is_hash (storage_hash p s.event)) w.clips ≡ none
        → store_capture p settings env s hash w
          ≡ complete p settings env s hash true (write_new p env s e w)
    unfolding store_capture
    store-new e h f k = rw (store_capture, h, f, k) refl

    pub store-existing :
        (e : Encrypted) (row : Clip)
        → encrypt_fields p env s ≡ some e
        → env.select_fails ≡ false
        → select (is_hash (storage_hash p s.event)) w.clips ≡ some row
        → store_capture p settings env s hash w
          ≡ complete p settings env s hash false (write_existing p env s e row.columns.uuid w)
    unfolding store_capture
    store-existing e row h f k = rw (store_capture, h, f, k) refl

    -- What holds of the four ways holds of every storing.
    pub store-induction {ℓ} :
        (P : CaptureState → Type ℓ)
        → (encrypt_fields p env s ≡ none → P w)
        → (env.select_fails ≡ true → P (row_error w s.event.sequence))
        → ((e : Encrypted)
            → select (is_hash (storage_hash p s.event)) w.clips ≡ none
            → P (complete p settings env s hash true (write_new p env s e w)))
        → ((e : Encrypted) (row : Clip)
            → select (is_hash (storage_hash p s.event)) w.clips ≡ some row
            → P (
                complete p settings env s hash false (write_existing p env s e row.columns.uuid w)))
        → P (store_capture p settings env s hash w)
    store-induction P unchanged failed new existing = elim (Option-cases (encrypt_fields p env s)) [
      | inl h ↦ subst P (sym (store-unencrypted h)) (unchanged h)
      | inr (e, h) ↦ elim (Bool-cases env.select_fails) [
        | inl f ↦ subst P (sym (store-unselected e h f)) (failed f)
        | inr f ↦ elim (Option-cases (select (is_hash (storage_hash p s.event)) w.clips)) [
          | inl k ↦ subst P (sym (store-new e h f k)) (new e k)
          | inr (row, k) ↦ subst P (sym (store-existing e row h f k)) (existing e row k)
        ]
      ]
    ]
