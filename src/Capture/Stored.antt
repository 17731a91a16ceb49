-- ===== src/Capture/Stored.antt =====
-- The row that a capture without a failing statement stores, before the retention looks at it:
-- src-tauri/src/clipboard.rs and src-tauri/src/image_persist.rs.
use Prim.Native.String.{String}
use package.text.Mathlib.Text.{◌==◌ as str_eq}
use package.text.Mathlib.TextEquality.{eq_iff}
use cubby_clipboard.Prelude.{
  ℕ, ◌≡◌, refl, ap, ◌∙◌, Bool, true, false, not, ◌&&◌, ◌||◌, List, Option, none, some, arith,
  if◌then◌else◌,
}
use cubby_clipboard.ListenerEvent.{CapturedFormat}
use cubby_clipboard.ClipTable.{Clip, is_uuid, is_hash, select, update_where}
use cubby_clipboard.ClipTable.Rows.{
  IsUniqueId, select-update_where, select-satisfies, select-by_uuid, count-update, count-unselected,
}
use cubby_clipboard.Capture.Gates.{Settings}
use cubby_clipboard.Capture.State.{Platform, Snapshot, Environment, CaptureState}
use cubby_clipboard.Capture.Relay.{is_image}
use cubby_clipboard.Capture.Storing.{
  Encrypted, storage_hash, encrypt_fields, encrypt_formats, write_existing, write_new, enqueue_ocr,
  replace_clip_formats, touch, recapture, with_original, new_row, needs_text, reset_ocr,
}
use cubby_clipboard.Capture.{finish, complete, store_capture}
use cubby_clipboard.Capture.Phases.{formatted, complete-sealed, store-new, store-existing}
use cubby_clipboard.Capture.Uniqueness.{enqueue_ocr-same, write_existing-same, write_new-le}

-- No statement that stores the clip fails.
pub record IsFine (env : Environment) : Type 0 where
  pub select_fine : env.select_fails ≡ false
  pub recapture_fine : env.recapture_fails ≡ false
  pub update_fine : env.update_fails ≡ false
  pub insert_fine : env.insert_fails ≡ false
  pub persist_fine : env.persist_fails ≡ false
  pub index_fine : env.index_fails ≡ false
  pub formats_fine : env.formats_fail ≡ false

-- The row as the queue of recognition and the formats leave it.
abbrev pub settled : Environment → Snapshot → List CapturedFormat → String → Clip → Clip
settled env s formats id c =
    let queues = not (not (is_image s.event.content) || env.enqueue_fails) in
    record (if queues && needs_text id c then reset_ocr c else c) { formats = formats }

module _ (p : Platform) (settings : Settings) (env : Environment) (s : Snapshot) where
  abbrev pub rewritten : Encrypted → Clip → Clip
  rewritten e c = if is_image s.event.content then recapture p env e c else touch p env e c

  abbrev pub inserted : Encrypted → ℕ → Clip
  inserted e id =
      let row = new_row p env s e id in
      if is_image s.event.content then with_original p row else row

  write_existing-row :
      (e : Encrypted) (c : Clip) (w : CaptureState)
      → IsFine env
      → select (is_uuid c.columns.uuid) w.clips ≡ some c
      → ((write_existing p env s e c.columns.uuid w).1 ≡ some c.columns.uuid)
        × (select (is_uuid c.columns.uuid) (write_existing p env s e c.columns.uuid w).0.clips
            ≡ some (rewritten e c))
  unfolding write_existing
  write_existing-row e c w fine there =
      let u = c.columns.uuid in
      let pictured =
        select-update_where u (is_uuid u) (recapture p env e) w.clips c (λ d. refl) there in
      let plain = select-update_where u (is_uuid u) (touch p env e) w.clips c (λ d. refl) there in
      ground (arith, fine, pictured, plain, eq_iff u u)

  write_new-row :
      (e : Encrypted) (w : CaptureState)
      → IsFine env
      → select (is_uuid env.new_uuid) w.clips ≡ none
      → ((write_new p env s e w).1 ≡ some env.new_uuid)
        × (select (is_uuid env.new_uuid) (write_new p env s e w).0.clips
            ≡ some (inserted e w.next_id))
  unfolding write_new select update_where
  write_new-row e w fine free = ground (arith, fine, free, eq_iff env.new_uuid env.new_uuid)

  enqueue_ocr-row :
      (id : String) (c : Clip) (cs : List Clip)
      → select (is_uuid id) cs ≡ some c
      → select (is_uuid id) (enqueue_ocr env s id cs)
        ≡ some (
            if not (not (is_image s.event.content) || env.enqueue_fails) && needs_text id c
            then reset_ocr c
            else c)
  unfolding enqueue_ocr
  enqueue_ocr-row id c cs there =
      ground (arith, there, select-update_where id (needs_text id) reset_ocr cs c (λ d. refl) there)

  formatted-row :
      (hash : String) (formats : List CapturedFormat) (id : String) (c : Clip) (w : CaptureState)
      → select (is_uuid id) w.clips ≡ some c
      → select (is_uuid id) (formatted p settings env s hash formats id w).clips
        ≡ some (settled env s formats id c)
  unfolding replace_clip_formats
  formatted-row hash formats id c w there =
      let queues = not (not (is_image s.event.content) || env.enqueue_fails) in
      let d = if queues && needs_text id c then reset_ocr c else c in
      let set : Clip → Clip = λ x. record x { formats = formats } in
      let same : is_uuid id d ≡ true =
        ground (arith, select-satisfies (is_uuid id) w.clips c there) in
      select-update_where id (is_uuid id) set (enqueue_ocr env s id w.clips) d (λ x. refl)
        (enqueue_ocr-row id c w.clips there)
      ∙ rw same refl

  formatted-IsUniqueId :
      (hash : String) (formats : List CapturedFormat) (id u : String) (w : CaptureState)
      → IsUniqueId u w.clips
      → IsUniqueId u (formatted p settings env s hash formats id w).clips
  unfolding replace_clip_formats
  formatted-IsUniqueId hash formats id u w one =
      let set : Clip → Clip = λ x. record x { formats = formats } in
      omega (
        arith,
        one,
        count-update (is_uuid u) (is_uuid id) set (enqueue_ocr env s id w.clips) (λ x. refl),
        enqueue_ocr-same (λ v h. str_eq v u) p settings env s id w.clips,
      )

  -- A capture that comes to its retention: at this state, whose row of this identifier is this.
  pub record IsReady (hash id : String) (c : Clip) (w' : CaptureState) : Type 0 where
    pub start : CaptureState
    pub finishes : w' ≡ finish p settings env s hash id start
    pub row : select (is_uuid id) start.clips ≡ some c
    pub unique : IsUniqueId id start.clips

  -- Once the row is written, the rest follows.
  written-IsReady :
      (hash : String) (formats : List CapturedFormat) (fresh : Bool) (id : String) (c : Clip)
      (w w' : CaptureState) (outcome : Option String)
      → IsFine env
      → encrypt_formats env.encrypt s.event.formats ≡ some formats
      → outcome ≡ some id
      → select (is_uuid id) w.clips ≡ some c
      → IsUniqueId id w.clips
      → w' ≡ complete p settings env s hash fresh (w, outcome)
      → IsReady hash id (settled env s formats id c) w'
  written-IsReady hash formats fresh id c w w' outcome fine coded wrote there one ends = record {
    start = formatted p settings env s hash formats id w;
    finishes =
        ends
        ∙ (ap (λ o. complete p settings env s hash fresh (w, o)) wrote
            ∙ complete-sealed p settings env s hash fresh w id formats
                (ground (arith, fine.formats_fine, coded)));
    row = formatted-row hash formats id c w there;
    unique = formatted-IsUniqueId hash formats id id w one;
  }

  -- A copy that is stored already.
  pub existing-IsReady :
      (hash : String) (e : Encrypted) (formats : List CapturedFormat) (c : Clip) (w : CaptureState)
      → IsFine env
      → encrypt_fields p env s ≡ some e
      → encrypt_formats env.encrypt s.event.formats ≡ some formats
      → IsUniqueId c.columns.uuid w.clips
      → select (is_hash (storage_hash p s.event)) w.clips ≡ some c
      → IsReady hash c.columns.uuid
          (settled env s formats c.columns.uuid (rewritten e c))
          (store_capture p settings env s hash w)
  existing-IsReady hash e formats c w fine sealed coded one found =
      let u = c.columns.uuid in
      let there = select-by_uuid (is_hash (storage_hash p s.event)) w.clips c one found in
      let (done, row) = write_existing-row e c w fine there in
      let written = write_existing p env s e u w in
      written-IsReady hash formats false u (rewritten e c) written.0 _ written.1 fine coded done row
        (omega (arith, one, write_existing-same (λ v h. str_eq v u) p settings env s e u w))
        (store-existing p settings env s hash w e c sealed fine.select_fine found)

  -- A copy that is not.
  pub new-IsReady :
      (hash : String) (e : Encrypted) (formats : List CapturedFormat) (w : CaptureState)
      → IsFine env
      → encrypt_fields p env s ≡ some e
      → encrypt_formats env.encrypt s.event.formats ≡ some formats
      → select (is_uuid env.new_uuid) w.clips ≡ none
      → select (is_hash (storage_hash p s.event)) w.clips ≡ none
      → IsReady hash env.new_uuid
          (settled env s formats env.new_uuid (inserted e w.next_id))
          (store_capture p settings env s hash w)
  new-IsReady hash e formats w fine sealed coded free absent =
      let u = env.new_uuid in
      let (done, row) = write_new-row e w fine free in
      let written = write_new p env s e w in
      let none_yet = count-unselected (is_uuid u) w.clips free in
      written-IsReady hash formats true u (inserted e w.next_id) written.0 _ written.1 fine coded
        done row
        (write_new-le (λ v h. str_eq v u) p settings env s e w (λ f t. none_yet)
          (omega (arith, none_yet)))
        (store-new p settings env s hash w e sealed fine.select_fine absent)
