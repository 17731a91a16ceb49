-- ===== src/Capture/Storing.antt =====
-- The statements of `process_clipboard_snapshot` of src-tauri/src/clipboard.rs that store a clip, and
-- `apply_existing_image_recapture` of src-tauri/src/image_persist.rs. The files of the originals are
-- in FileReplace: here a step that fails stands for any of its causes.
use Prim.Native.String.{String}
use cubby_clipboard.Prelude.{
  ℕ, ◌+◌, Bool, false, not, ◌&&◌, ◌||◌, List, [], ◌∷◌, Option, none, some, if◌then◌else◌,
}
use cubby_clipboard.OcrQueue.{pending, has_text, reset_to_pending}
use cubby_clipboard.ListenerEvent.{
  CapturedFormat, ClipboardSnapshot, CapturedContent, text, image, build_clip_hash_material,
}
use cubby_clipboard.ClipTable.{Clip, is_uuid, select, update_where, delete_where, count_where}
use cubby_clipboard.Capture.State.{Platform, Snapshot, Environment, CaptureState}
use cubby_clipboard.Capture.Relay.{is_image, primary, type_name}

infixl 5 ◌>>=◌
abbrev ◌>>=◌ {ℓ κ} : {A : Type ℓ} {B : Type κ} → Option A → (A → Option B) → Option B
none >>= f = none
some a >>= f = f a

-- The encrypted columns.
pub record Encrypted : Type 0 where
  pub content : List ℕ
  pub preview : List ℕ
  pub source_app : Option (List ℕ)
  pub source_icon : Option (List ℕ)
  pub metadata : Option (List ℕ)

abbrev pub encrypt_optional_text :
    (List ℕ → Option (List ℕ)) → Option (List ℕ) → Option (Option (List ℕ))
encrypt_optional_text encrypt none = some none
encrypt_optional_text encrypt (some t) = do e ← encrypt t; some (some e)

-- b"[Image]"
abbrev pub image_label : List ℕ
image_label = 91 ∷ b'I' ∷ b'm' ∷ b'a' ∷ b'g' ∷ b'e' ∷ 93 ∷ []

abbrev pub clip_preview : CapturedContent → List ℕ
clip_preview (text bytes preview hash) = preview
clip_preview (image png_bytes hash) = image_label

abbrev pub names : List CapturedFormat → List (List ℕ)
names [] = []
names (f ∷ fs) = f.name ∷ names fs

abbrev pub or_nothing : Option (List ℕ) → List ℕ
or_nothing none = []
or_nothing (some bytes) = bytes

abbrev pub row_error : CaptureState → ℕ → CaptureState
row_error w sequence = record w { last_error = some sequence }

-- `encrypt` on each format.
unfoldable pub encrypt_formats :
    (List ℕ → Option (List ℕ)) → List CapturedFormat → Option (List CapturedFormat)
encrypt_formats encrypt [] = some []
encrypt_formats encrypt (f ∷ fs) = do
  content ← encrypt f.content
  rest ← encrypt_formats encrypt fs
  some (record { name = f.name; content = content } ∷ rest)

module _ (p : Platform) where
  unfoldable pub clip_content : CapturedContent → List ℕ
  clip_content (text bytes preview hash) = bytes
  clip_content (image png_bytes hash) = or_nothing (p.create_image_preview png_bytes)

  unfoldable pub metadata_of : ClipboardSnapshot → CapturedContent → Option (List ℕ)
  metadata_of event (image png_bytes hash) = some (p.image_metadata event)
  metadata_of event (text bytes preview hash) = elim event.formats [
    | [] ↦ none
    | f ∷ fs ↦ some (p.formats_metadata (names (f ∷ fs)))
  ]

  unfoldable pub storage_hash : ClipboardSnapshot → String
  unfolding build_clip_hash_material
  storage_hash event = p.keyed_hash (
      build_clip_hash_material (type_name event.content) (is_image event.content)
        (primary event.content) event.formats)

  -- A `str` is encrypted by its bytes.
  abbrev pub encrypt_text : Environment → List ℕ → Option (List ℕ)
  encrypt_text env t = env.encrypt (p.into_bytes t)

  unfoldable pub encrypt_fields : Environment → Snapshot → Option Encrypted
  unfolding clip_content metadata_of
  encrypt_fields env s = do
    content ← env.encrypt (clip_content s.event.content)
    preview ← env.encrypt (clip_preview s.event.content)
    source_app ← encrypt_optional_text (encrypt_text env) s.source_app.name
    source_icon ← encrypt_optional_text (encrypt_text env) s.source_app.icon
    metadata ← encrypt_optional_text env.encrypt (metadata_of s.event s.event.content)
    some (record {
      content = content;
      preview = preview;
      source_app = source_app;
      source_icon = source_icon;
      metadata = metadata;
    })

  -- The row of an INSERT, whose other columns take their defaults.
  abbrev pub new_row : Environment → Snapshot → Encrypted → ℕ → Clip
  new_row env s e id =
      let pictured = is_image s.event.content in
      record {
        columns = record {
          id = id;
          uuid = env.new_uuid;
          created_at = env.current_time;
          is_image = pictured;
          is_deleted = false;
          ocr_text = none;
          ocr_words = none;
          ocr_status = if pictured then some pending else none;
          ocr_attempts = 0;
          ocr_next_retry_at = none;
          ocr_error_kind = none;
          file_path = none;
          full_content = none;
        };
        content_hash = storage_hash s.event;
        content = e.content;
        text_preview = e.preview;
        source_app = e.source_app;
        source_icon = e.source_icon;
        metadata = e.metadata;
        is_pinned = false;
        full_image_expired = false;
        last_accessed = env.current_time;
        formats = [];
      }

  -- The row of `clip_images`.
  abbrev pub with_original : Clip → Clip
  with_original c = record c {
    columns = record c.columns {
      file_path = some (p.original_path c.columns.uuid);
      full_content = some [];
    };
  }

  -- UPDATE of a text that is copied again.
  abbrev pub touch : Environment → Encrypted → Clip → Clip
  touch env e c = record c {
    columns = record c.columns { created_at = env.current_time; is_deleted = false };
    source_app = e.source_app;
    source_icon = e.source_icon;
  }

  -- Both statements of `apply_existing_image_recapture`.
  abbrev pub recapture : Environment → Encrypted → Clip → Clip
  recapture env e c = with_original (record c {
    columns = record c.columns { created_at = env.current_time; is_deleted = false };
    source_app = e.source_app;
    source_icon = e.source_icon;
    content = e.content;
    text_preview = e.preview;
    metadata = e.metadata;
    full_image_expired = false;
  })

  -- Nothing is stored under `none`.
  unfoldable pub write_existing :
      Environment → Snapshot → Encrypted → String → CaptureState → CaptureState × Option String
  unfolding update_where
  write_existing env s e id w =
      if is_image s.event.content
      then if env.recapture_fails
        then (row_error w s.event.sequence, none)
        else (record w { clips = update_where (is_uuid id) (recapture env e) w.clips }, some id)
      else if env.update_fails
      then (w, none)
      else (record w { clips = update_where (is_uuid id) (touch env e) w.clips }, some id)

  -- The uuid is UNIQUE. `drop_fails` is the DELETE after a failed write of the original.
  unfoldable pub write_new :
      Environment → Snapshot → Encrypted → CaptureState → CaptureState × Option String
  unfolding update_where delete_where count_where select
  write_new env s e w =
      let id = env.new_uuid in
      let row = new_row env s e w.next_id in
      let inserted = record w { clips = row ∷ w.clips; next_id = w.next_id + 1 } in
      let dropped =
        if env.drop_fails
        then inserted
        else record inserted { clips = delete_where (is_uuid id) inserted.clips } in
      elim (select (is_uuid id) w.clips) [
        | some taken ↦ (w, none)
        | none ↦
            if env.insert_fails
            then (w, none)
            else if not (is_image s.event.content)
            then (inserted, some id)
            else if env.persist_fails
            then (dropped, none)
            else if env.index_fails
            then (record dropped { unlinked = p.original_path id ∷ dropped.unlinked }, none)
            else (
              record inserted { clips = update_where (is_uuid id) with_original inserted.clips },
              some id,
            )
      ]

-- `ocr_queue::enqueue`; a failure is only logged.
abbrev pub needs_text : String → Clip → Bool
needs_text id c = is_uuid id c && (c.columns.is_image && not (has_text c.columns))

abbrev pub reset_ocr : Clip → Clip
reset_ocr c = record c { columns = reset_to_pending c.columns }

unfoldable pub enqueue_ocr : Environment → Snapshot → String → List Clip → List Clip
unfolding update_where
enqueue_ocr env s id clips =
    if not (is_image s.event.content) || env.enqueue_fails
    then clips
    else update_where (needs_text id) reset_ocr clips

unfoldable pub replace_clip_formats : List CapturedFormat → String → List Clip → List Clip
unfolding update_where
replace_clip_formats formats id clips =
    update_where (is_uuid id) (λ c. record c { formats = formats }) clips
