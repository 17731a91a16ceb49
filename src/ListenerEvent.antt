-- ===== src/ListenerEvent.antt =====
-- The events of the clipboard listener and what the snapshot queue asks of them,
-- src-tauri/src/clipboard.rs. A `Vec<u8>` and the UTF-8 text of a `String` are lists of bytes; the
-- hash of a self-paste binding is a `String`, as in src-tauri/src/clipboard/ignore_hash.rs. The
-- lengths of buffers in memory add up to less than a `usize`, so their sum does not wrap. The fields
-- that neither the queue nor the hash reads (the source application, the sizes and times of an
-- image, the sensitivity markers) are left out. SHA-256 and its hexadecimal print are a parameter.
pub mod Payload
pub mod Hashing
use Prim.Native.String.{String}
use cubby_clipboard.Prelude.{
  ℕ, ◌+◌, Bool, true, false, not, List, [], ◌∷◌, ◌++◌, Option, length, if◌then◌else◌,
}
use cubby_clipboard.SnapshotQueue.{SizedPayload}
use cubby_clipboard.IgnoreHash.{QueuedIgnore, IgnoreState, release_dropped_queued_work}

pub record CapturedFormat : Type 0 where
  pub name : List ℕ
  pub content : List ℕ

pub data CapturedContent : Type 0 where
  text : List ℕ → List ℕ → List ℕ → CapturedContent
  image : List ℕ → List ℕ → CapturedContent

pub record ClipboardSnapshot : Type 0 where
  pub sequence : ℕ
  pub content : CapturedContent
  pub formats : List CapturedFormat
  pub ignore : Option QueuedIgnore

pub data ClipboardListenerEvent : Type 0 where
  content : ClipboardSnapshot → ClipboardListenerEvent
  cleared : ℕ → ClipboardListenerEvent

abbrev pub content_bytes : CapturedContent → ℕ
content_bytes (text bytes preview hash) = length bytes + length preview + length hash
content_bytes (image png_bytes hash) = length png_bytes + length hash

abbrev pub formats_bytes : List CapturedFormat → ℕ
formats_bytes [] = 0
formats_bytes (f ∷ fs) = length f.content + formats_bytes fs

abbrev pub snapshot_payload_bytes : ClipboardSnapshot → ℕ
snapshot_payload_bytes s = content_bytes s.content + formats_bytes s.formats

abbrev pub event_payload_bytes : ClipboardListenerEvent → ℕ
event_payload_bytes (cleared sequence) = 0
event_payload_bytes (content snapshot) = snapshot_payload_bytes snapshot

abbrev pub event_retain_on_flood : ClipboardListenerEvent → Bool
event_retain_on_flood (cleared sequence) = true
event_retain_on_flood (content snapshot) = false

abbrev pub event_replaces_queued : ClipboardListenerEvent → ClipboardListenerEvent → Bool
event_replaces_queued (cleared newer) (cleared older) = true
event_replaces_queued (cleared newer) (content older) = false
event_replaces_queued (content newer) older = false

instance abbrev pub ListenerEventSizedPayload : SizedPayload ClipboardListenerEvent
ListenerEventSizedPayload = record {
  payload_bytes = event_payload_bytes;
  retain_on_flood = event_retain_on_flood;
  replaces_queued = event_replaces_queued;
}

-- `Sha256`, as the code uses it, with the print of the digest as `{:x}`.
pub record Hasher : Type 1 where
  pub State : Type 0
  pub new : State
  pub update : State → List ℕ → State
  pub finalize : State → String

-- b"text" and b"image"
abbrev pub text_type : List ℕ
text_type = b't' ∷ b'e' ∷ b'x' ∷ b't' ∷ []

abbrev pub image_type : List ℕ
image_type = b'i' ∷ b'm' ∷ b'a' ∷ b'g' ∷ b'e' ∷ []

module _ (h : Hasher) where
  unfoldable pub update_formats : h.State → List CapturedFormat → h.State
  update_formats s [] = s
  update_formats s (f ∷ fs) =
      update_formats
        (h.update (h.update (h.update (h.update s (0 ∷ [])) f.name) (0 ∷ [])) f.content) fs

  unfoldable pub captured_clip_hash : CapturedContent → List CapturedFormat → String
  captured_clip_hash (text bytes preview hash) formats =
      h.finalize
        (update_formats (h.update (h.update (h.update h.new text_type) (0 ∷ [])) bytes) formats)
  captured_clip_hash (image png_bytes hash) formats =
      h.finalize (h.update (h.update (h.update h.new image_type) (0 ∷ [])) png_bytes)

  -- The handler of evicted events, on the state under the lock.
  unfoldable pub release_ignore_for_dropped_events :
      List ClipboardListenerEvent → IgnoreState → IgnoreState
  release_ignore_for_dropped_events [] s = s
  release_ignore_for_dropped_events (cleared sequence ∷ events) s =
      release_ignore_for_dropped_events events s
  release_ignore_for_dropped_events (content snapshot ∷ events) s =
      release_ignore_for_dropped_events events
        (release_dropped_queued_work s snapshot.ignore
          (captured_clip_hash snapshot.content snapshot.formats)).1

-- The material after the primary content.
unfoldable pub formats_material : List CapturedFormat → List ℕ
formats_material [] = []
formats_material (f ∷ fs) = 0 ∷ f.name ++ 0 ∷ f.content ++ formats_material fs

-- `is_image` is `clip_type == "image"`.
unfoldable pub build_clip_hash_material : List ℕ → Bool → List ℕ → List CapturedFormat → List ℕ
build_clip_hash_material clip_type is_image primary_content formats =
    clip_type ++ 0 ∷ primary_content ++ (if not is_image then formats_material formats else [])
