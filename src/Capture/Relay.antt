-- ===== src/Capture/Relay.antt =====
-- Rewriting the copy of a remote-control client under Cubby's ownership, `relay_remote_capture` of
-- src-tauri/src/clipboard.rs. An image always has its bytes.
use Prim.Native.String.{String}
use package.text.Mathlib.Text.{◌==◌ as str_eq}
use cubby_clipboard.Prelude.{ℕ, Bool, true, false, List, [], ◌∷◌, Option, none, some, if◌then◌else◌}
use cubby_clipboard.Secrets.Text.{text_eq}
use cubby_clipboard.CfHtml.Assembly.{document}
use cubby_clipboard.ListenerEvent.{
  CapturedFormat, CapturedContent, text, image, text_type, image_type, build_clip_hash_material,
}
use cubby_clipboard.IgnoreHash.{IgnoreMarker, new_marker}
use cubby_clipboard.Capture.State.{Platform, Snapshot, Environment, CaptureState}
use cubby_clipboard.Capture.Gates.{any_marker}

-- b"html" and b"rtf"
abbrev pub html_name : List ℕ
html_name = b'h' ∷ b't' ∷ b'm' ∷ b'l' ∷ []

abbrev pub rtf_name : List ℕ
rtf_name = b'r' ∷ b't' ∷ b'f' ∷ []

abbrev pub is_image : CapturedContent → Bool
is_image (text bytes preview hash) = false
is_image (image png_bytes hash) = true

-- `full_image_content.unwrap_or(clip_content)`
abbrev pub primary : CapturedContent → List ℕ
primary (text bytes preview hash) = bytes
primary (image png_bytes hash) = png_bytes

abbrev pub type_name : CapturedContent → List ℕ
type_name (text bytes preview hash) = text_type
type_name (image png_bytes hash) = image_type

-- Some marker holds this hash.
abbrev pub is_hash_of : Option String → String → Bool
is_hash_of none hash = false
is_hash_of (some held) hash = str_eq held hash

abbrev pub marker_has : Option IgnoreMarker → String → Bool
marker_has none hash = false
marker_has (some marked) hash = str_eq marked.hash hash

-- The statics `IGNORE_HASH` and `NEXT_GENERATION`.
unfoldable pub set_ignore_hash : CaptureState → String → ℕ → CaptureState
unfolding new_marker
set_ignore_hash w hash now =
    let (marker, next) = new_marker hash now w.next_generation in
    record w { ignore = record w.ignore { marker = some marker }; next_generation = next }

unfoldable pub clear_ignore_hash_if_matches : CaptureState → String → CaptureState
clear_ignore_hash_if_matches w hash =
    if marker_has w.ignore.marker hash
    then record w { ignore = record w.ignore { marker = none } }
    else w

module _ (p : Platform) where
  unfoldable pub calculate_hash : List ℕ → String
  calculate_hash material = p.hasher.finalize (p.hasher.update p.hasher.new material)

  unfoldable pub relayed_auxiliary_formats : List CapturedFormat → List CapturedFormat
  unfolding document
  relayed_auxiliary_formats [] = []
  relayed_auxiliary_formats (f ∷ fs) =
      let rest = relayed_auxiliary_formats fs in
      if text_eq f.name html_name
      then record {
        name = html_name;
        content = p.into_bytes (document (p.from_utf8_lossy f.content));
      }
        ∷ rest
      else if text_eq f.name rtf_name
      then record { name = rtf_name; content = f.content } ∷ rest
      else rest

  unfoldable pub relayed_clip_hash : CapturedContent → List CapturedFormat → String
  unfolding calculate_hash relayed_auxiliary_formats build_clip_hash_material
  relayed_clip_hash content formats = calculate_hash (
      build_clip_hash_material (type_name content) (is_image content) (primary content)
        (relayed_auxiliary_formats formats))

  -- A failed write takes the marker and `LAST_RELAYED_HASH` back.
  unfoldable pub relay_remote_capture :
      Environment → Snapshot → String → CaptureState → CaptureState
  unfolding relayed_clip_hash set_ignore_hash clear_ignore_hash_if_matches any_marker
  relay_remote_capture env s clip_hash w =
      let content = s.event.content in
      let relayed_hash = relayed_clip_hash content s.event.formats in
      let armed =
        set_ignore_hash (record w { last_relayed_hash = some clip_hash }) relayed_hash
          env.relayed_at in
      if is_hash_of w.last_relayed_hash clip_hash
      then w
      else if env.relay_fails
      then record (clear_ignore_hash_if_matches armed relayed_hash) { last_relayed_hash = none }
      else record armed {
        published =
            record {
              content = primary content;
              formats = relayed_auxiliary_formats s.event.formats;
              sensitive = any_marker s.sensitive;
            }
            ∷ w.published;
      }
