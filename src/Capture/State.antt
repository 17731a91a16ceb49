-- ===== src/Capture/State.antt =====
-- What the capture worker of src-tauri/src/clipboard.rs reads and writes. `Platform` is the code
-- that the worker only calls; `Environment` is what the clock, the failing statements and the key do
-- during one capture; `CaptureState` is the statics, the database and the search index. The texts of a
-- capture are lists of bytes, the names of applications lists of characters.
use Prim.Native.String.{String}
use cubby_clipboard.Prelude.{ℕ, Bool, List, Option}
use cubby_clipboard.ListenerEvent.{Hasher, CapturedFormat, ClipboardSnapshot}
use cubby_clipboard.IgnoreHash.{IgnoreState}
use cubby_clipboard.ForgetOnClear.{RecentCapture}
use cubby_clipboard.SearchIndex.Service.{SearchIndex}
use cubby_clipboard.ClipTable.{Clip}
use cubby_clipboard.Retention.{Key}
use cubby_clipboard.Capture.Gates.{SensitiveMarkers, SourceApp}

pub record Platform : Type 1 where
  pub hasher : Hasher
  -- `CryptoManager::keyed_hash`
  pub keyed_hash : List ℕ → String
  pub lowercase : List ℕ → List ℕ
  pub from_utf8 : List ℕ → Option (List ℕ)
  pub from_utf8_lossy : List ℕ → List ℕ
  pub into_bytes : List ℕ → List ℕ
  pub create_image_preview : List ℕ → Option (List ℕ)
  -- The JSON of the column `metadata`, from the names of the formats and from an image.
  pub formats_metadata : List (List ℕ) → List ℕ
  pub image_metadata : ClipboardSnapshot → List ℕ
  pub original_path : String → String
  pub newest_first : List Key → List Key

-- A snapshot as it is taken from the queue, its source application resolved.
pub record Snapshot : Type 0 where
  pub event : ClipboardSnapshot
  pub source_app : SourceApp
  pub sensitive : SensitiveMarkers

-- `checked_at`, `relayed_at` and `captured_at` are readings of `Instant::now()`, and `current_time`
-- is CURRENT_TIMESTAMP. `encrypt` is the encryption under the key and the nonces of this capture.
pub record Environment : Type 0 where
  pub checked_at : ℕ
  pub relayed_at : ℕ
  pub captured_at : ℕ
  pub current_time : ℕ
  pub new_uuid : String
  pub encrypt : List ℕ → Option (List ℕ)
  pub relay_fails : Bool
  pub stored_lookup_fails : Bool
  pub select_fails : Bool
  pub recapture_fails : Bool
  pub update_fails : Bool
  pub insert_fails : Bool
  pub persist_fails : Bool
  pub index_fails : Bool
  pub drop_fails : Bool
  pub enqueue_fails : Bool
  pub formats_fail : Bool
  pub path_lookup_fails : Bool
  pub rollback_fails : Bool
  pub retention_fails : Bool

-- What a relay writes to the clipboard.
pub record Publication : Type 0 where
  pub content : List ℕ
  pub formats : List CapturedFormat
  pub sensitive : Bool

-- `unlinked` lists the paths given to `remove_clip_image_files`, `published` the successful relays,
-- and `emitted` the clips of the event `clipboard-change`, the last first.
pub record CaptureState : Type 0 where
  pub ignore : IgnoreState
  pub next_generation : ℕ
  pub last_stable_hash : Option String
  pub last_relayed_hash : Option String
  pub last_accepted : Option RecentCapture
  pub last_error : Option ℕ
  pub clips : List Clip
  pub next_id : ℕ
  pub index : SearchIndex
  pub unlinked : List String
  pub published : List Publication
  pub emitted : List String
