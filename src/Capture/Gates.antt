-- ===== src/Capture/Gates.antt =====
-- The gates before a capture is stored, src-tauri/src/clipboard.rs: the markers of the clipboard, the
-- scan for secrets, the unknown owner and the ignored applications.
use cubby_clipboard.Prelude.{
  ℕ, Bool, true, false, not, ◌&&◌, ◌||◌, List, [], ◌∷◌, Option, none, some, if◌then◌else◌,
}
use cubby_clipboard.Secrets.{SecretKind, classify_secret}
use cubby_clipboard.Secrets.Text.{text_eq}
use cubby_clipboard.Capture.Remote.{is_remote_client_owner, is_rdp_client_owner}

pub record SensitiveMarkers : Type 0 where
  pub monitor_exclusion : Bool
  pub content_owner : Bool
  pub history_exclusion : Bool
  pub cloud_exclusion : Bool

-- `SensitiveMarkers::any`
unfoldable pub any_marker : SensitiveMarkers → Bool
any_marker m =
    m.monitor_exclusion || (m.content_owner || (m.history_exclusion || m.cloud_exclusion))

-- `SourceAppInfo`: who wrote the clipboard.
pub record SourceApp : Type 0 where
  pub name : Option (List ℕ)
  pub icon : Option (List ℕ)
  pub exe_name : Option (List ℕ)
  pub full_path : Option (List ℕ)
  pub is_explicit_owner : Bool

pub record Settings : Type 0 where
  pub skip_sensitive : Bool
  pub skip_likely_secrets : Bool
  pub ignore_ghost_clips : Bool
  pub remote_clipboard_relay : Bool
  pub ignored_apps : List (List ℕ)
  pub max_items : ℕ
  pub auto_delete_days : ℕ

unfoldable pub should_skip_sensitive_capture : Bool → SensitiveMarkers → Bool → Bool → Bool
should_skip_sensitive_capture skip_sensitive markers remote_client rdp_client =
    let rdp_transport = remote_client && (rdp_client && markers.cloud_exclusion) in
    skip_sensitive
    && (markers.content_owner
        || ((markers.history_exclusion && not rdp_transport)
            || (markers.monitor_exclusion && not remote_client)))

pub data LikelySecretDecision : Type 0 where
  store : LikelySecretDecision
  skip : SecretKind → LikelySecretDecision
  unscannable : LikelySecretDecision

abbrev decide_kind : Option SecretKind → LikelySecretDecision
decide_kind none = store
decide_kind (some kind) = skip kind

abbrev decide_text : Option (List ℕ) → LikelySecretDecision
decide_text none = unscannable
decide_text (some text) = decide_kind (classify_secret text)

-- `text` is what `from_utf8` makes of the content, and `is_text` is `clip_type == "text"`.
unfoldable pub likely_secret_decision : Bool → Bool → Option (List ℕ) → LikelySecretDecision
likely_secret_decision skip_likely_secrets is_text text =
    if not skip_likely_secrets || not is_text then store else decide_text text

abbrev pub is_store : LikelySecretDecision → Bool
is_store store = true
is_store _ = false

module _ (lowercase : List ℕ → List ℕ) where
  unfoldable pub is_ignored : List (List ℕ) → List ℕ → Bool
  is_ignored [] name = false
  is_ignored (app ∷ apps) name = text_eq (lowercase app) (lowercase name) || is_ignored apps name

  abbrev pub is_ignored_name : List (List ℕ) → Option (List ℕ) → Bool
  unfolding is_ignored
  is_ignored_name apps none = false
  is_ignored_name apps (some name) = is_ignored apps name

  -- `ignored_match.is_some()`
  abbrev pub is_ignored_app : Settings → SourceApp → Bool
  is_ignored_app settings app =
      is_ignored_name settings.ignored_apps app.full_path
      || is_ignored_name settings.ignored_apps app.exe_name

  -- One of the four gates drops the capture; each of them does so alike.
  unfoldable pub is_refused :
      Settings → SensitiveMarkers → SourceApp → Bool → Option (List ℕ) → Bool
  unfolding should_skip_sensitive_capture is_remote_client_owner is_rdp_client_owner
      likely_secret_decision
  is_refused settings markers app is_text text =
      let remote_client = is_remote_client_owner app.exe_name app.is_explicit_owner in
      let rdp_client = is_rdp_client_owner app.exe_name app.is_explicit_owner in
      if should_skip_sensitive_capture settings.skip_sensitive markers remote_client rdp_client
      then true
      else if not (is_store (likely_secret_decision settings.skip_likely_secrets is_text text))
      then true
      else if settings.ignore_ghost_clips && not app.is_explicit_owner
      then true
      else is_ignored_app settings app
