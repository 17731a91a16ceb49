-- ===== src/Capture/Exclusion.antt =====
-- The content that a capture of src-tauri/src/clipboard.rs keeps out of the history.
use cubby_clipboard.Prelude.{
  ℕ, ◌≡◌, refl, ◌⊎◌, inl, inr, true, false, List, none, some, arith, Bool-cases, Option-cases, Bool,
  ◌∷◌, ◌&&◌, [],
}
use cubby_clipboard.Secrets.{SecretKind, classify_secret}
use cubby_clipboard.ListenerEvent.{CapturedContent, text, image}
use cubby_clipboard.Capture.Gates.{
  Settings, SourceApp, is_ignored_app, is_refused, should_skip_sensitive_capture,
  likely_secret_decision,
}
use cubby_clipboard.Capture.Remote.{
  ncplayer, mstsc, msrdc, mremoteng, anydesk, teamviewer, teamviewer_desktop,
  screenconnect_clientservice, screenconnect_windowsclient, splashtop, strwinclt, rustdesk, is_any,
  classify_remote_process, is_remote_client_process, is_remote_client_owner, is_rdp_client_owner,
}
use cubby_clipboard.Capture.State.{Platform, Snapshot, Environment, CaptureState}
use cubby_clipboard.Capture.Relay.{is_image}
use cubby_clipboard.Capture.{scanned, refuses, self_paste, process_clipboard_snapshot}
use cubby_clipboard.Capture.Outcomes.{process-own, process-refused}

-- The programs that may paste over a Remote Desktop connection.
abbrev pub rdp_programs : List (List ℕ)
rdp_programs = mstsc ∷ msrdc ∷ mremoteng ∷ []

-- The programs that control another machine, those among them.
abbrev pub remote_programs : List (List ℕ)
remote_programs =
    ncplayer ∷ mstsc ∷ msrdc ∷ mremoteng ∷ anydesk ∷ teamviewer ∷ teamviewer_desktop
    ∷ screenconnect_clientservice ∷ screenconnect_windowsclient ∷ splashtop ∷ strwinclt ∷ rustdesk
    ∷ []

-- The clipboard's owner is known, and it is one of the programs.
abbrev pub is_owned_by : List (List ℕ) → SourceApp → Bool
unfolding is_any
is_owned_by programs app =
    app.is_explicit_owner && elim app.exe_name [ none ↦ false | some name ↦ is_any programs name ]

-- The user, the application or a classifier wants the content kept out. What a marker asks for is
-- lifted for remote-control programs only: the history marker for Remote Desktop, if it comes with the
-- cloud marker, and the monitor marker for all of them.
pub data IsExcluded (p : Platform) (settings : Settings) (s : Snapshot) : Type 0 where
  viewer_ignore :
      settings.skip_sensitive ≡ true → s.sensitive.content_owner ≡ true → IsExcluded p settings s
  out_of_history :
      settings.skip_sensitive ≡ true
      → s.sensitive.history_exclusion ≡ true
      → (is_owned_by rdp_programs s.source_app && s.sensitive.cloud_exclusion) ≡ false
      → IsExcluded p settings s
  unmonitored :
      settings.skip_sensitive ≡ true
      → s.sensitive.monitor_exclusion ≡ true
      → is_owned_by remote_programs s.source_app ≡ false
      → IsExcluded p settings s
  secret :
      (kind : SecretKind) (decoded : List ℕ)
      → settings.skip_likely_secrets ≡ true
      → scanned p s.event.content ≡ some decoded
      → classify_secret decoded ≡ some kind
      → IsExcluded p settings s
  unscannable :
      settings.skip_likely_secrets ≡ true
      → is_image s.event.content ≡ false
      → scanned p s.event.content ≡ none
      → IsExcluded p settings s
  ghost :
      settings.ignore_ghost_clips ≡ true
      → s.source_app.is_explicit_owner ≡ false
      → IsExcluded p settings s
  ignored : is_ignored_app p.lowercase settings s.source_app ≡ true → IsExcluded p settings s

rdp_client-owned :
    (app : SourceApp)
    → is_owned_by rdp_programs app ≡ false
    → is_rdp_client_owner app.exe_name app.is_explicit_owner ≡ false
unfolding is_rdp_client_owner classify_remote_process is_any
rdp_client-owned app h = elim (Option-cases app.exe_name) [
  | inl e ↦ ground (arith, e)
  | inr (name, e) ↦ ground (arith, e, h)
]

remote_client-owned :
    (app : SourceApp)
    → is_owned_by remote_programs app ≡ false
    → is_remote_client_owner app.exe_name app.is_explicit_owner ≡ false
unfolding is_remote_client_owner is_remote_client_process classify_remote_process is_any
remote_client-owned app h = elim (Option-cases app.exe_name) [
  | inl e ↦ ground (arith, e)
  | inr (name, e) ↦ ground (arith, e, h)
]

scanned-text :
    (p : Platform) (content : CapturedContent) (decoded : List ℕ)
    → scanned p content ≡ some decoded
    → is_image content ≡ false
scanned-text p (text bytes preview hash) decoded e = refl
scanned-text p (image png_bytes hash) decoded e = cc

IsExcluded-refuses :
    (p : Platform) (settings : Settings) (s : Snapshot)
    → IsExcluded p settings s
    → refuses p settings s ≡ true
unfolding refuses is_refused should_skip_sensitive_capture likely_secret_decision
IsExcluded-refuses p settings s (viewer_ignore on marked) = ground (arith, on, marked)
IsExcluded-refuses p settings s (out_of_history on marked kept) =
    elim (Bool-cases s.sensitive.cloud_exclusion) [
      | inl c ↦
          ground (arith, on, marked, c, rdp_client-owned s.source_app (ground (arith, kept, c)))
      | inr c ↦ ground (arith, on, marked, c)
    ]
IsExcluded-refuses p settings s (unmonitored on marked local) =
    ground (arith, on, marked, remote_client-owned s.source_app local)
IsExcluded-refuses p settings s (secret kind decoded on e k) =
    ground (arith, on, e, k, scanned-text p s.event.content decoded e)
IsExcluded-refuses p settings s (unscannable on written e) = ground (arith, on, e, written)
IsExcluded-refuses p settings s (ghost on foreign) = ground (arith, on, foreign)
IsExcluded-refuses p settings s (ignored on) = ground (arith, on)

-- Content that is excluded, for whichever of the reasons of `IsExcluded`, is neither stored nor indexed nor relayed nor announced, and no older clip
-- is left as the target of the next clear, unless the content is Cubby's own write.
pub excluded_untouched :
    (p : Platform) (settings : Settings) (env : Environment) (s : Snapshot) (w : CaptureState)
    → IsExcluded p settings s
    → ((process_clipboard_snapshot p settings env s w).clips ≡ w.clips)
      × ((process_clipboard_snapshot p settings env s w).index ≡ w.index)
      × ((process_clipboard_snapshot p settings env s w).published ≡ w.published)
      × ((process_clipboard_snapshot p settings env s w).emitted ≡ w.emitted)
      × (((self_paste p env s w).0 ≡ true)
          ⊎ ((process_clipboard_snapshot p settings env s w).last_accepted ≡ none))
excluded_untouched p settings env s w out = elim (Bool-cases (self_paste p env s w).0) [
  | inl h ↦ rw (process-own p settings env s w h) (refl, refl, refl, refl, inl h)
  | inr h ↦
      rw (process-refused p settings env s w h (IsExcluded-refuses p settings s out))
        (refl, refl, refl, refl, inr refl)
]
