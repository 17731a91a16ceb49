-- ===== src/ForgetOnClear/Safety.antt =====
-- Which clips the clear handler of src-tauri/src/clipboard.rs forgets, and which it never does.
use Prim.Native.String.{String}
use text.Mathlib.TextEquality.{eq_iff}
use cubby_clipboard.Prelude.{
  ℕ, ◌+◌, ◌≤◌, ◌≡◌, inl, inr, Bool, true, false, ◌||◌, Option, none, some, arith, Option-cases,
}
use cubby_clipboard.ForgetOnClear.{
  RecentCapture, ClipFlags, Store, Environment, clipboard_clear_forget_window, forget_capture,
  requeue, target, take_marker, process_clipboard_clear, is_none,
}

-- Requeueing leaves the clips alone.
requeue_clips :
    (s : Store) (took : Bool) (n a : ℕ) (r : RecentCapture) → (requeue s took n a r).clips ≡ s.clips
unfolding requeue
requeue_clips s took n a r = ground arith

take_marker_clips :
    (env : Environment) (p : Option RecentCapture) (s : Store)
    → (take_marker env p s).clips ≡ s.clips
unfolding take_marker
take_marker_clips env p s = ground arith

-- `forget_capture` deletes at most the row of its capture, if that is not pinned.
forget_capture_clips :
    (env : Environment) (s : Store) (took : Bool) (n a : ℕ) (r : RecentCapture) (u : String)
    (f : ClipFlags)
    → s.clips u ≡ some f
    → (forget_capture env s took n a r).clips u ≡ none
    → (r.uuid ≡ u) × ((f.is_pinned || env.pins u) ≡ false)
unfolding forget_capture
forget_capture_clips env s took n a r u f e g = ground (arith, eq_iff u r.uuid)

-- The capture that an attempt acts on is the one that it carries, or else the marker's, if that was
-- captured at most `clipboard_clear_forget_window` ago.
abbrev pub IsTarget :
    Environment → Option RecentCapture → Option RecentCapture → RecentCapture → Type 0
IsTarget env (some carried) marker c = carried ≡ c
IsTarget env none marker c =
    (marker ≡ some c)
    × (c.captured_at ≤ env.now)
    × (env.now ≤ c.captured_at + clipboard_clear_forget_window)

target-IsTarget :
    (env : Environment) (pinned : Option RecentCapture) (s : Store) (c : RecentCapture)
    → target env pinned s ≡ some c
    → IsTarget env pinned s.last_accepted c
unfolding target
target-IsTarget env none s c e = ground arith
target-IsTarget env (some carried) s c e = ground arith

-- A clip that is in the table before an attempt and not after it is the attempt's target: it looked
-- like a credential when it was captured, the setting is on, and the clip is not pinned, neither
-- before the attempt nor between its SELECT and its DELETE.
pub process_clipboard_clear_forgets :
    (env : Environment) (s : Store) (n a : ℕ) (pinned : Option RecentCapture) (u : String)
    (f : ClipFlags)
    → s.clips u ≡ some f
    → (process_clipboard_clear env s n a pinned).clips u ≡ none
    → (env.forget_on_clipboard_clear ≡ true)
      × ((f.is_pinned || env.pins u) ≡ false)
      × ((c : RecentCapture) × (c.uuid ≡ u)
          × (c.credential_like ≡ true)
          × IsTarget env pinned s.last_accepted c)
unfolding process_clipboard_clear
process_clipboard_clear_forgets env s n a pinned u f e g =
    elim (Option-cases (target env pinned s)) [
      | inl t ↦ absurd (ground (arith, take_marker_clips env pinned s))
      | inr (c, t) ↦
          let taken = take_marker env pinned s in
          let same = take_marker_clips env pinned s in
          let forgets = forget_capture_clips env taken (is_none pinned) n a c u f in
          (
            ground (arith, same),
            ground (arith, same, forgets),
            (
              c,
              ground (arith, same, forgets),
              ground (arith, same),
              target-IsTarget env pinned s c t,
            ),
          )
    ]

-- If no statement fails, a retry forgets the capture that it carries, whatever the marker is now,
-- provided it looked like a credential and its row is there, neither pinned nor already deleted.
pub retry_forgets :
    (env : Environment) (s : Store) (n a : ℕ) (c : RecentCapture) (f : ClipFlags)
    → env.forget_on_clipboard_clear ≡ true
    → (env.lookup_fails || (env.begin_fails || (env.delete_fails || env.commit_fails))) ≡ false
    → c.credential_like ≡ true
    → s.clips c.uuid ≡ some f
    → (f.is_pinned || (f.is_deleted || env.pins c.uuid)) ≡ false
    → ((process_clipboard_clear env s n a (some c)).clips c.uuid ≡ none)
      × ((process_clipboard_clear env s n a (some c)).retries ≡ s.retries)
unfolding process_clipboard_clear forget_capture target take_marker
retry_forgets env s n a c f on fine cred row free = ground (arith, eq_iff c.uuid c.uuid)

-- If no statement fails, a first attempt within the window forgets the capture that the marker holds,
-- provided it looked like a credential and its row is there, neither pinned nor already deleted.
pub marker_forgets :
    (env : Environment) (s : Store) (n a : ℕ) (c : RecentCapture) (f : ClipFlags)
    → env.forget_on_clipboard_clear ≡ true
    → (env.lookup_fails || (env.begin_fails || (env.delete_fails || env.commit_fails))) ≡ false
    → s.last_accepted ≡ some c
    → c.captured_at ≤ env.now
    → env.now ≤ c.captured_at + clipboard_clear_forget_window
    → c.credential_like ≡ true
    → s.clips c.uuid ≡ some f
    → (f.is_pinned || (f.is_deleted || env.pins c.uuid)) ≡ false
    → (process_clipboard_clear env s n a none).clips c.uuid ≡ none
unfolding process_clipboard_clear forget_capture target take_marker
marker_forgets env s n a c f on fine held after soon cred row free =
    ground (arith, on, fine, held, after, soon, cred, row, free, eq_iff c.uuid c.uuid)
