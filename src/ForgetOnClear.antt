-- ===== src/ForgetOnClear.antt =====
-- Forgetting a captured password when the clipboard is cleared:
-- src-tauri/src/clipboard/forget_on_clear.rs and `process_clipboard_clear` of
-- src-tauri/src/clipboard.rs.
-- `Instant` and `Duration` are numbers of nanoseconds. `Store` is what the handler reads and writes;
-- `Environment` is what the settings, the clock, SQLite and other tasks do during one attempt.
pub mod Safety
pub mod Retries
use Prim.Native.String.{String}
use text.Mathlib.Text.{◌==◌ as str_eq}
use cubby_clipboard.Prelude.{
  ℕ, zero, suc, ◌-◌, Bool, true, false, not, ◌&&◌, ◌||◌, List, [], ◌∷◌, Option, none, some, ltb,
  leb, ◌==◌, if◌then◌else◌,
}

abbrev pub clipboard_clear_forget_window : ℕ
clipboard_clear_forget_window = 90000000000

abbrev pub forget_on_clear_attempts : ℕ
forget_on_clear_attempts = 3

pub data QueryResult {ℓ κ} (A : Type ℓ) (E : Type κ) : Type (ℓ ⊔ κ) where
  ok : A → QueryResult A E
  err : E → QueryResult A E

pub data ForgetClipLookup {ℓ κ μ} (T : Type ℓ) (M : Type κ) (E : Type μ) : Type (ℓ ⊔ κ ⊔ μ) where
  found : T → M → ForgetClipLookup T M E
  already_gone : ForgetClipLookup T M E
  failed : E → M → ForgetClipLookup T M E

unfoldable pub from_query {ℓ κ μ} :
    {T : Type ℓ} {M : Type κ} {E : Type μ} → QueryResult (Option T) E → M → ForgetClipLookup T M E
from_query (ok (some row)) taken = found row taken
from_query (ok none) taken = already_gone
from_query (err error) taken = failed error taken

pub data ForgetAttempt {ℓ} (T : Type ℓ) : Type ℓ where
  pinned_to : T → ForgetAttempt T
  from_marker : T → ForgetAttempt T
  nothing : ForgetAttempt T

unfoldable pub select_forget_attempt {ℓ} :
    {T : Type ℓ} → Option T → Option T → Bool → ForgetAttempt T
select_forget_attempt (some capture) marker within = pinned_to capture
select_forget_attempt none (some capture) true = from_marker capture
select_forget_attempt none (some capture) false = nothing
select_forget_attempt none none within = nothing

unfoldable pub next_forget_attempts : ℕ → Option ℕ
next_forget_attempts zero = none
next_forget_attempts (suc n) = if ltb 0 n then some n else none

pub record RecentCapture : Type 0 where
  pub uuid : String
  pub captured_at : ℕ
  pub credential_like : Bool

unfoldable pub should_forget_recent_capture : ℕ → ℕ → ℕ → Bool
should_forget_recent_capture captured_at cleared_at window =
    if ltb cleared_at captured_at then false else leb (cleared_at - captured_at) window

-- The columns of a row of `clips` that the handler reads.
pub record ClipFlags : Type 0 where
  pub is_pinned : Bool
  pub is_deleted : Bool

pub record Retry : Type 0 where
  pub sequence : ℕ
  pub attempts_left : ℕ
  pub capture : RecentCapture

-- `forgotten` lists the clips whose image file and search document went, whose event was emitted,
-- and for which the capture dedup was reset.
pub record Store : Type 0 where
  pub last_accepted : Option RecentCapture
  pub clips : String → Option ClipFlags
  pub retries : List Retry
  pub forgotten : List String

-- `arrival` is a capture that lands once the marker's lock is released, and `pins` are the clips
-- that the user pins between the SELECT and the DELETE. The rest are failing SQL statements.
pub record Environment : Type 0 where
  pub forget_on_clipboard_clear : Bool
  pub now : ℕ
  pub arrival : Option RecentCapture
  pub lookup_fails : Bool
  pub begin_fails : Bool
  pub pins : String → Bool
  pub delete_fails : Bool
  pub commit_fails : Bool

abbrev pub pin_flags : Bool → Option ClipFlags → Option ClipFlags
pin_flags pin none = none
pin_flags pin (some f) = some (record f { is_pinned = f.is_pinned || pin })

-- The user's pins reach the table.
abbrev pub apply_pins : Environment → Store → Store
apply_pins env s = record s { clips = λ u. pin_flags (env.pins u) (s.clips u) }

abbrev pub unless_pinned : Option ClipFlags → Option ClipFlags
unless_pinned none = none
unless_pinned (some f) = if f.is_pinned then some f else none

-- DELETE FROM clips WHERE uuid = ? AND is_pinned = 0
abbrev pub delete_unpinned : (String → Option ClipFlags) → String → String → Option ClipFlags
delete_unpinned clips uuid u = if str_eq u uuid then unless_pinned (clips u) else clips u

abbrev pub is_deletable : Option ClipFlags → Bool
is_deletable none = false
is_deletable (some f) = not f.is_pinned

unfoldable pub schedule_forget_retry : Store → ℕ → ℕ → RecentCapture → Store
unfolding next_forget_attempts
schedule_forget_retry s sequence attempts_left recent = elim (next_forget_attempts attempts_left) [
  | none ↦ s
  | some remaining ↦
      let retry : Retry = record {
        sequence = sequence;
        attempts_left = remaining;
        capture = recent;
      } in
      record s { retries = retry ∷ s.retries }
]

abbrev pub or_capture : Option RecentCapture → RecentCapture → Option RecentCapture
or_capture none recent = some recent
or_capture (some held) recent = some held

unfoldable pub requeue : Store → Bool → ℕ → ℕ → RecentCapture → Store
unfolding schedule_forget_retry
requeue s took_marker sequence attempts_left recent =
    let held = if took_marker then or_capture s.last_accepted recent else s.last_accepted in
    schedule_forget_retry (record s { last_accepted = held }) sequence attempts_left recent

abbrev pub unless_same : Option RecentCapture → String → Option RecentCapture
unless_same none uuid = none
unless_same (some held) uuid = if str_eq held.uuid uuid then none else some held

-- From the transaction on: a failed statement rolls back and requeues.
unfoldable pub delete_clip : Environment → Store → Bool → ℕ → ℕ → RecentCapture → Store
unfolding requeue
delete_clip env s took_marker sequence attempts_left recent =
    if env.begin_fails || env.delete_fails
    then requeue s took_marker sequence attempts_left recent
    else if not (is_deletable (s.clips recent.uuid))
    then s
    else if env.commit_fails
    then requeue s took_marker sequence attempts_left recent
    else record s {
      clips = delete_unpinned s.clips recent.uuid;
      last_accepted = unless_same s.last_accepted recent.uuid;
      forgotten = recent.uuid ∷ s.forgotten;
    }

unfoldable pub forget_capture : Environment → Store → Bool → ℕ → ℕ → RecentCapture → Store
unfolding requeue delete_clip from_query
forget_capture env s took_marker sequence attempts_left recent =
    let query : QueryResult (Option ClipFlags) (Unit {0}) =
      if env.lookup_fails then err tt else ok (s.clips recent.uuid) in
    elim (from_query query recent) [
      | failed error taken ↦ requeue s took_marker sequence attempts_left taken
      | already_gone ↦ s
      | found row taken ↦
          if row.is_pinned || row.is_deleted
          then s
          else delete_clip env (apply_pins env s) took_marker sequence attempts_left taken
    ]

unfoldable pub is_within_window : Environment → Option RecentCapture → Bool
unfolding should_forget_recent_capture
is_within_window env none = false
is_within_window env (some recent) =
    should_forget_recent_capture recent.captured_at env.now clipboard_clear_forget_window

abbrev pub selected : ForgetAttempt RecentCapture → Option RecentCapture
selected (pinned_to capture) = some capture
selected (from_marker capture) = some capture
selected nothing = none

abbrev pub with_arrival : Option RecentCapture → Store → Store
with_arrival none s = s
with_arrival (some c) s = record s { last_accepted = some c }

abbrev pub is_none : Option RecentCapture → Bool
is_none none = true
is_none (some c) = false

-- The capture that this attempt acts on.
unfoldable pub target : Environment → Option RecentCapture → Store → Option RecentCapture
unfolding select_forget_attempt is_within_window
target env pinned s =
    let marker = if is_none pinned then s.last_accepted else none in
    selected (select_forget_attempt pinned marker (is_within_window env s.last_accepted))

-- A first attempt takes the marker.
unfoldable pub take_marker : Environment → Option RecentCapture → Store → Store
take_marker env pinned s =
    let taken = if is_none pinned then record s { last_accepted = none } else s in
    with_arrival env.arrival taken

unfoldable pub process_clipboard_clear : Environment → Store → ℕ → ℕ → Option RecentCapture → Store
process_clipboard_clear env s sequence attempts_left pinned =
    if not env.forget_on_clipboard_clear then s else elim (target env pinned s) [
      | none ↦ take_marker env pinned s
      | some recent ↦
          if not recent.credential_like
          then take_marker env pinned s
          else forget_capture env (take_marker env pinned s) (is_none pinned) sequence attempts_left
              recent
    ]
