-- ===== src/Tests/Forgetting.antt =====
-- Examples for the clear handler, src-tauri/src/clipboard.rs.
use Prim.Native.String.{String}
use text.Mathlib.Text.{◌==◌ as str_eq}
use cubby_clipboard.Prelude.{
  ◌<◌, ◌≡◌, refl, true, false, ◌||◌, [], Option, none, some, arith, if◌then◌else◌,
}
use cubby_clipboard.ForgetOnClear.{
  RecentCapture, ClipFlags, Store, Environment, process_clipboard_clear, target, take_marker,
  select_forget_attempt, is_within_window, should_forget_recent_capture, forget_capture, from_query,
  delete_clip, requeue, schedule_forget_retry, next_forget_attempts,
}
use cubby_clipboard.ForgetOnClear.Safety.{IsTarget, process_clipboard_clear_forgets, retry_forgets}
use cubby_clipboard.ForgetOnClear.Retries.{FollowUps, waits, fires, FollowUps-lt}

abbrev password : RecentCapture
password = record { uuid = "p"; captured_at = 10; credential_like = true }

abbrev row : ClipFlags
row = record { is_pinned = false; is_deleted = false }

abbrev one_clip : String → Option ClipFlags
one_clip u = if str_eq u "p" then some row else none

abbrev stored : Store
stored = record { last_accepted = some password; clips = one_clip; retries = []; forgotten = [] }

abbrev calm : Environment
calm = record {
  forget_on_clipboard_clear = true;
  now = 30;
  arrival = none;
  lookup_fails = false;
  begin_fails = false;
  pins = λ u. false;
  delete_fails = false;
  commit_fails = false;
}

abbrev stormy : Environment
stormy = record calm { delete_fails = true }

gone : (process_clipboard_clear calm stored 1 2 (some password)).clips "p" ≡ none
gone = (retry_forgets calm stored 1 2 password row refl refl refl refl refl).0

process_clipboard_clear_forgets_example :
    (calm.forget_on_clipboard_clear ≡ true)
    × ((row.is_pinned || calm.pins "p") ≡ false)
    × ((c : RecentCapture) × (c.uuid ≡ "p")
        × (c.credential_like ≡ true)
        × IsTarget calm (some password) stored.last_accepted c)
process_clipboard_clear_forgets_example =
    process_clipboard_clear_forgets calm stored 1 2 (some password) "p" row refl gone

-- Both retries of a clear whose DELETE fails each time.
two_retries : FollowUps (process_clipboard_clear stormy stored 1 3 none) 2
unfolding process_clipboard_clear target take_marker select_forget_attempt is_within_window
    should_forget_recent_capture forget_capture from_query delete_clip requeue schedule_forget_retry
    next_forget_attempts
two_retries =
    fires [] [] (record { sequence = 1; attempts_left = 2; capture = password }) stormy
      (record stored { last_accepted = none }) refl refl
      (fires [] [] (record { sequence = 1; attempts_left = 1; capture = password }) stormy
        (record stored { last_accepted = none }) refl refl waits)

FollowUps-lt_example : 2 < 3
FollowUps-lt_example = FollowUps-lt stormy stored 1 3 2 none (omega arith) refl two_retries
