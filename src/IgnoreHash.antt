-- ===== src/IgnoreHash.antt =====
-- The lifetime of the self-paste marker, src-tauri/src/clipboard/ignore_hash.rs.
-- An `Instant` and a `Duration` are numbers of nanoseconds; `checked_duration_since` is `elapsed`.
-- The static counter `NEXT_GENERATION` is an argument and a result of `new_marker`.
pub mod Echoes
use Prim.Native.String.{String}
use text.Mathlib.Text.{◌==◌ as str_eq}
use cubby_clipboard.Prelude.{
  ℕ, ◌+◌, ◌-◌, ◌%◌, Bool, true, false, not, ◌&&◌, ◌||◌, Option, none, some, ltb, leb, ◌==◌,
  if◌then◌else◌,
}

-- Five seconds.
abbrev pub ignore_hash_ttl : ℕ
ignore_hash_ttl = 5000000000

pub record IgnoreMarker : Type 0 where
  pub hash : String
  pub marked_at : ℕ
  pub generation : ℕ

pub record QueuedIgnore : Type 0 where
  pub hash : String
  pub generation : ℕ

pub record IgnoreState : Type 0 where
  pub marker : Option IgnoreMarker
  pub consumed_generation : Option ℕ

-- `now.checked_duration_since(earlier)`
abbrev pub elapsed : ℕ → ℕ → Option ℕ
elapsed now earlier = if ltb now earlier then none else some (now - earlier)

-- `Some(generation) == consumed`
abbrev pub is_consumed : ℕ → Option ℕ → Bool
is_consumed generation none = false
is_consumed generation (some g) = generation == g

-- The marker, and the counter after `fetch_add`.
unfoldable pub new_marker : String → ℕ → ℕ → IgnoreMarker × ℕ
new_marker hash now next_generation = (
  record { hash = hash; marked_at = now; generation = next_generation },
  (next_generation + 1) % 18446744073709551616,
)

abbrev pub is_within : Option ℕ → ℕ → Bool
is_within none ttl = false
is_within (some d) ttl = leb d ttl

pub ignore_marker_applies : Option IgnoreMarker → String → ℕ → ℕ → Bool
ignore_marker_applies none hash now ttl = false
ignore_marker_applies (some marked) hash now ttl =
    str_eq marked.hash hash && is_within (elapsed now marked.marked_at) ttl

unfoldable pub bind_ignore_hash_for_queued_work : Option IgnoreMarker → ℕ → ℕ → Option QueuedIgnore
bind_ignore_hash_for_queued_work none now ttl = none
bind_ignore_hash_for_queued_work (some marked) now ttl =
    if is_within (elapsed now marked.marked_at) ttl
    then some (record { hash = marked.hash; generation = marked.generation })
    else none

-- The queued binding names this content, and its generation is not the one consumed last.
unfoldable pub is_bound_echo : Option QueuedIgnore → String → Option ℕ → Bool
is_bound_echo none clip_hash consumed = false
is_bound_echo (some bound) clip_hash consumed =
    str_eq bound.hash clip_hash && not (is_consumed bound.generation consumed)

pub should_ignore_queued_self_paste :
    Option QueuedIgnore → Option IgnoreMarker → String → ℕ → ℕ → Option ℕ → Bool
unfolding is_bound_echo ignore_marker_applies
should_ignore_queued_self_paste queued live_marker clip_hash now ttl consumed =
    is_bound_echo queued clip_hash consumed || ignore_marker_applies live_marker clip_hash now ttl

pub owns_marker : Option QueuedIgnore → Option IgnoreMarker → Bool
owns_marker none live = false
owns_marker (some bound) none = false
owns_marker (some bound) (some marker) = bound.generation == marker.generation

abbrev pub bound_generation : Option QueuedIgnore → Option ℕ → Option ℕ
bound_generation none consumed = consumed
bound_generation (some bound) consumed = some bound.generation

abbrev pub marker_generation : Option IgnoreMarker → Option ℕ → Option ℕ
marker_generation none consumed = consumed
marker_generation (some marker) consumed = some marker.generation

-- The two `&mut` arguments are the state.
pub consume_ignore_marker_after_self_paste :
    IgnoreState → Option QueuedIgnore → String → ℕ → ℕ → IgnoreState
unfolding is_bound_echo ignore_marker_applies owns_marker
consume_ignore_marker_after_self_paste s queued clip_hash now ttl =
    let ignored_via_queued = is_bound_echo queued clip_hash s.consumed_generation in
    let ignored_via_live = ignore_marker_applies s.marker clip_hash now ttl in
    if ignored_via_queued
    then record {
      marker = if owns_marker queued s.marker then none else s.marker;
      consumed_generation = bound_generation queued s.consumed_generation;
    }
    else if ignored_via_live && not ignored_via_queued
    then record {
      marker = none;
      consumed_generation = marker_generation s.marker s.consumed_generation;
    }
    else s

unfoldable pub ignore_and_consume_self_paste :
    IgnoreState → Option QueuedIgnore → String → ℕ → ℕ → Bool × IgnoreState
unfolding should_ignore_queued_self_paste consume_ignore_marker_after_self_paste
ignore_and_consume_self_paste s queued clip_hash now ttl =
    if should_ignore_queued_self_paste queued s.marker clip_hash now ttl s.consumed_generation
    then (true, consume_ignore_marker_after_self_paste s queued clip_hash now ttl)
    else (false, s)

-- `marker.generation == bound.generation` is `owns_marker`.
unfoldable pub release_dropped_queued_work :
    IgnoreState → Option QueuedIgnore → String → Bool × IgnoreState
unfolding owns_marker
release_dropped_queued_work s none clip_hash = (false, s)
release_dropped_queued_work s (some bound) clip_hash =
    if not (str_eq bound.hash clip_hash) || is_consumed bound.generation s.consumed_generation
    then (false, s)
    else (
      true,
      record {
        marker = if owns_marker (some bound) s.marker then none else s.marker;
        consumed_generation = some bound.generation;
      },
    )
