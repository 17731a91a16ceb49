-- ===== src/IgnoreHash/Echoes.antt =====
-- What the marker of src-tauri/src/clipboard/ignore_hash.rs suppresses.
use Prim.Native.String.{String}
use text.Mathlib.TextEquality.{eq_iff}
use cubby_clipboard.Prelude.{
  ℕ, ◌≤◌, ◌<◌, ◌≡◌, refl, ap, ◌≢◌, ◌⊎◌, inl, inr, true, false, List, [], ◌∷◌, Option, none, some,
  arith, if◌then◌else◌,
}
use cubby_clipboard.IgnoreHash.{
  IgnoreMarker, QueuedIgnore, IgnoreState, is_consumed, ignore_marker_applies,
  bind_ignore_hash_for_queued_work, ignore_and_consume_self_paste, release_dropped_queued_work,
  is_bound_echo,
}

-- A snapshot that was queued while the marker was live is ignored whenever it is processed, unless
-- its generation is the one consumed last; its generation is then the one consumed last.
pub bound_echo_ignored :
    (s : IgnoreState) (marker : Option IgnoreMarker) (queued_at ttl now ttl' : ℕ) (b : QueuedIgnore)
    → bind_ignore_hash_for_queued_work marker queued_at ttl ≡ some b
    → is_consumed b.generation s.consumed_generation ≡ false
    → let (ignored, t) = ignore_and_consume_self_paste s (some b) b.hash now ttl' in
      (ignored ≡ true) × (t.consumed_generation ≡ some b.generation)
unfolding ignore_and_consume_self_paste bind_ignore_hash_for_queued_work
bound_echo_ignored s marker queued_at ttl now ttl' b e c = ground (arith, eq_iff b.hash b.hash)

-- The binding serves once: after an echo was ignored through it, a second snapshot with the same
-- binding and content is ignored only if a live marker, of another generation, still applies to it.
pub second_echo_kept :
    (s : IgnoreState) (b : QueuedIgnore) (now ttl later ttl' : ℕ)
    → is_consumed b.generation s.consumed_generation ≡ false
    → let t = (ignore_and_consume_self_paste s (some b) b.hash now ttl).1 in
      (ignore_and_consume_self_paste t (some b) b.hash later ttl').0
      ≡ ignore_marker_applies t.marker b.hash later ttl'
unfolding ignore_and_consume_self_paste
second_echo_kept s b now ttl later ttl' c = ground (arith, eq_iff b.hash b.hash)

-- A flood-dropped echo changes the state just as a processed one does, at any time.
pub release-ignore_and_consume :
    (s : IgnoreState) (b : QueuedIgnore) (hash : String) (now ttl : ℕ)
    → is_bound_echo (some b) hash s.consumed_generation ≡ true
    → release_dropped_queued_work s (some b) hash
      ≡ ignore_and_consume_self_paste s (some b) hash now ttl
unfolding ignore_and_consume_self_paste release_dropped_queued_work
release-ignore_and_consume s b hash now ttl h = ground arith

-- The marker of a later paste survives the echo of an earlier one.
pub newer_marker_survives :
    (s : IgnoreState) (b : QueuedIgnore) (m : IgnoreMarker) (now ttl : ℕ)
    → s.marker ≡ some m
    → b.generation ≢ m.generation
    → is_consumed b.generation s.consumed_generation ≡ false
    → ignore_and_consume_self_paste s (some b) b.hash now ttl
      ≡ (true, record { marker = some m; consumed_generation = some b.generation })
unfolding ignore_and_consume_self_paste
newer_marker_survives s b m now ttl e d c = ground (arith, eq_iff b.hash b.hash)

-- The generations whose bound snapshots are ignored, when the worker processes these in turn. Each
-- snapshot carries its own content, and no marker is live.
pub ignored_generations : ℕ → IgnoreState → List (QueuedIgnore × ℕ) → List ℕ
ignored_generations ttl s [] = []
ignored_generations ttl s ((b, now) ∷ es) =
    let (ignored, t) = ignore_and_consume_self_paste s (some b) b.hash now ttl in
    let rest = ignored_generations ttl t es in if ignored then b.generation ∷ rest else rest

abbrev level : Option ℕ → ℕ
level none = 0
level (some g) = g

-- Generations start at 1 and do not fall along the queue.
abbrev pub IsInOrder : ℕ → List (QueuedIgnore × ℕ) → Type 0
IsInOrder g [] = Unit {0}
IsInOrder g ((b, now) ∷ es) = (0 < b.generation) × (g ≤ b.generation) × IsInOrder b.generation es

abbrev pub IsRising : ℕ → List ℕ → Type 0
IsRising g [] = Unit {0}
IsRising g (x ∷ xs) = (g < x) × IsRising x xs

echo_step :
    (s : IgnoreState) (b : QueuedIgnore) (now ttl : ℕ)
    → s.marker ≡ none
    → level s.consumed_generation ≤ b.generation
    → 0 < b.generation
    → let (ignored, t) = ignore_and_consume_self_paste s (some b) b.hash now ttl in
      (t.marker ≡ none)
      × (((ignored ≡ true)
            × (level s.consumed_generation < b.generation)
            × (t.consumed_generation ≡ some b.generation))
          ⊎ ((ignored ≡ false) × (t ≡ s)))
unfolding ignore_and_consume_self_paste
echo_step s b now ttl e l z = ground (arith, eq_iff b.hash b.hash)

IsInOrder-mono : (g h : ℕ) (es : List (QueuedIgnore × ℕ)) → g ≤ h → IsInOrder h es → IsInOrder g es
IsInOrder-mono g h [] l o = tt
IsInOrder-mono g h ((b, now) ∷ es) l o = (o.0, omega arith, o.2)

ignored_generations-IsRising :
    (ttl : ℕ) (s : IgnoreState) (es : List (QueuedIgnore × ℕ))
    → s.marker ≡ none
    → IsInOrder (level s.consumed_generation) es
    → IsRising (level s.consumed_generation) (ignored_generations ttl s es)
unfolding ignored_generations
ignored_generations-IsRising ttl s [] e o = tt
ignored_generations-IsRising ttl s ((b, now) ∷ es) e o =
    let t = (ignore_and_consume_self_paste s (some b) b.hash now ttl).1 in
    let (m, step) = echo_step s b now ttl e o.1 o.0 in
    elim step [
      | inl (i, l, c) ↦
          let next : level t.consumed_generation ≡ b.generation = ap level c in
          let ih = ignored_generations-IsRising ttl t es m (rw next o.2) in rw i (l, rw next at ih)
      | inr (i, same) ↦
          rw (i, same)
            (ignored_generations-IsRising ttl s es e (IsInOrder-mono _ b.generation es o.1 o.2))
    ]

-- Bound snapshots that are processed in the order of their generations are ignored once for each
-- generation at most: the generations ignored rise strictly. No generation was consumed before and
-- no marker is live.
pub ignored_once :
    (ttl : ℕ) (es : List (QueuedIgnore × ℕ))
    → IsInOrder 0 es
    → IsRising 0 (ignored_generations ttl (record { marker = none; consumed_generation = none }) es)
ignored_once ttl es o =
    ignored_generations-IsRising ttl (record { marker = none; consumed_generation = none }) es refl
      o

-- Only the generation consumed last is remembered: after an echo of another generation was
-- processed, a second snapshot with the first binding is ignored again.
pub older_echo_ignored_again :
    (s : IgnoreState) (b c : QueuedIgnore) (t₁ t₂ t₃ ttl : ℕ)
    → is_consumed b.generation s.consumed_generation ≡ false
    → b.generation ≢ c.generation
    → let s₁ = (ignore_and_consume_self_paste s (some b) b.hash t₁ ttl).1 in
      let s₂ = (ignore_and_consume_self_paste s₁ (some c) c.hash t₂ ttl).1 in
      (ignore_and_consume_self_paste s₂ (some b) b.hash t₃ ttl).0 ≡ true
unfolding ignore_and_consume_self_paste
older_echo_ignored_again s b c t₁ t₂ t₃ ttl h d =
    ground (arith, eq_iff b.hash b.hash, eq_iff c.hash c.hash)
