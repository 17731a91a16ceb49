-- ===== src/ForgetOnClear/Retries.antt =====
-- How often the clear handler of src-tauri/src/clipboard.rs retries, and with which capture.
use mathlib.Core.Path.{subst}
use cubby_clipboard.Prelude.{
  All, ◌++◌, sym, ℕ, zero, suc, ◌+◌, ◌≤◌, ◌<◌, ◌≡◌, refl, ap, ◌⊎◌, inl, inr, Bool, ◌&&◌, List, [],
  ◌∷◌, Option, none, some, arith, Bool-cases, Option-cases,
}
use cubby_clipboard.ForgetOnClear.{
  RecentCapture, Store, Environment, Retry, forget_capture, requeue, target, take_marker,
  process_clipboard_clear, is_none, next_forget_attempts,
}

-- An attempt schedules no retry, or one for the capture that it acted on, with one attempt fewer
-- and at least one.
abbrev Schedules : List Retry → List Retry → ℕ → ℕ → RecentCapture → Type 0
Schedules before after n a c =
    (after ≡ before)
    ⊎ ((left : ℕ) × (after ≡ record { sequence = n; attempts_left = left; capture = c } ∷ before)
        × (a ≡ left + 1)
        × (0 < left))

next_forget_attempts-cases :
    (a : ℕ)
    → (next_forget_attempts a ≡ none)
      ⊎ ((left : ℕ) × (next_forget_attempts a ≡ some left) × (a ≡ left + 1) × (0 < left))
unfolding next_forget_attempts
next_forget_attempts-cases zero = inl refl
next_forget_attempts-cases (suc zero) = inl refl
next_forget_attempts-cases (suc (suc n)) = inr (suc n, ground arith, omega arith, omega arith)

requeue-Schedules :
    (s : Store) (took : Bool) (n a : ℕ) (c : RecentCapture)
    → Schedules s.retries (requeue s took n a c).retries n a c
unfolding requeue
requeue-Schedules s took n a c = elim (next_forget_attempts-cases a) [
  | inl e ↦ inl (ground arith)
  | inr (left, e, f, g) ↦ inr (left, ground arith, f, g)
]

requeue_retries :
    (s t : Store) (took : Bool) (n a : ℕ) (c : RecentCapture)
    → s.retries ≡ t.retries
    → (requeue s took n a c).retries ≡ (requeue t took n a c).retries
unfolding requeue
requeue_retries s t took n a c e = ground arith

forget_capture_retries :
    (env : Environment) (s : Store) (took : Bool) (n a : ℕ) (c : RecentCapture)
    → ((forget_capture env s took n a c).retries ≡ s.retries)
      ⊎ ((forget_capture env s took n a c).retries ≡ (requeue s took n a c).retries)
unfolding forget_capture requeue
forget_capture_retries env s took n a c = ground arith

forget_capture-Schedules :
    (env : Environment) (s : Store) (took : Bool) (n a : ℕ) (c : RecentCapture)
    → Schedules s.retries (forget_capture env s took n a c).retries n a c
forget_capture-Schedules env s took n a c = elim (forget_capture_retries env s took n a c) [
  | inl e ↦ inl e
  | inr e ↦ rw e (requeue-Schedules s took n a c)
]

take_marker_retries :
    (env : Environment) (p : Option RecentCapture) (s : Store)
    → (take_marker env p s).retries ≡ s.retries
unfolding take_marker
take_marker_retries env p s = ground arith

-- An attempt schedules no retry, or exactly one: for the capture that it acted on, with one attempt
-- fewer and at least one.
process_clipboard_clear-Schedules :
    (env : Environment) (s : Store) (n a : ℕ) (pinned : Option RecentCapture)
    → ((process_clipboard_clear env s n a pinned).retries ≡ s.retries)
      ⊎ ((c : RecentCapture) × (target env pinned s ≡ some c)
          × Schedules s.retries (process_clipboard_clear env s n a pinned).retries n a c)
unfolding process_clipboard_clear
process_clipboard_clear-Schedules env s n a pinned = elim (Option-cases (target env pinned s)) [
  | inl t ↦ inl (ground (arith, take_marker_retries env pinned s))
  | inr (c, t) ↦
      let taken = take_marker env pinned s in
      let same = take_marker_retries env pinned s in
      elim (forget_capture-Schedules env taken (is_none pinned) n a c) [
        | inl e ↦ inl (ground (arith, same))
        | inr (left, e, f, g) ↦
            elim (Bool-cases (env.forget_on_clipboard_clear && c.credential_like)) [
              | inl acts ↦ inr (c, t, inr (left, ground (arith, same), f, g))
              | inr idle ↦ inl (ground (arith, same))
            ]
      ]
]

-- What the retries that are scheduled in a state can amount to: the timers of the retries elapse in
-- any order, and an attempt of each may schedule others. Everything else in the state may change
-- before an attempt, and statements may fail in it, but no other clear schedules a retry. The number
-- counts all attempts so far.
pub data FollowUps : Store → ℕ → Type 0 where
  waits : {s : Store} → FollowUps s 0
  fires :
      {s : Store} {k : ℕ} (before after : List Retry) (r : Retry) (env : Environment) (s' : Store)
      → s.retries ≡ before ++ r ∷ after
      → s'.retries ≡ before ++ after
      → FollowUps (process_clipboard_clear env s' r.sequence r.attempts_left (some r.capture)) k
      → FollowUps s (suc k)

abbrev total : List Retry → ℕ
total [] = 0
total (r ∷ rs) = r.attempts_left + total rs

-- A retry that is scheduled has an attempt left.
abbrev IsLive : Retry → Type 0
IsLive r = 0 < r.attempts_left

total-append : (xs ys : List Retry) → total (xs ++ ys) ≡ total xs + total ys
total-append [] ys = omega arith
total-append (x ∷ xs) ys = omega (arith, total-append xs ys)

All-removed :
    (xs ys : List Retry) (r : Retry)
    → All IsLive (xs ++ r ∷ ys)
    → (0 < r.attempts_left) × All IsLive (xs ++ ys)
All-removed [] ys r h = (h.0, h.1)
All-removed (x ∷ xs) ys r h = let (live, rest) = All-removed xs ys r h.1 in (live, (h.0, rest))

-- An attempt spends at least one of those left.
spent :
    (env : Environment) (s : Store) (n a : ℕ) (pinned : Option RecentCapture)
    → 0 < a
    → All IsLive s.retries
    → let left = (process_clipboard_clear env s n a pinned).retries in
      All IsLive left × (total left < a + total s.retries)
spent env s n a pinned h live =
    let left = (process_clipboard_clear env s n a pinned).retries in
    let IsSpent = λ (rs : List Retry). All IsLive rs × (total rs < a + total s.retries) in
    let same : left ≡ s.retries → IsSpent left = λ e. subst IsSpent (sym e) (live, omega arith) in
    elim (process_clipboard_clear-Schedules env s n a pinned) [
      | inl e ↦ same e
      | inr (c, t, inl e) ↦ same e
      | inr (c, t, inr (rest, e, f, g)) ↦ subst IsSpent (sym e) ((g, live), omega arith)
    ]

FollowUps-le : {s : Store} {k : ℕ} → FollowUps s k → All IsLive s.retries → k ≤ total s.retries
FollowUps-le waits live = omega arith
FollowUps-le {s} (fires before after r env s' e e' more) live =
    let (one, others) = All-removed before after r (subst (All IsLive) e live) in
    let (live', less) =
      spent env s' r.sequence r.attempts_left (some r.capture) one
        (subst (All IsLive) (sym e') others) in
    omega (
      arith,
      FollowUps-le more live',
      less,
      ap total e,
      ap total e',
      total-append before (r ∷ after),
      total-append before after,
    )

-- A clear with `a` attempts left is followed by fewer than `a` further attempts, counting all retries
-- of retries and in whichever order they fire, whichever statements fail and whatever else happens
-- meanwhile, other clears excepted.
pub FollowUps-lt :
    (env : Environment) (s : Store) (n a k : ℕ) (pinned : Option RecentCapture)
    → 0 < a
    → s.retries ≡ []
    → FollowUps (process_clipboard_clear env s n a pinned) k
    → k < a
FollowUps-lt env s n a k pinned h none_left more =
    let (live, less) = spent env s n a pinned h (subst (All IsLive) (sym none_left) tt) in
    omega (arith, FollowUps-le more live, less, ap total none_left)
