-- ===== src/WinVActivation/Rate.antt =====
-- The rate limit of src-tauri/src/win_v_activation.rs.
use mathlib.Core.List.{append_assoc, append-nil}
use cubby_clipboard.Prelude.{
  ℕ, ◌+◌, ◌-◌, ◌≤◌, ◌≡◌, refl, ap, inl, inr, List, [], ◌∷◌, ◌++◌, leb, arith, if◌then◌else◌,
  Bool-cases, length, All, All-append, length-append,
}
use cubby_clipboard.WinVActivation.{drop_old, allow, rate_window, rate_max_accepts}

-- The times accepted so far, oldest first, and the limiter's stamps.
pub record Limiter : Type 0 where
  pub accepted : List ℕ
  pub stamps : List ℕ

-- The limiter after packets at these times, newest first.
pub limiter_after : List ℕ → Limiter
limiter_after [] = record { accepted = []; stamps = [] }
limiter_after (now ∷ times) =
    let before = limiter_after times in
    let (allowed, stamps) = allow before.stamps now in
    record {
      accepted = if allowed then before.accepted ++ now ∷ [] else before.accepted;
      stamps = stamps;
    }

-- How many of the times are less than a window old.
abbrev pub count_recent : ℕ → List ℕ → ℕ
count_recent now [] = 0
count_recent now (t ∷ ts) = (if leb rate_window (now - t) then 0 else 1) + count_recent now ts

abbrev pub IsFalling : ℕ → List ℕ → Type 0
IsFalling now [] = Unit {0}
IsFalling now (t ∷ ts) = (t ≤ now) × IsFalling t ts

abbrev AreOld : ℕ → List ℕ → Type 0
AreOld now = All (λ t. rate_window ≤ now - t)

AreOld-mono : (now later : ℕ) (ts : List ℕ) → now ≤ later → AreOld now ts → AreOld later ts
AreOld-mono now later [] h o = tt
AreOld-mono now later (t ∷ ts) h o = (omega arith, AreOld-mono now later ts h o.1)

count_recent-append :
    (now : ℕ) (xs ys : List ℕ)
    → count_recent now (xs ++ ys) ≡ count_recent now xs + count_recent now ys
count_recent-append now [] ys = omega arith
count_recent-append now (x ∷ xs) ys = omega (arith, count_recent-append now xs ys)

count_recent-le-length : (now : ℕ) (xs : List ℕ) → count_recent now xs ≤ length xs
count_recent-le-length now [] = omega arith
count_recent-le-length now (x ∷ xs) = ground (arith, count_recent-le-length now xs)

count_recent_of_AreOld : (now : ℕ) (xs : List ℕ) → AreOld now xs → count_recent now xs ≡ 0
count_recent_of_AreOld now [] o = refl
count_recent_of_AreOld now (x ∷ xs) o = ground (arith, count_recent_of_AreOld now xs o.1)

drop_old-split :
    (now : ℕ) (xs : List ℕ) → (old : List ℕ) × (xs ≡ old ++ drop_old xs now) × AreOld now old
unfolding drop_old
drop_old-split now [] = ([], refl, tt)
drop_old-split now (x ∷ xs) = elim (Bool-cases (leb rate_window (now - x))) [
  | inl e ↦
      let (old, same, o) = drop_old-split now xs in
      (x ∷ old, rw (e, drop_old) (ap (◌∷◌ x) same), (ground arith, o))
  | inr e ↦ ([], rw (e, drop_old), tt)
]

-- The stamps are the accepted times but for some that are a window old.
record IsExact (now : ℕ) (l : Limiter) : Type 0 where
  expired : List ℕ
  same : l.accepted ≡ expired ++ l.stamps
  are_old : AreOld now expired

regroup :
    (expired old kept rest : List ℕ) (stamps accepted : List ℕ)
    → accepted ≡ expired ++ stamps
    → stamps ≡ old ++ kept
    → accepted ++ rest ≡ (expired ++ old) ++ (kept ++ rest)
regroup expired old kept rest stamps accepted e f = rw (e, f) (simp append_assoc)

limiter_after-IsExact :
    (now : ℕ) (times : List ℕ) → IsFalling now times → IsExact now (limiter_after times)
unfolding limiter_after allow
limiter_after-IsExact now [] f = record { expired = []; same = refl; are_old = tt }
limiter_after-IsExact now (t ∷ times) f =
    let before = limiter_after times in
    let k = limiter_after-IsExact t times f.1 in
    let (old, split, o) = drop_old-split t before.stamps in
    let kept = drop_old before.stamps t in
    record {
      expired = k.expired ++ old;
      same = ground (
        arith,
        regroup k.expired old kept (t ∷ []) before.stamps before.accepted k.same split,
        regroup k.expired old kept [] before.stamps before.accepted k.same split,
        append-nil kept,
        append-nil before.accepted,
      );
      are_old = AreOld-mono t now (k.expired ++ old) f.0 (All-append _ k.expired old k.are_old o);
    }

length-limiter_after : (times : List ℕ) → length (limiter_after times).stamps ≤ rate_max_accepts
unfolding limiter_after allow
length-limiter_after [] = omega arith
length-limiter_after (now ∷ times) =
    let kept = drop_old (limiter_after times).stamps now in
    let split = drop_old-split now (limiter_after times).stamps in
    ground (
      arith,
      length-limiter_after times,
      length-append kept (now ∷ []),
      length-append split.0 kept,
      ap length split.1,
    )

-- For packets at times that do not fall, at most `rate_max_accepts` of the accepted ones are less
-- than a window old, at the last packet and at any time after it.
pub accepted_rate :
    (now : ℕ) (times : List ℕ)
    → IsFalling now times
    → count_recent now (limiter_after times).accepted ≤ rate_max_accepts
accepted_rate now times f =
    let k = limiter_after-IsExact now times f in
    let l = limiter_after times in
    rw k.same (
      omega (
        arith,
        count_recent-append now k.expired l.stamps,
        count_recent_of_AreOld now k.expired k.are_old,
        count_recent-le-length now l.stamps,
        length-limiter_after times,
      ))
