-- ===== src/OcrQueue/Selection.antt =====
-- The row that the SELECT of `claim_next` of src-tauri/src/ocr_queue.rs finds.
use Prim.Native.String.{String}
use text.Mathlib.Text.{◌==◌ as str_eq}
use text.Mathlib.TextEquality.{eq_iff}
use mathlib.Core.Path.{subst}
use cubby_clipboard.Prelude.{
  ℕ, ◌+◌, ◌≤◌, ◌<◌, ◌≡◌, refl, sym, ap, not, ◌++◌, ◌⊎◌, Bool-cases, inl, inr, true, false, ◌&&◌,
  List, [], ◌∷◌, none, some, arith, if◌then◌else◌, Option-cases, All,
}
use cubby_clipboard.OcrQueue.{
  OcrClip, processing, is_waiting, is_claimable, is_newer, select_next, update, mark_processing,
}

-- No claimable row stands before this one.
abbrev pub IsFirst : ℕ → List OcrClip → OcrClip → Type 0
IsFirst now cs c = All (λ d. (is_claimable now d && is_newer d c) ≡ false) cs

pub select_next-claimable :
    (now : ℕ) (cs : List OcrClip) (c : OcrClip)
    → select_next now cs ≡ some c
    → is_claimable now c ≡ true
unfolding select_next
select_next-claimable now [] c e = cc
select_next-claimable now (d ∷ ds) c e = elim (Option-cases (select_next now ds)) [
  | inl h ↦ ground (arith, h)
  | inr (b, h) ↦ ground (arith, h, select_next-claimable now ds b h)
]

IsFirst-newer :
    (now : ℕ) (cs : List OcrClip) (a b : OcrClip)
    → is_newer b a ≡ false
    → IsFirst now cs b
    → IsFirst now cs a
IsFirst-newer now [] a b h f = tt
IsFirst-newer now (c ∷ cs) a b h f = (ground arith, IsFirst-newer now cs a b h f.1)

pub select_next-none :
    (now : ℕ) (cs : List OcrClip)
    → select_next now cs ≡ none
    → All (λ d. is_claimable now d ≡ false) cs
unfolding select_next
select_next-none now [] e = tt
select_next-none now (d ∷ ds) e = (ground arith, select_next-none now ds (ground arith))

IsFirst-none :
    (now : ℕ) (cs : List OcrClip) (c : OcrClip)
    → All (λ d. is_claimable now d ≡ false) cs
    → IsFirst now cs c
IsFirst-none now [] c h = tt
IsFirst-none now (d ∷ ds) c h = (ground (arith, h.0), IsFirst-none now ds c h.1)

pub select_next-IsFirst :
    (now : ℕ) (cs : List OcrClip) (c : OcrClip) → select_next now cs ≡ some c → IsFirst now cs c
unfolding select_next
select_next-IsFirst now [] c e = tt
select_next-IsFirst now (d ∷ ds) c e = elim (Option-cases (select_next now ds)) [
  | inl h ↦ (ground (arith, h), IsFirst-none now ds c (select_next-none now ds h))
  | inr (b, h) ↦ (
    ground (arith, h),
    IsFirst-newer now ds c b (ground (arith, h)) (select_next-IsFirst now ds b h),
  )
]

-- How many rows have the identifier.
abbrev pub uuid_count : String → List OcrClip → ℕ
uuid_count u [] = 0
uuid_count u (c ∷ cs) = (if str_eq c.uuid u then 1 else 0) + uuid_count u cs

-- The column `uuid` is unique.
abbrev pub IsUnique : List OcrClip → Type 0
IsUnique clips = (u : String) → uuid_count u clips ≤ 1

abbrev pub claim_update : String → List OcrClip → List OcrClip × ℕ
claim_update u clips =
    update (λ c. str_eq c.uuid u && is_waiting c.ocr_status) mark_processing clips

pub claim_update-le : (u : String) (cs : List OcrClip) → (claim_update u cs).1 ≤ uuid_count u cs
unfolding update
claim_update-le u [] = omega arith
claim_update-le u (c ∷ cs) = ground (arith, claim_update-le u cs)

pub claim_update-some :
    (now : ℕ) (cs : List OcrClip) (c : OcrClip)
    → select_next now cs ≡ some c
    → 0 < (claim_update c.uuid cs).1
unfolding update select_next
claim_update-some now [] c e = cc
claim_update-some now (d ∷ ds) c e = elim (Option-cases (select_next now ds)) [
  | inl h ↦ ground (arith, h, eq_iff c.uuid c.uuid)
  | inr (b, h) ↦ ground (arith, h, claim_update-some now ds b h, eq_iff c.uuid c.uuid)
]

-- A claimed row.
abbrev pub claimed : OcrClip → OcrClip
claimed c = record c {
  ocr_status = some processing;
  ocr_attempts = c.ocr_attempts + 1;
  ocr_next_retry_at = none;
  ocr_error_kind = none;
}

-- The second table is the first with this row claimed, which stands in it, and all others the same.
abbrev pub IsClaimOf : OcrClip → List OcrClip → List OcrClip → Type 0
IsClaimOf row clips clips' =
    (before : List OcrClip) × (after : List OcrClip) × (clips ≡ before ++ row ∷ after)
    × (clips' ≡ before ++ claimed row ∷ after)

row_cases :
    (now : ℕ) (d : OcrClip) (ds : List OcrClip) (row : OcrClip)
    → select_next now (d ∷ ds) ≡ some row
    → (d ≡ row) ⊎ (select_next now ds ≡ some row)
unfolding select_next
row_cases now d ds row e = elim (Option-cases (select_next now ds)) [
  | inl h ↦ inl (ground (arith, h))
  | inr (b, h) ↦ elim (Bool-cases (is_claimable now d && not (is_newer b d))) [
    | inl t ↦ inl (ground (arith, h, t))
    | inr t ↦ inr (ground (arith, h, t))
  ]
]

claim_update-absent :
    (u : String) (cs : List OcrClip) → uuid_count u cs ≡ 0 → (claim_update u cs).0 ≡ cs
unfolding update
claim_update-absent u [] h = refl
claim_update-absent u (c ∷ cs) h = ground (arith, claim_update-absent u cs (ground (arith, h)))

claim_update-head :
    (row : OcrClip) (cs : List OcrClip)
    → is_waiting row.ocr_status ≡ true
    → uuid_count row.uuid (row ∷ cs) ≤ 1
    → IsClaimOf row (row ∷ cs) (claim_update row.uuid (row ∷ cs)).0
unfolding update
claim_update-head row cs waits one =
    let own = (eq_iff row.uuid row.uuid).1 refl in
    let rest = claim_update-absent row.uuid cs (ground (arith, own, one)) in
    ([], cs, refl, ground (arith, own, waits, rest))

claim_update-tail :
    (row c : OcrClip) (cs : List OcrClip)
    → str_eq c.uuid row.uuid ≡ false
    → IsClaimOf row cs (claim_update row.uuid cs).0
    → IsClaimOf row (c ∷ cs) (claim_update row.uuid (c ∷ cs)).0
unfolding update
claim_update-tail row c cs other (before, after, e, f) =
    (c ∷ before, after, ap (λ l. c ∷ l) e, ground (arith, other, f))

pub claim_update-IsClaimOf :
    (now : ℕ) (cs : List OcrClip) (row : OcrClip)
    → select_next now cs ≡ some row
    → uuid_count row.uuid cs ≤ 1
    → IsClaimOf row cs (claim_update row.uuid cs).0
unfolding select_next
claim_update-IsClaimOf now [] row e one = cc
claim_update-IsClaimOf now (d ∷ ds) row e one =
    let head : d ≡ row → IsClaimOf row (d ∷ ds) (claim_update row.uuid (d ∷ ds)).0 = λ same.
      subst (λ c. IsClaimOf row (c ∷ ds) (claim_update row.uuid (c ∷ ds)).0) (sym same)
        (claim_update-head row ds (ground (arith, select_next-claimable now (d ∷ ds) row e))
          (subst (λ c. uuid_count row.uuid (c ∷ ds) ≤ 1) same one)) in
    elim (row_cases now d ds row e) [
      | inl same ↦ head same
      | inr later ↦
          claim_update-tail row d ds
            (ground (arith, one, claim_update-some now ds row later, claim_update-le row.uuid ds))
            (claim_update-IsClaimOf now ds row later (ground (arith, one)))
    ]

-- No row with the identifier can be claimed.
abbrev pub IsShut : ℕ → String → List OcrClip → Type 0
IsShut now u = All (λ c. (str_eq c.uuid u && is_claimable now c) ≡ false)

pub select_next-IsShut :
    (now : ℕ) (u : String) (cs : List OcrClip) (c : OcrClip)
    → IsShut now u cs
    → select_next now cs ≡ some c
    → str_eq c.uuid u ≡ false
unfolding select_next
select_next-IsShut now u [] c h e = cc
select_next-IsShut now u (d ∷ ds) c h e = elim (Option-cases (select_next now ds)) [
  | inl n ↦ ground (arith, n, h.0)
  | inr (b, n) ↦ ground (arith, n, h.0, select_next-IsShut now u ds b h.1 n)
]
