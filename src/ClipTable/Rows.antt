-- ===== src/ClipTable/Rows.antt =====
-- Which rows the statements on the table of src-tauri/src/database.rs reach.
use Prim.Native.String.{String}
use text.Mathlib.Text.{◌==◌ as str_eq}
use text.Mathlib.TextEquality.{eq_iff}
use cubby_clipboard.Prelude.{
  ◌≤◌, ◌≡◌, ◌≢◌, refl, inl, inr, Bool, true, false, List, [], ◌∷◌, none, some, arith, if◌then◌else◌,
  Bool-cases,
}
use cubby_clipboard.ClipTable.{
  Clip, is_uuid, select, uuids_where, update_where, delete_where, count_where, is_in,
}

-- Two strings are compared alike from either side.
pub str_eq_comm : (u v : String) → str_eq u v ≡ str_eq v u
str_eq_comm u v = ground (arith, eq_iff u v, eq_iff v u)

-- An identifier is of at most one row.
abbrev pub IsUniqueId : String → List Clip → Type 0
IsUniqueId u cs = count_where (is_uuid u) cs ≤ 1

-- An update that leaves the identifiers alone.
abbrev pub KeepsId : (Clip → Clip) → Type 0
KeepsId set = (c : Clip) → (set c).columns.uuid ≡ c.columns.uuid

module _ (u : String) (test : Clip → Bool) where
  absent-is_in :
      (cs : List Clip) → count_where (is_uuid u) cs ≡ 0 → is_in (uuids_where test cs) u ≡ false
  unfolding count_where uuids_where is_in
  absent-is_in [] h = refl
  absent-is_in (c ∷ cs) h =
      ground (arith, absent-is_in cs (ground (arith, h)), str_eq_comm u c.columns.uuid)

  -- The identifier of a row that fails the test is not selected.
  pub is_in-false :
      (cs : List Clip) (c : Clip)
      → IsUniqueId u cs
      → select (is_uuid u) cs ≡ some c
      → test c ≡ false
      → is_in (uuids_where test cs) u ≡ false
  unfolding count_where uuids_where is_in select
  is_in-false [] c one e h = cc
  is_in-false (d ∷ ds) c one e h = elim (Bool-cases (is_uuid u d)) [
    | inl t ↦ ground (arith, absent-is_in ds (ground (arith, t)))
    | inr t ↦ ground (
      arith,
      is_in-false ds c (ground (arith, t)) (ground (arith, t)) h,
      str_eq_comm u d.columns.uuid,
    )
  ]

  -- The identifier of a row that meets the test is.
  pub is_in-true :
      (cs : List Clip) (c : Clip)
      → select (is_uuid u) cs ≡ some c
      → test c ≡ true
      → is_in (uuids_where test cs) u ≡ true
  unfolding uuids_where is_in select
  is_in-true [] c e h = cc
  is_in-true (d ∷ ds) c e h = elim (Bool-cases (is_uuid u d)) [
    | inl t ↦ ground (arith, t, str_eq_comm u d.columns.uuid)
    | inr t ↦ ground (arith, is_in-true ds c (ground (arith, t)) h)
  ]

module _ (u : String) (vs : List String) where
  -- A row whose identifier is not among those is neither changed nor deleted.
  pub select-update_others :
      (set : Clip → Clip) (cs : List Clip)
      → KeepsId set
      → is_in vs u ≡ false
      → select (is_uuid u) (update_where (λ c. is_in vs c.columns.uuid) set cs)
        ≡ select (is_uuid u) cs
  unfolding update_where select
  select-update_others set [] keeps h = refl
  select-update_others set (c ∷ cs) keeps h =
      ground (arith, select-update_others set cs keeps h, keeps c, eq_iff c.columns.uuid u)

  pub select-delete_others :
      (cs : List Clip)
      → is_in vs u ≡ false
      → select (is_uuid u) (delete_where (λ c. is_in vs c.columns.uuid) cs) ≡ select (is_uuid u) cs
  unfolding delete_where select
  select-delete_others [] h = refl
  select-delete_others (c ∷ cs) h =
      ground (arith, select-delete_others cs h, eq_iff c.columns.uuid u)

  -- A row whose identifier is among those is changed, or deleted.
  pub select-update_these :
      (set : Clip → Clip) (cs : List Clip) (c : Clip)
      → KeepsId set
      → is_in vs u ≡ true
      → select (is_uuid u) cs ≡ some c
      → select (is_uuid u) (update_where (λ c. is_in vs c.columns.uuid) set cs) ≡ some (set c)
  unfolding update_where select
  select-update_these set [] c keeps h e = cc
  select-update_these set (d ∷ ds) c keeps h e = elim (Bool-cases (is_uuid u d)) [
    | inl t ↦ ground (arith, t, keeps d, eq_iff d.columns.uuid u)
    | inr t ↦ ground (
      arith,
      select-update_these set ds c keeps h (ground (arith, t)),
      keeps d,
      eq_iff d.columns.uuid u,
    )
  ]

  pub select-delete_these :
      (cs : List Clip)
      → is_in vs u ≡ true
      → select (is_uuid u) (delete_where (λ c. is_in vs c.columns.uuid) cs) ≡ none
  unfolding delete_where select
  select-delete_these [] h = refl
  select-delete_these (c ∷ cs) h = ground (arith, select-delete_these cs h, eq_iff c.columns.uuid u)

-- Counting the rows of a test that an update does not touch.
pub count-update :
    (test where_ : Clip → Bool) (set : Clip → Clip) (cs : List Clip)
    → ((c : Clip) → test (set c) ≡ test c)
    → count_where test (update_where where_ set cs) ≡ count_where test cs
unfolding update_where count_where
count-update test where_ set [] keeps = refl
count-update test where_ set (c ∷ cs) keeps =
    ground (arith, count-update test where_ set cs keeps, keeps c)

pub count-delete :
    (test where_ : Clip → Bool) (cs : List Clip)
    → count_where test (delete_where where_ cs) ≤ count_where test cs
unfolding delete_where count_where
count-delete test where_ [] = omega arith
count-delete test where_ (c ∷ cs) = ground (arith, count-delete test where_ cs)

-- A SELECT finds nothing only if there is no such row.
pub count-unselected :
    (test : Clip → Bool) (cs : List Clip) → select test cs ≡ none → count_where test cs ≡ 0
unfolding select count_where
count-unselected test [] e = refl
count-unselected test (c ∷ cs) e = ground (arith, count-unselected test cs (ground arith))

pub select-satisfies :
    (test : Clip → Bool) (cs : List Clip) (c : Clip) → select test cs ≡ some c → test c ≡ true
unfolding select
select-satisfies test [] c e = cc
select-satisfies test (d ∷ ds) c e = elim (Bool-cases (test d)) [
  | inl t ↦ ground (arith, t)
  | inr t ↦ ground (arith, select-satisfies test ds c (ground (arith, t)))
]

-- An update of the rows with this identifier reaches the row that a SELECT finds.
pub select-update_where :
    (u : String) (where_ : Clip → Bool) (set : Clip → Clip) (cs : List Clip) (c : Clip)
    → KeepsId set
    → select (is_uuid u) cs ≡ some c
    → select (is_uuid u) (update_where where_ set cs) ≡ some (if where_ c then set c else c)
unfolding select update_where
select-update_where u where_ set [] c keeps e = cc
select-update_where u where_ set (d ∷ ds) c keeps e = elim (Bool-cases (is_uuid u d)) [
  | inl t ↦ ground (arith, t, keeps d, eq_iff d.columns.uuid u)
  | inr t ↦ ground (
    arith,
    t,
    keeps d,
    eq_iff d.columns.uuid u,
    select-update_where u where_ set ds c keeps (ground (arith, t)),
  )
]

selected_counted :
    (test : Clip → Bool) (cs : List Clip) (c : Clip)
    → select test cs ≡ some c
    → count_where (is_uuid c.columns.uuid) cs ≢ 0
unfolding select count_where
selected_counted test [] c e zero_count = absurd (cc)
selected_counted test (d ∷ ds) c e zero_count = elim (Bool-cases (test d)) [
  | inl t ↦ absurd (ground (arith, t, eq_iff d.columns.uuid c.columns.uuid))
  | inr t ↦ selected_counted test ds c (ground (arith, t)) (ground (arith, zero_count))
]

-- The row that another test selects is the one of its identifier.
pub select-by_uuid :
    (test : Clip → Bool) (cs : List Clip) (c : Clip)
    → IsUniqueId c.columns.uuid cs
    → select test cs ≡ some c
    → select (is_uuid c.columns.uuid) cs ≡ some c
unfolding select count_where
select-by_uuid test [] c one e = cc
select-by_uuid test (d ∷ ds) c one e = elim (Bool-cases (test d)) [
  | inl t ↦ ground (arith, t, eq_iff d.columns.uuid c.columns.uuid)
  | inr t ↦ elim (Bool-cases (is_uuid c.columns.uuid d)) [
    | inr h ↦ ground (arith, t, h, select-by_uuid test ds c (ground (arith, h)) (ground (arith, t)))
    | inl h ↦ absurd (selected_counted test ds c (ground (arith, t)) (ground (arith, h, one)))
  ]
]
