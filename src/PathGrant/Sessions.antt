-- ===== src/PathGrant/Sessions.antt =====
-- What the grants of src-tauri/src/path_grant.rs authorize.
use Prim.Native.String.{String}
use text.Mathlib.Text.{◌==◌ as str_eq}
use text.Mathlib.TextEquality.{eq_iff}
use cubby_clipboard.Prelude.{
  ℕ, ◌+◌, ◌≤◌, ◌<◌, ◌≡◌, refl, ◌≢◌, ◌↔◌, ◌⊎◌, inl, inr, Bool, true, false, not, List, [], ◌∷◌, none,
  some, arith, Bool-cases, Option-cases,
}
use cubby_clipboard.PathGrant.{
  PathGrantPurpose, PathGrant, PathGrantTable, GrantResult, GrantError, granted_ipc, ok, err,
  grant_expired, grant_ttl, same_purpose, grant, authorize, new_table, backup_save, backup_open,
  ditto_open, drop_grants_if_settings_window, settings_window_label, export_granted_backup,
  import_granted_backup, import_granted_ditto,
}

-- The table holds a grant of this purpose for this path that is neither expired nor from the future.
pub record IsFresh (t : PathGrantTable) (purpose : PathGrantPurpose) (path : String) (now : ℕ)
    : Type 0 where
  pub holder : PathGrant
  pub held : t.grants purpose ≡ some holder
  pub same_path : holder.path ≡ path
  pub not_future : holder.issued_at ≤ now
  pub not_old : now < holder.issued_at + grant_ttl

authorize-IsFresh :
    (t : PathGrantTable) (purpose : PathGrantPurpose) (path : String) (consume : Bool) (now : ℕ)
    → (authorize t purpose path consume now).1 ≡ ok tt
    → (path ≢ "") × (t.poisoned ≡ false) × IsFresh t purpose path now
unfolding authorize
authorize-IsFresh t purpose path consume now h = elim (Option-cases (t.grants purpose)) [
  | inl e ↦ absurd (ground arith)
  | inr (g, e) ↦ (
    ground (arith, eq_iff path ""),
    ground arith,
    record {
      holder = g;
      held = e;
      same_path = ground (arith, eq_iff g.path path);
      not_future = ground arith;
      not_old = ground arith;
    },
  )
]

IsFresh-authorize :
    (t : PathGrantTable) (purpose : PathGrantPurpose) (path : String) (consume : Bool) (now : ℕ)
    → path ≢ ""
    → t.poisoned ≡ false
    → IsFresh t purpose path now
    → (authorize t purpose path consume now).1 ≡ ok tt
unfolding authorize
IsFresh-authorize t purpose path consume now p q f =
    ground (arith, eq_iff path "", eq_iff f.holder.path path)

-- A call is authorized exactly if its path is not empty, the table can be read, and the table holds
-- a grant of the same purpose for the same path, issued at most now and less than `grant_ttl` ago.
pub authorize_iff :
    (t : PathGrantTable) (purpose : PathGrantPurpose) (path : String) (consume : Bool) (now : ℕ)
    → ((authorize t purpose path consume now).1 ≡ ok tt)
      ↔ ((path ≢ "") × (t.poisoned ≡ false) × IsFresh t purpose path now)
authorize_iff t purpose path consume now = (
  authorize-IsFresh t purpose path consume now,
  λ (p, q, f). IsFresh-authorize t purpose path consume now p q f,
)

same_purpose_refl : (q : PathGrantPurpose) → same_purpose q q ≡ true
same_purpose_refl backup_save = refl
same_purpose_refl backup_open = refl
same_purpose_refl ditto_open = refl

authorize_removes :
    (t : PathGrantTable) (purpose : PathGrantPurpose) (path : String) (consume : Bool) (now : ℕ)
    → let (t', answer) = authorize t purpose path consume now in
      ((answer ≡ ok tt) × (consume ≡ true)) ⊎ (answer ≡ err grant_expired)
      → t'.grants purpose ≡ none
unfolding authorize
authorize_removes t purpose path consume now h = ground (arith, same_purpose_refl purpose)

-- A grant that a call has used up, or that a call has found expired, authorizes nothing later, at
-- any time and for any path; in the second case the call may be a dry run.
pub authorize_spent :
    (t : PathGrantTable) (purpose : PathGrantPurpose) (path path' : String)
    (consume consume' : Bool) (now later : ℕ)
    → let (t', answer) = authorize t purpose path consume now in
      ((answer ≡ ok tt) × (consume ≡ true)) ⊎ (answer ≡ err grant_expired)
      → (authorize t' purpose path' consume' later).1 ≢ ok tt
authorize_spent t purpose path path' consume consume' now later h okay =
    let t' = (authorize t purpose path consume now).0 in
    let (p, q, f) = authorize-IsFresh t' purpose path' consume' later okay in
    cc (f.held, authorize_removes t purpose path consume now h)

authorize_dry_run :
    (t : PathGrantTable) (purpose : PathGrantPurpose) (path : String) (now : ℕ)
    → (authorize t purpose path false now).1 ≡ ok tt
    → (authorize t purpose path false now).0 ≡ t
unfolding authorize
authorize_dry_run t purpose path now h = ground arith

-- Preview, then confirm: after a dry run that was authorized, a call with the same path is
-- authorized at every time at which the grant of the table before the dry run is fresh.
pub authorize_preview :
    (t : PathGrantTable) (purpose : PathGrantPurpose) (path : String) (consume : Bool)
    (now later : ℕ)
    → (authorize t purpose path false now).1 ≡ ok tt
    → IsFresh t purpose path later
    → (authorize (authorize t purpose path false now).0 purpose path consume later).1 ≡ ok tt
authorize_preview t purpose path consume now later h f =
    let (p, u, _) = authorize-IsFresh t purpose path false now h in
    rw (authorize_dry_run t purpose path now h)
      (IsFresh-authorize t purpose path consume later p u f)

-- What the program does with the table: the picker grants, an IPC call authorizes, a window closes.
pub data Event : Type 0 where
  picks : PathGrantPurpose → String → Event
  asks : PathGrantPurpose → String → Bool → Event
  closes : String → Event

abbrev pub after : PathGrantTable → ℕ × Event → PathGrantTable
after t (now, picks q path) = (grant t q path now).0
after t (now, asks q path consume) = (authorize t q path consume now).0
after t (now, closes label) = (drop_grants_if_settings_window t label).0

-- The table after a history, whose newest event comes first.
abbrev pub table_after : List (ℕ × Event) → PathGrantTable
table_after [] = new_table
table_after (e ∷ es) = after (table_after es) e

-- The picker produced the path for the purpose, and no Settings window has closed since.
abbrev pub WasPicked : PathGrantPurpose → String → List (ℕ × Event) → Type 0
WasPicked q path [] = ⊥
WasPicked q path ((now, picks q' path') ∷ es) = ((q' ≡ q) × (path' ≡ path)) ⊎ WasPicked q path es
WasPicked q path ((now, asks q' path' consume) ∷ es) = WasPicked q path es
WasPicked q path ((now, closes label) ∷ es) = (label ≢ settings_window_label) × WasPicked q path es

same_purpose→eq : (q r : PathGrantPurpose) → same_purpose q r ≡ true → q ≡ r
same_purpose→eq q r h = ground arith

not_poisoned : (es : List (ℕ × Event)) → (table_after es).poisoned ≡ false
unfolding new_table grant authorize drop_grants_if_settings_window
not_poisoned [] = refl
not_poisoned ((now, picks q path) ∷ es) = ground (arith, not_poisoned es)
not_poisoned ((now, asks q path consume) ∷ es) = ground (arith, not_poisoned es)
not_poisoned ((now, closes label) ∷ es) = ground (arith, not_poisoned es)

grants-WasPicked :
    (es : List (ℕ × Event)) (q : PathGrantPurpose) (g : PathGrant)
    → (table_after es).grants q ≡ some g
    → WasPicked q g.path es
unfolding new_table grant authorize drop_grants_if_settings_window
grants-WasPicked [] q g h = cc
grants-WasPicked ((now, picks r path) ∷ es) q g h = elim (Bool-cases (str_eq path "")) [
  | inl e ↦ inr (grants-WasPicked es q g (ground arith))
  | inr e ↦ elim (Bool-cases (same_purpose q r)) [
    | inl s ↦ inl (ground (arith, same_purpose→eq q r s), ground (arith, not_poisoned es))
    | inr s ↦ inr (grants-WasPicked es q g (ground arith))
  ]
]
grants-WasPicked ((now, asks r path consume) ∷ es) q g h = grants-WasPicked es q g (ground arith)
grants-WasPicked ((now, closes label) ∷ es) q g h = (
  ground (arith, eq_iff label settings_window_label, not_poisoned es),
  grants-WasPicked es q g (ground (arith, not_poisoned es)),
)

-- Over any history from an empty table: a path that is authorized for a purpose was produced by the
-- picker for that purpose, and no Settings window has closed since.
pub authorize-WasPicked :
    (es : List (ℕ × Event)) (q : PathGrantPurpose) (path : String) (consume : Bool) (now : ℕ)
    → (authorize (table_after es) q path consume now).1 ≡ ok tt
    → WasPicked q path es
authorize-WasPicked es q path consume now h =
    let (p, u, f) = authorize-IsFresh (table_after es) q path consume now h in
    rw (← f.same_path) (grants-WasPicked es q f.holder f.held)

answer-cases : (r : GrantResult (Unit {0})) → (r ≡ ok tt) ⊎ ((e : GrantError) × (r ≡ err e))
answer-cases (ok u) = inl refl
answer-cases (err e) = inr (e, refl)

module _ {ℓ κ} {S : Type ℓ} {R : Type κ} where
  granted_ipc-cases :
      (es : List (ℕ × Event)) (q : PathGrantPurpose) (run : S → S × R) (s : S) (path : String)
      (consume : Bool) (now : ℕ)
      → ((granted_ipc q run (table_after es) s path consume now).1 ≡ s) ⊎ WasPicked q path es
  unfolding granted_ipc
  granted_ipc-cases es q run s path consume now =
      elim (answer-cases (authorize (table_after es) q path consume now).1) [
        | inl okay ↦ inr (authorize-WasPicked es q path consume now okay)
        | inr (e, refused) ↦ inl (rw (refused, granted_ipc))
      ]

  -- After any history, an export or import call leaves the rest of the program as it was, or its
  -- path was produced by the picker of its own purpose and no Settings window has closed since.
  pub ipc_needs_pick :
      (es : List (ℕ × Event)) (export : S → S × R) (import_backup import_ditto : Bool → S → S × R)
      (s : S) (path : String) (dry_run : Bool) (now : ℕ)
      → let t = table_after es in
        (((export_granted_backup export t s path now).1 ≡ s) ⊎ WasPicked backup_save path es)
        × (((import_granted_backup import_backup t s path dry_run now).1 ≡ s)
            ⊎ WasPicked backup_open path es)
        × (((import_granted_ditto import_ditto t s path dry_run now).1 ≡ s)
            ⊎ WasPicked ditto_open path es)
  unfolding export_granted_backup import_granted_backup import_granted_ditto
  ipc_needs_pick es export import_backup import_ditto s path dry_run now = (
    granted_ipc-cases es backup_save export s path true now,
    granted_ipc-cases es backup_open (import_backup dry_run) s path (not dry_run) now,
    granted_ipc-cases es ditto_open (import_ditto dry_run) s path (not dry_run) now,
  )
