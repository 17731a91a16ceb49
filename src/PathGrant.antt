-- ===== src/PathGrant.antt =====
-- Grants that bind a path to the file picker, src-tauri/src/path_grant.rs.
-- A `SystemTime` and a `Duration` are numbers of nanoseconds. The map has one place for each
-- purpose; the table records whether its mutex is poisoned, which `lock_grants` reports.
pub mod Sessions
use Prim.Native.String.{String}
use text.Mathlib.Text.{◌==◌ as str_eq}
use cubby_clipboard.Prelude.{
  ℕ, ◌-◌, Bool, true, false, not, Option, none, some, ltb, leb, if◌then◌else◌,
}

pub data PathGrantPurpose : Type 0 where
  backup_save backup_open ditto_open : PathGrantPurpose

pub data GrantError : Type 0 where
  untrusted_path empty_path grant_table_unreadable grant_expired : GrantError

pub data GrantResult {ℓ} (A : Type ℓ) : Type ℓ where
  ok : A → GrantResult A
  err : GrantError → GrantResult A

abbrev pub settings_window_label : String
settings_window_label = "settings"

-- Sixty seconds.
abbrev pub grant_ttl : ℕ
grant_ttl = 60000000000

pub record PathGrant : Type 0 where
  pub path : String
  pub issued_at : ℕ

pub record PathGrantTable : Type 0 where
  pub grants : PathGrantPurpose → Option PathGrant
  pub poisoned : Bool

unfoldable pub new_table : PathGrantTable
new_table = record { grants = λ q. none; poisoned = false }

abbrev pub same_purpose : PathGrantPurpose → PathGrantPurpose → Bool
same_purpose backup_save backup_save = true
same_purpose backup_open backup_open = true
same_purpose ditto_open ditto_open = true
same_purpose _ _ = false

-- `insert` and `remove` of the map.
abbrev pub set_grant : PathGrantTable → PathGrantPurpose → Option PathGrant → PathGrantTable
set_grant t purpose g = record t { grants = λ q. if same_purpose q purpose then g else t.grants q }

unfoldable pub grant :
    PathGrantTable → PathGrantPurpose → String → ℕ → PathGrantTable × GrantResult String
grant t purpose path now =
    if str_eq path ""
    then (t, err empty_path)
    else if t.poisoned
    then (t, err grant_table_unreadable)
    else (set_grant t purpose (some (record { path = path; issued_at = now })), ok path)

-- `duration_since` fails if the clock went backwards.
abbrev pub is_expired : ℕ → PathGrant → Bool
is_expired now granted =
    if ltb now granted.issued_at then true else leb grant_ttl (now - granted.issued_at)

authorize_granted :
    PathGrantTable
    → PathGrantPurpose
    → String
    → Bool
    → ℕ
    → PathGrant
    → PathGrantTable × GrantResult (Unit {0})
authorize_granted t purpose path consume now granted =
    let expired = is_expired now granted in
    let t' = if expired then set_grant t purpose none else t in
    if not (str_eq granted.path path)
    then (t', err untrusted_path)
    else if expired
    then (t', err grant_expired)
    else if consume
    then (set_grant t' purpose none, ok tt)
    else (t', ok tt)

unfoldable pub authorize :
    PathGrantTable → PathGrantPurpose → String → Bool → ℕ → PathGrantTable × GrantResult (Unit {0})
unfolding authorize_granted
authorize t purpose path consume now =
    if str_eq path ""
    then (t, err empty_path)
    else if t.poisoned
    then (t, err grant_table_unreadable)
    else elim (t.grants purpose) [
      | none ↦ (t, err untrusted_path)
      | some granted ↦ authorize_granted t purpose path consume now granted
    ]

unfoldable pub clear : PathGrantTable → PathGrantTable × GrantResult (Unit {0})
clear t =
    if t.poisoned then (t, err grant_table_unreadable) else (record t { grants = λ q. none }, ok tt)

unfoldable pub drop_grants_if_settings_window :
    PathGrantTable → String → PathGrantTable × GrantResult (Unit {0})
unfolding clear
drop_grants_if_settings_window t label =
    if not (str_eq label settings_window_label) then (t, ok tt) else clear t

-- The IPC bodies: the body behind the grant is `run`, on the state `S` of the rest of the program.
module _ {ℓ κ} {S : Type ℓ} {R : Type κ} where
  pub granted_ipc :
      PathGrantPurpose
      → (S → S × R)
      → PathGrantTable
      → S
      → String
      → Bool
      → ℕ
      → PathGrantTable × S × GrantResult R
  granted_ipc purpose run t s path consume now =
      let (t', answer) = authorize t purpose path consume now in
      elim answer [ err e ↦ (t', s, err e) | ok _ ↦ let (s', r) = run s in (t', s', ok r) ]

  pub export_granted_backup :
      (S → S × R) → PathGrantTable → S → String → ℕ → PathGrantTable × S × GrantResult R
  unfolding granted_ipc
  export_granted_backup export t s path now = granted_ipc backup_save export t s path true now

  pub import_granted_backup :
      (Bool → S → S × R)
      → PathGrantTable
      → S
      → String
      → Bool
      → ℕ
      → PathGrantTable × S × GrantResult R
  unfolding granted_ipc
  import_granted_backup import_backup t s path dry_run now =
      granted_ipc backup_open (import_backup dry_run) t s path (not dry_run) now

  pub import_granted_ditto :
      (Bool → S → S × R)
      → PathGrantTable
      → S
      → String
      → Bool
      → ℕ
      → PathGrantTable × S × GrantResult R
  unfolding granted_ipc
  import_granted_ditto import_ditto t s path dry_run now =
      granted_ipc ditto_open (import_ditto dry_run) t s path (not dry_run) now
