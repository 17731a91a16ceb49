-- ===== src/FileReplace.antt =====
-- A file and the temporary file beside it that takes its place: src-tauri/src/settings_load.rs and
-- src-tauri/src/image_stage.rs. Of the file system a `Disk` has the two paths. What the operating
-- system does is an `Os`, and `IsOs` states what its calls promise.
pub mod Settings
pub mod Images
pub mod Backups
pub mod Survival
pub mod Staging
pub mod Copies
use cubby_clipboard.Prelude.{
  ℕ, ◌≡◌, ◌⊎◌, Bool, true, false, not, ◌&&◌, List, Option, none, some, if◌then◌else◌,
}

pub data Node : Type 0 where
  file : List ℕ → Node
  directory : Node

pub record Disk : Type 0 where
  pub dest : Option Node
  pub tmp : Option Node

abbrev pub exists : Option Node → Bool
exists none = false
exists (some n) = true

abbrev pub is_file : Option Node → Bool
is_file none = false
is_file (some (file bytes)) = true
is_file (some directory) = false

-- `fs::rename` and `MoveFileExW` of the temporary onto the file, `fs::remove_file`, `fs::write`,
-- `create_new` and `write_all` of the temporary. A Boolean tells whether the call returned `Ok`.
pub record Os : Type 0 where
  pub rename : Disk → Bool × Disk
  pub replace : Disk → Bool × Disk
  pub remove_tmp : Disk → Disk
  pub write : Disk → List ℕ → Bool × Disk
  pub create_new : Disk → Bool × Disk
  pub write_all : Disk → List ℕ → Bool × Disk

-- A rename that fails changes nothing. A replace that fails may have deleted the file, as on FAT,
-- and leaves the temporary. No write to the temporary touches the file. A creation that must be
-- exclusive changes nothing if the name is taken, or if it fails.
pub record IsOs (os : Os) : Type 0 where
  pub rename_moves : (d : Disk) → (os.rename d).0 ≡ true → (os.rename d).1.dest ≡ d.tmp
  pub rename_fails : (d : Disk) → (os.rename d).0 ≡ false → (os.rename d).1 ≡ d
  pub replace_moves : (d : Disk) → (os.replace d).0 ≡ true → (os.replace d).1.dest ≡ d.tmp
  pub replace_keeps_tmp : (d : Disk) → (os.replace d).0 ≡ false → (os.replace d).1.tmp ≡ d.tmp
  pub replace_dest :
      (d : Disk)
      → (os.replace d).0 ≡ false
      → ((os.replace d).1.dest ≡ d.dest) ⊎ ((os.replace d).1.dest ≡ none)
  pub remove_keeps_dest : (d : Disk) → (os.remove_tmp d).dest ≡ d.dest
  pub write_keeps_dest : (d : Disk) (bytes : List ℕ) → (os.write d bytes).1.dest ≡ d.dest
  pub write_writes :
      (d : Disk) (bytes : List ℕ)
      → (os.write d bytes).0 ≡ true
      → (os.write d bytes).1.tmp ≡ some (file bytes)
  pub create_exclusive : (d : Disk) → exists d.tmp ≡ true → (os.create_new d).0 ≡ false
  pub create_fails : (d : Disk) → (os.create_new d).0 ≡ false → (os.create_new d).1 ≡ d
  pub create_keeps_dest : (d : Disk) → (os.create_new d).1.dest ≡ d.dest
  pub write_all_keeps_dest : (d : Disk) (bytes : List ℕ) → (os.write_all d bytes).1.dest ≡ d.dest
  pub write_all_writes :
      (d : Disk) (bytes : List ℕ)
      → (os.write_all d bytes).0 ≡ true
      → (os.write_all d bytes).1.tmp ≡ some (file bytes)

-- `write_staged_image_temp`; its `sync_all` is in `write_all`.
unfoldable pub write_staged_image_temp : Os → Disk → List ℕ → Bool × Disk
write_staged_image_temp os d bytes =
    let (created, d') = os.create_new d in
    let (written, d'') = os.write_all d' bytes in
    if not created then (false, d') else if written then (true, d'') else (false, os.remove_tmp d'')

-- Beside a file the temporary is stale; without one it may be the only copy.
unfoldable pub write_settings_temp : Os → Disk → List ℕ → Bool × Disk
write_settings_temp os d bytes =
    let (created, d') = os.create_new d in
    let (written, d'') = os.write_all d' bytes in
    if is_file d.dest
    then os.write d bytes
    else if not created
    then (false, d')
    else if written
    then (true, d'')
    else (false, os.remove_tmp d'')

pub data SettingsDiskSource : Type 0 where
  canonical : SettingsDiskSource
  interrupted_tmp : SettingsDiskSource
  missing : SettingsDiskSource

unfoldable pub resolve_settings_disk_source : Disk → SettingsDiskSource
resolve_settings_disk_source d =
    if exists d.dest then canonical else if exists d.tmp then interrupted_tmp else missing

abbrev pub may_persist_first_run_defaults : SettingsDiskSource → Bool
may_persist_first_run_defaults canonical = true
may_persist_first_run_defaults interrupted_tmp = false
may_persist_first_run_defaults missing = true

unfoldable pub promote_interrupted_tmp : Os → Disk → Bool × Disk
promote_interrupted_tmp os d =
    if exists d.dest then (true, d) else if not (exists d.tmp) then (false, d) else os.rename d

unfoldable pub recover_dest_gone_replace : Os → Disk → Bool × Disk
recover_dest_gone_replace os d =
    if not (exists d.dest) && exists d.tmp then os.rename d else (false, d)

unfoldable pub recover_or_discard_replace_temp : Os → Disk → Bool × Disk
recover_or_discard_replace_temp os d =
    let (recovered, d') = recover_dest_gone_replace os d in
    if recovered
    then (true, d')
    else if is_file d'.dest
    then (false, os.remove_tmp d')
    else (false, d')
