-- ===== src/FileReplace/Settings.antt =====
-- `SettingsManager::save` and the write after loading, src-tauri/src/settings_manager.rs.
use cubby_clipboard.Prelude.{
  ℕ, Bool, true, false, not, ◌&&◌, ◌||◌, List, Option, none, some, if◌then◌else◌,
}
use cubby_clipboard.FileReplace.{
  Os, Disk, exists, is_file, write_settings_temp, recover_dest_gone_replace,
  resolve_settings_disk_source, may_persist_first_run_defaults, promote_interrupted_tmp,
}

-- The settings in memory and on disk.
pub record SettingsManager {ℓ} (A : Type ℓ) : Type ℓ where
  pub settings : A
  pub disk : Disk

-- The temporary takes the file's place; if that fails with the file gone, it is renamed.
unfoldable pub install : Os → Disk → Bool × Disk
unfolding recover_dest_gone_replace
install os d =
    let (replaced, d') = os.replace d in
    let (recovered, d'') = recover_dest_gone_replace os d' in
    if replaced || recovered
    then (true, if replaced then d' else d'')
    else if is_file d''.dest
    then (false, os.remove_tmp d'')
    else (false, d'')

unfoldable pub write_and_install : Os → Disk → List ℕ → Bool × Disk
unfolding write_settings_temp install
write_and_install os d bytes =
    let (written, d') = write_settings_temp os d bytes in
    let installed = install os d' in if written then installed else (false, d')

-- `print` is `to_string_pretty`, and `has_parent` whether `create_dir_all` succeeds.
unfoldable pub save {ℓ} :
    {A : Type ℓ}
    → Os
    → (A → Option (List ℕ))
    → Bool
    → SettingsManager A
    → A
    → Bool × SettingsManager A
unfolding write_and_install
save os print has_parent m new_settings = elim (print new_settings) [
  | none ↦ (false, m)
  | some json ↦
      let (saved, disk) = write_and_install os m.disk json in
      if not has_parent
      then (false, m)
      else (saved, record { settings = if saved then new_settings else m.settings; disk = disk })
]

pub record SettingsOrigin : Type 0 where
  pub recovered_unreadable : Bool
  pub recovered_interrupted : Bool

-- The settings were promoted, or nothing was to promote.
unfoldable pub persist_loaded {ℓ} :
    {A : Type ℓ} → Os → (A → Option (List ℕ)) → Bool → SettingsManager A → Bool → SettingsManager A
unfolding save resolve_settings_disk_source
persist_loaded os print has_parent m seeded_defaults =
    let canonical_missing = not (exists m.disk.dest) in
    let source = resolve_settings_disk_source m.disk in
    let saved = save os print has_parent m m.settings in
    if seeded_defaults || (canonical_missing && may_persist_first_run_defaults source)
    then saved.1
    else m

-- `persist_after_load`; the manager holds the loaded settings.
unfoldable pub persist_after_load {ℓ} :
    {A : Type ℓ}
    → Os
    → (A → Option (List ℕ))
    → Bool
    → SettingsManager A
    → SettingsOrigin
    → Bool
    → SettingsManager A
unfolding promote_interrupted_tmp persist_loaded
persist_after_load os print has_parent m origin seeded_defaults =
    let (promoted, disk) = promote_interrupted_tmp os m.disk in
    let before = persist_loaded os print has_parent m seeded_defaults in
    let after = persist_loaded os print has_parent (record m { disk = disk }) seeded_defaults in
    if origin.recovered_interrupted && not origin.recovered_unreadable
    then if promoted then after else record m { disk = disk }
    else before
