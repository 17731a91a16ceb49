-- ===== src/FileReplace/Backups.antt =====
-- `persist_backup_file` of src-tauri/src/backup.rs and the end of the rolling backup of
-- src-tauri/src/database.rs. The name of an export's temporary is fresh.
use cubby_clipboard.Prelude.{ℕ, Bool, true, false, not, List, if◌then◌else◌}
use cubby_clipboard.FileReplace.{
  Os, Disk, recover_dest_gone_replace, recover_or_discard_replace_temp,
}

-- `create_new`, `write_all` and `sync_all`.
unfoldable pub write_backup_temp : Os → Disk → List ℕ → Bool × Disk
write_backup_temp os d bytes =
    let (created, d') = os.create_new d in
    let written = os.write_all d' bytes in if created then written else (false, d')

unfoldable pub persist_backup_file : Os → Disk → List ℕ → Bool × Disk
unfolding write_backup_temp recover_dest_gone_replace
persist_backup_file os d bytes =
    let (written, d') = write_backup_temp os d bytes in
    let (installed, d'') = os.replace d' in
    let (recovered, d''') = recover_dest_gone_replace os d'' in
    if not written
    then (false, os.remove_tmp d')
    else if installed
    then (true, d'')
    else if recovered
    then (true, d''')
    else (false, os.remove_tmp d''')

-- The copy of the database is in the temporary.
unfoldable pub install_rolling_backup : Os → Disk → Bool × Disk
unfolding recover_or_discard_replace_temp
install_rolling_backup os d =
    let (installed, d') = os.replace d in
    let recovered = recover_or_discard_replace_temp os d' in
    if installed then (true, d') else recovered
