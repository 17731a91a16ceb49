-- ===== src/FileReplace/Images.antt =====
-- Originals of images, src-tauri/src/image_persist.rs and `sweep_stale_image_temps` of
-- src-tauri/src/database.rs. The bytes are encrypted already.
use cubby_clipboard.Prelude.{ℕ, Bool, true, false, not, List, if◌then◌else◌}
use cubby_clipboard.FileReplace.{
  Os, Disk, exists, is_file, write_staged_image_temp, recover_dest_gone_replace,
}

-- What `commit_with` returns, the flag `committed` as it leaves it, and the disk.
pub record Committed : Type 0 where
  pub ok : Bool
  pub committed : Bool
  pub disk : Disk

unfoldable pub commit_with : Os → Disk → Committed
unfolding recover_dest_gone_replace
commit_with os d =
    let (replaced, d') = os.replace d in
    let (recovered, d'') = recover_dest_gone_replace os d' in
    if replaced
    then record { ok = true; committed = true; disk = d' }
    else if recovered
    then record { ok = true; committed = true; disk = d'' }
    else if is_file d''.dest
    then record { ok = false; committed = false; disk = d'' }
    else record { ok = false; committed = true; disk = d'' }

abbrev pub drop_staged : Os → Committed → Disk
drop_staged os c = if c.committed then c.disk else os.remove_tmp c.disk

-- `persist_full_image_file`: stage, commit and the drop of the handle.
unfoldable pub persist_full_image_file : Os → Disk → List ℕ → Bool × Disk
unfolding write_staged_image_temp commit_with
persist_full_image_file os d bytes =
    let (staged, d') = write_staged_image_temp os d bytes in
    let c = commit_with os d' in if staged then (c.ok, drop_staged os c) else (false, d')

-- A handle that is dropped without a commit.
unfoldable pub abandon : Os → Disk → List ℕ → Disk
unfolding write_staged_image_temp
abandon os d bytes =
    let (staged, d') = write_staged_image_temp os d bytes in if staged then os.remove_tmp d' else d'

-- One leftover of the sweep when the database is opened.
unfoldable pub sweep_stale_image_temp : Os → Disk → Disk
unfolding recover_dest_gone_replace
sweep_stale_image_temp os d =
    let (recovered, d') = recover_dest_gone_replace os d in
    if recovered then d' else if not (exists d'.dest) then d' else os.remove_tmp d'
