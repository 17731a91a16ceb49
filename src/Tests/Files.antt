-- ===== src/Tests/Files.antt =====
-- Examples for the replacing of files, src-tauri/src/settings_load.rs.
use cubby_clipboard.Prelude.{
  ℕ, ◌≡◌, refl, ◌⊎◌, inr, Bool, true, false, List, [], ◌∷◌, none, some, arith, if◌then◌else◌,
}
use cubby_clipboard.FileReplace.{file, Disk, Os, IsOs, exists, recover_dest_gone_replace}
use cubby_clipboard.FileReplace.Settings.{SettingsManager, save, persist_after_load}
use cubby_clipboard.FileReplace.Images.{persist_full_image_file}
use cubby_clipboard.FileReplace.Backups.{persist_backup_file, write_backup_temp}
use cubby_clipboard.FileReplace.Survival.{survivor, IsKept}
use cubby_clipboard.FileReplace.Copies.{
  IsSaved, save-IsSaved, persist_after_load-IsKept, persist_full_image_file-IsKept,
}

-- A FAT volume on which a replace deletes the file and then fails; a rename works or not.
abbrev fat : Bool → Os
fat works = record {
  rename = λ d. (works, if works then record { dest = d.tmp; tmp = none } else d);
  replace = λ d. (false, record d { dest = none });
  remove_tmp = λ d. record d { tmp = none };
  write = λ d bytes. (true, record d { tmp = some (file bytes) });
  create_new = λ d. (
    if exists d.tmp then false else true,
    if exists d.tmp then d else record d { tmp = some (file []) },
  );
  write_all = λ d bytes. (true, record d { tmp = some (file bytes) });
}

fat-IsOs : (works : Bool) → IsOs (fat works)
fat-IsOs works = record {
  rename_moves = λ d h. ground (arith, h);
  rename_fails = λ d h. ground (arith, h);
  replace_moves = λ d h. absurd (cc);
  replace_keeps_tmp = λ d h. refl;
  replace_dest = λ d h. inr refl;
  remove_keeps_dest = λ d. refl;
  write_keeps_dest = λ d bytes. refl;
  write_writes = λ d bytes h. refl;
  create_exclusive = λ d h. ground (arith, h);
  create_fails = λ d h. ground (arith, h);
  create_keeps_dest = λ d. ground arith;
  write_all_keeps_dest = λ d bytes. refl;
  write_all_writes = λ d bytes h. refl;
}

-- Settings are their own text.
abbrev manager : Disk → SettingsManager (List ℕ)
manager d = record { settings = 0 ∷ []; disk = d }

abbrev present : Disk
present = record { dest = some (file (0 ∷ [])); tmp = none }

abbrev lone : Disk
lone = record { dest = none; tmp = some (file (0 ∷ [])) }

save-IsSaved_example :
    IsSaved
      (save (fat false) (λ s. some s) true (manager present) (1 ∷ []))
      (0 ∷ [])
      (1 ∷ [])
      (file (0 ∷ []))
      (file (1 ∷ []))
unfolding survivor
save-IsSaved_example =
    save-IsSaved (fat false) (fat-IsOs false) (λ s. some s) true (manager present) (1 ∷ [])
      (file (0 ∷ [])) (1 ∷ []) refl refl

persist_after_load-IsKept_example :
    IsKept
      (persist_after_load
        (fat false)
        (λ s. some s)
        true
        (manager lone)
        (record { recovered_unreadable = false; recovered_interrupted = true })
        true).disk
      (file (0 ∷ []))
      (file (0 ∷ []))
unfolding survivor
persist_after_load-IsKept_example =
    persist_after_load-IsKept (fat false) (fat-IsOs false) (λ s. some s) true (manager lone)
      (record { recovered_unreadable = false; recovered_interrupted = true }) true (file (0 ∷ []))
      (0 ∷ []) refl refl

persist_full_image_file-IsKept_example :
    IsKept (persist_full_image_file (fat true) present (1 ∷ [])).1 (file (0 ∷ [])) (file (1 ∷ []))
    × (((persist_full_image_file (fat true) present (1 ∷ [])).0 ≡ false)
        ⊎ ((persist_full_image_file (fat true) present (1 ∷ [])).1.dest ≡ some (file (1 ∷ []))))
unfolding survivor
persist_full_image_file-IsKept_example =
    persist_full_image_file-IsKept (fat true) (fat-IsOs true) present (1 ∷ []) (file (0 ∷ [])) refl

-- An export whose replace fails with the old backup gone, and whose rename fails too, deletes the
-- new backup as well.
export_loses_both :
    persist_backup_file (fat false) present (1 ∷ []) ≡ (false, record { dest = none; tmp = none })
unfolding persist_backup_file write_backup_temp recover_dest_gone_replace
export_loses_both = refl
