-- ===== src/FileReplace/Copies.antt =====
-- What the whole operations leave of the old and the new copy: src-tauri/src/settings_manager.rs,
-- src-tauri/src/image_persist.rs and src-tauri/src/database.rs.
use mathlib.Core.Path.{subst, ap₂}
use cubby_clipboard.Prelude.{
  ℕ, ◌≡◌, refl, sym, ap, ◌∙◌, ◌⊎◌, inl, inr, Bool, true, false, not, ◌&&◌, ◌||◌, List, Option, none,
  some, arith, if◌then◌else◌, Bool-cases, Option-cases,
}
use cubby_clipboard.FileReplace.{
  Node, file, Disk, Os, IsOs, exists, write_staged_image_temp, recover_dest_gone_replace,
  recover_or_discard_replace_temp, promote_interrupted_tmp, resolve_settings_disk_source,
  may_persist_first_run_defaults,
}
use cubby_clipboard.FileReplace.Settings.{
  SettingsManager, SettingsOrigin, install, write_and_install, save, persist_loaded,
  persist_after_load,
}
use cubby_clipboard.FileReplace.Images.{
  commit_with, drop_staged, persist_full_image_file, sweep_stale_image_temp,
}
use cubby_clipboard.FileReplace.Backups.{install_rolling_backup}
use cubby_clipboard.FileReplace.Survival.{
  survivor, IsKept, survivor-dest, recover-survivor, install-IsKept, install-dest,
}
use cubby_clipboard.FileReplace.Staging.{
  staged-survivor, staged-tmp, write_and_install-IsKept, write_and_install-dest,
}

-- After an operation that returned `r.0`: the copy that the next start reads is the old one or the
-- new one, the new one is in the file if the operation returned `Ok`, and the memory follows.
abbrev pub IsSaved {ℓ} : {A : Type ℓ} → Bool × SettingsManager A → A → A → Node → Node → Type ℓ
IsSaved r before wanted old new =
    IsKept r.1.disk old new
    × (((r.0 ≡ true) × (r.1.disk.dest ≡ some new) × (r.1.settings ≡ wanted))
        ⊎ ((r.0 ≡ false) × (r.1.settings ≡ before)))

either_way {ℓ κ} :
    {A : Type ℓ} (P : A → Type κ) (b c : Bool) {x y z : A}
    → P x
    → P y
    → P z
    → P (if b then if c then x else y else z)
either_way P true true px py pz = px
either_way P true false px py pz = py
either_way P false c px py pz = pz

module _ {ℓ} {A : Type ℓ} (os : Os) (laws : IsOs os) (print : A → Option (List ℕ)) where
  written :
      (r : Bool × Disk) (before wanted : A) (old new : Node)
      → IsKept r.1 old new
      → (r.0 ≡ true → r.1.dest ≡ some new)
      → IsSaved
          (r.0, record { settings = if r.0 then wanted else before; disk = r.1 })
          before
          wanted
          old
          new
  written (true, d) before wanted old new h k = (h, inl (refl, k refl, refl))
  written (false, d) before wanted old new h k = (h, inr (refl, refl))

  save-written :
      (m : SettingsManager A) (new_settings : A) (json : List ℕ)
      → print new_settings ≡ some json
      → let r = write_and_install os m.disk json in
        save os print true m new_settings
        ≡ (r.0, record { settings = if r.0 then new_settings else m.settings; disk = r.1 })
  unfolding save
  save-written m new_settings json h = ground (arith, h)

  save-parentless :
      (m : SettingsManager A) (new_settings : A) (json : List ℕ)
      → print new_settings ≡ some json
      → save os print false m new_settings ≡ (false, m)
  unfolding save
  save-parentless m new_settings json h = ground (arith, h)

  -- If the calls of the operating system keep their laws, a copy is there and the new settings can be
  -- serialized, then whatever of a save fails, the copy that the next start reads is the one that it
  -- would have read before or the new one. If the save returns Ok, the settings file holds the new
  -- settings and so does memory; if not, memory is unchanged.
  pub save-IsSaved :
      (has_parent : Bool) (m : SettingsManager A) (new_settings : A) (old : Node) (json : List ℕ)
      → survivor m.disk ≡ some old
      → print new_settings ≡ some json
      → IsSaved (save os print has_parent m new_settings) m.settings new_settings old (file json)
  save-IsSaved true m new_settings old json h k =
      subst (λ r. IsSaved r m.settings new_settings old (file json))
        (sym (save-written m new_settings json k))
        (written (write_and_install os m.disk json) m.settings new_settings old (file json)
          (write_and_install-IsKept os laws m.disk old json h)
          (write_and_install-dest os laws m.disk json))
  save-IsSaved false m new_settings old json h k =
      subst (λ r. IsSaved r m.settings new_settings old (file json))
        (sym (save-parentless m new_settings json k)) (inl h, inr (refl, refl))

  persist_loaded-or :
      (has_parent : Bool) (m : SettingsManager A) (seeded_defaults : Bool)
      → (persist_loaded os print has_parent m seeded_defaults ≡ m)
        ⊎ (persist_loaded os print has_parent m seeded_defaults
            ≡ (save os print has_parent m m.settings).1)
  unfolding persist_loaded
  persist_loaded-or has_parent m seeded_defaults =
      elim (Bool-cases (
        seeded_defaults
        || (not (exists m.disk.dest)
            && may_persist_first_run_defaults (resolve_settings_disk_source m.disk)))) [
              | inl e ↦ inr (rw e refl)
              | inr e ↦ inl (rw e refl)
            ]

  persist_loaded-IsKept :
      (has_parent : Bool) (m : SettingsManager A) (seeded_defaults : Bool) (old : Node)
      (json : List ℕ)
      → survivor m.disk ≡ some old
      → print m.settings ≡ some json
      → IsKept (persist_loaded os print has_parent m seeded_defaults).disk old (file json)
  persist_loaded-IsKept has_parent m seeded_defaults old json h k =
      elim (persist_loaded-or has_parent m seeded_defaults) [
        | inl e ↦ inl (ap (λ n. survivor n.disk) e ∙ h)
        | inr e ↦
            subst (λ n. IsKept n.disk old (file json)) (sym e)
              (save-IsSaved has_parent m m.settings old json h k).0
      ]

  promote-recover :
      (d : Disk) → (promote_interrupted_tmp os d).1 ≡ (recover_dest_gone_replace os d).1
  unfolding promote_interrupted_tmp recover_dest_gone_replace
  promote-recover d = ground arith

  promote-survivor :
      (d : Disk) (old : Node)
      → survivor d ≡ some old
      → survivor (promote_interrupted_tmp os d).1 ≡ some old
  promote-survivor d old h = elim (recover-survivor os laws d old h) [
    | inl (r, at_dest) ↦
        ap survivor (promote-recover d)
        ∙ survivor-dest (recover_dest_gone_replace os d).1 old at_dest
    | inr (r, same) ↦ ap survivor (promote-recover d ∙ same) ∙ h
  ]

  -- If the calls of the operating system keep their laws, a copy is there and the loaded settings can
  -- be serialized, then after the write at the end of loading, whatever fails of it and wherever the
  -- settings came from, the copy that the next start reads is the one that was there before or the
  -- loaded settings.
  pub persist_after_load-IsKept :
      (has_parent : Bool) (m : SettingsManager A) (origin : SettingsOrigin) (seeded_defaults : Bool)
      (old : Node) (json : List ℕ)
      → survivor m.disk ≡ some old
      → print m.settings ≡ some json
      → IsKept
          (persist_after_load os print has_parent m origin seeded_defaults).disk
          old
          (file json)
  unfolding persist_after_load
  persist_after_load-IsKept has_parent m origin seeded_defaults old json h k =
      let promoted = (promote_interrupted_tmp os m.disk).0 in
      let disk = (promote_interrupted_tmp os m.disk).1 in
      let kept = promote-survivor m.disk old h in
      either_way (λ (n : SettingsManager A). IsKept n.disk old (file json))
        (origin.recovered_interrupted && not origin.recovered_unreadable) promoted
        (persist_loaded-IsKept has_parent (record m { disk = disk }) seeded_defaults old json kept
          k)
        (inl kept) (persist_loaded-IsKept has_parent m seeded_defaults old json h k)

-- The roll of the backup is the installation of settings.
pub install_rolling_backup-install :
    (os : Os) (d : Disk) → install_rolling_backup os d ≡ install os d
unfolding install_rolling_backup install recover_or_discard_replace_temp
install_rolling_backup-install os d = ground arith

drop_staged-install :
    (os : Os) (d : Disk)
    → (drop_staged os (commit_with os d) ≡ (install os d).1)
      × ((commit_with os d).ok ≡ (install os d).0)
unfolding commit_with install
drop_staged-install os d = (ground arith, ground arith)

module _ (os : Os) (laws : IsOs os) where
  persist-staged :
      (d : Disk) (bytes : List ℕ)
      → (write_staged_image_temp os d bytes).0 ≡ true
      → persist_full_image_file os d bytes ≡ install os (write_staged_image_temp os d bytes).1
  unfolding persist_full_image_file
  persist-staged d bytes h =
      let u = (write_staged_image_temp os d bytes).1 in
      let (same_disk, same_ok) = drop_staged-install os u in
      rw h (ap₂ (λ ok disk. (ok, disk)) same_ok same_disk)

  persist-unstaged :
      (d : Disk) (bytes : List ℕ)
      → (write_staged_image_temp os d bytes).0 ≡ false
      → persist_full_image_file os d bytes ≡ (false, (write_staged_image_temp os d bytes).1)
  unfolding persist_full_image_file
  persist-unstaged d bytes h = rw h refl

  -- If the calls of the operating system keep their laws and a copy is there, then whatever fails while
  -- an original of an image is stored, the surviving copy is the one that was there before or the new
  -- one, and the new one is in the file if the call returns Ok.
  pub persist_full_image_file-IsKept :
      (d : Disk) (bytes : List ℕ) (old : Node)
      → survivor d ≡ some old
      → IsKept (persist_full_image_file os d bytes).1 old (file bytes)
        × (((persist_full_image_file os d bytes).0 ≡ false)
            ⊎ ((persist_full_image_file os d bytes).1.dest ≡ some (file bytes)))
  persist_full_image_file-IsKept d bytes old h =
      elim (Bool-cases ((write_staged_image_temp os d bytes).0)) [
        | inl e ↦
            let u = (write_staged_image_temp os d bytes).1 in
            let same = persist-staged d bytes e in
            subst
              (λ r. IsKept r.1 old (file bytes) × ((r.0 ≡ false) ⊎ (r.1.dest ≡ some (file bytes))))
              (sym same)
              (
                install-IsKept os laws u old (file bytes) (staged-survivor os laws d old bytes h)
                    (staged-tmp os laws d bytes e),
                elim (Bool-cases ((install os u).0)) [
                  | inl ok ↦
                      inr (install-dest os laws u (file bytes) (staged-tmp os laws d bytes e) ok)
                  | inr failed ↦ inl failed
                ],
              )
        | inr e ↦
            let same = persist-unstaged d bytes e in
            (
              inl (ap (λ r. survivor r.1) same ∙ staged-survivor os laws d old bytes h),
              inl (ap (λ r. r.0) same),
            )
      ]

  sweep-recovered :
      (d : Disk)
      → (recover_dest_gone_replace os d).0 ≡ true
      → sweep_stale_image_temp os d ≡ (recover_dest_gone_replace os d).1
  unfolding sweep_stale_image_temp
  sweep-recovered d r = rw r refl

  sweep-left :
      (d : Disk)
      → (recover_dest_gone_replace os d).0 ≡ false
      → (recover_dest_gone_replace os d).1 ≡ d
      → sweep_stale_image_temp os d ≡ (if not (exists d.dest) then d else os.remove_tmp d)
  unfolding sweep_stale_image_temp
  sweep-left d r same = rw r (ap (λ u. if not (exists u.dest) then u else os.remove_tmp u) same)

  sweep-gone :
      (d : Disk)
      → (recover_dest_gone_replace os d).0 ≡ false
      → (recover_dest_gone_replace os d).1 ≡ d
      → d.dest ≡ none
      → sweep_stale_image_temp os d ≡ d
  sweep-gone d r same e = sweep-left d r same ∙ ground (arith, e)

  sweep-beside :
      (d : Disk) (m : Node)
      → (recover_dest_gone_replace os d).0 ≡ false
      → (recover_dest_gone_replace os d).1 ≡ d
      → d.dest ≡ some m
      → sweep_stale_image_temp os d ≡ os.remove_tmp d
  sweep-beside d m r same e = sweep-left d r same ∙ ground (arith, e)

  -- If the calls of the operating system keep their laws, the sweep of a leftover keeps the surviving
  -- copy, be it the file or a temporary without one.
  pub sweep-survivor :
      (d : Disk) (old : Node)
      → survivor d ≡ some old
      → survivor (sweep_stale_image_temp os d) ≡ some old
  sweep-survivor d old h = elim (recover-survivor os laws d old h) [
    | inl (r, at_dest) ↦
        ap survivor (sweep-recovered d r)
        ∙ survivor-dest (recover_dest_gone_replace os d).1 old at_dest
    | inr (r, same) ↦ elim (Option-cases d.dest) [
      | inl e ↦ ap survivor (sweep-gone d r same e) ∙ h
      | inr (m, e) ↦
          ap survivor (sweep-beside d m r same e)
          ∙ survivor-dest (os.remove_tmp d) m (laws.remove_keeps_dest d ∙ e)
          ∙ sym (survivor-dest d m e)
          ∙ h
    ]
  ]
