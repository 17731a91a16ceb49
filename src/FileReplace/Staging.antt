-- ===== src/FileReplace/Staging.antt =====
-- Saving settings and originals of images keeps a copy: src-tauri/src/settings_manager.rs,
-- src-tauri/src/image_persist.rs and src-tauri/src/database.rs.
use mathlib.Core.Option.{none-ne-some}
use mathlib.Core.Path.{subst}
use cubby_clipboard.Prelude.{
  ℕ, ◌≡◌, ◌≢◌, refl, sym, ap, ◌∙◌, inl, inr, true, false, List, Option, none, some, arith,
  Bool-cases, Option-cases,
}
use cubby_clipboard.FileReplace.{
  Node, file, Disk, Os, IsOs, is_file, write_staged_image_temp, write_settings_temp,
}
use cubby_clipboard.FileReplace.Settings.{install, write_and_install}
use cubby_clipboard.FileReplace.Survival.{
  survivor, IsKept, survivor-dest, survivor-tmp, install-IsKept, install-dest,
}

is_file-some : (o : Option Node) → is_file o ≡ true → (n : Node) × (o ≡ some n)
is_file-some none h = absurd (cc)
is_file-some (some n) h = (n, refl)

false-ne-true : false ≢ true
false-ne-true h = cc

module _ (os : Os) (laws : IsOs os) where
  staged-dest : (d : Disk) (bytes : List ℕ) → (write_staged_image_temp os d bytes).1.dest ≡ d.dest
  unfolding write_staged_image_temp
  staged-dest d bytes = ground (
    arith,
    laws.create_keeps_dest d,
    laws.write_all_keeps_dest (os.create_new d).1 bytes,
    laws.remove_keeps_dest (os.write_all (os.create_new d).1 bytes).1,
  )

  pub staged-tmp :
      (d : Disk) (bytes : List ℕ)
      → (write_staged_image_temp os d bytes).0 ≡ true
      → (write_staged_image_temp os d bytes).1.tmp ≡ some (file bytes)
  unfolding write_staged_image_temp
  staged-tmp d bytes h = ground (arith, h, laws.write_all_writes (os.create_new d).1 bytes)

  staged-refused :
      (d : Disk) (bytes : List ℕ) (n : Node)
      → d.tmp ≡ some n
      → write_staged_image_temp os d bytes ≡ (false, d)
  unfolding write_staged_image_temp
  staged-refused d bytes n h =
      let refused : (os.create_new d).0 ≡ false = laws.create_exclusive d (ground (arith, h)) in
      ground (arith, refused, laws.create_fails d refused)

  -- An exclusive write beside a survivor leaves it.
  pub staged-survivor :
      (d : Disk) (old : Node) (bytes : List ℕ)
      → survivor d ≡ some old
      → survivor (write_staged_image_temp os d bytes).1 ≡ some old
  staged-survivor d old bytes h = elim (Option-cases d.tmp) [
    | inr (n, e) ↦ ap (λ p. survivor p.1) (staged-refused d bytes n e) ∙ h
    | inl e ↦ elim (Option-cases d.dest) [
      | inl gone ↦ absurd (none-ne-some old (sym e ∙ sym (survivor-tmp d gone) ∙ h))
      | inr (m, at_dest) ↦
          survivor-dest (write_staged_image_temp os d bytes).1 old
            (staged-dest d bytes ∙ at_dest ∙ sym (survivor-dest d m at_dest) ∙ h)
    ]
  ]

  settings-file :
      (d : Disk) (bytes : List ℕ)
      → is_file d.dest ≡ true
      → write_settings_temp os d bytes ≡ os.write d bytes
  unfolding write_settings_temp
  settings-file d bytes h = ground (arith, h)

  settings-staged :
      (d : Disk) (bytes : List ℕ)
      → is_file d.dest ≡ false
      → write_settings_temp os d bytes ≡ write_staged_image_temp os d bytes
  unfolding write_settings_temp write_staged_image_temp
  settings-staged d bytes h = ground (arith, h)

  settings-tmp :
      (d : Disk) (bytes : List ℕ)
      → (write_settings_temp os d bytes).0 ≡ true
      → (write_settings_temp os d bytes).1.tmp ≡ some (file bytes)
  settings-tmp d bytes h = elim (Bool-cases (is_file d.dest)) [
    | inl e ↦
        let same = settings-file d bytes e in
        ap (λ p. p.1.tmp) same ∙ laws.write_writes d bytes (sym (ap (λ p. p.0) same) ∙ h)
    | inr e ↦
        let same = settings-staged d bytes e in
        ap (λ p. p.1.tmp) same ∙ staged-tmp d bytes (sym (ap (λ p. p.0) same) ∙ h)
  ]

  settings-survivor :
      (d : Disk) (old : Node) (bytes : List ℕ)
      → survivor d ≡ some old
      → survivor (write_settings_temp os d bytes).1 ≡ some old
  settings-survivor d old bytes h = elim (Bool-cases (is_file d.dest)) [
    | inl e ↦
        let (m, at_dest) = is_file-some d.dest e in
        ap (λ p. survivor p.1) (settings-file d bytes e)
        ∙ survivor-dest (os.write d bytes).1 m (laws.write_keeps_dest d bytes ∙ at_dest)
        ∙ sym (survivor-dest d m at_dest)
        ∙ h
    | inr e ↦ ap (λ p. survivor p.1) (settings-staged d bytes e) ∙ staged-survivor d old bytes h
  ]

  write_and_install-written :
      (d : Disk) (bytes : List ℕ)
      → (write_settings_temp os d bytes).0 ≡ true
      → write_and_install os d bytes ≡ install os (write_settings_temp os d bytes).1
  unfolding write_and_install
  write_and_install-written d bytes h = rw h refl

  write_and_install-unwritten :
      (d : Disk) (bytes : List ℕ)
      → (write_settings_temp os d bytes).0 ≡ false
      → write_and_install os d bytes ≡ (false, (write_settings_temp os d bytes).1)
  unfolding write_and_install
  write_and_install-unwritten d bytes h = rw h refl

  -- The settings on disk.
  pub write_and_install-IsKept :
      (d : Disk) (old : Node) (bytes : List ℕ)
      → survivor d ≡ some old
      → IsKept (write_and_install os d bytes).1 old (file bytes)
  write_and_install-IsKept d old bytes h = elim (Bool-cases ((write_settings_temp os d bytes).0)) [
    | inl e ↦
        let u = (write_settings_temp os d bytes).1 in
        subst (λ p. IsKept p.1 old (file bytes)) (sym (write_and_install-written d bytes e))
          (install-IsKept os laws u old (file bytes) (settings-survivor d old bytes h)
            (settings-tmp d bytes e))
    | inr e ↦ inl (
        ap (λ p. survivor p.1) (write_and_install-unwritten d bytes e)
        ∙ settings-survivor d old bytes h)
  ]

  pub write_and_install-dest :
      (d : Disk) (bytes : List ℕ)
      → (write_and_install os d bytes).0 ≡ true
      → (write_and_install os d bytes).1.dest ≡ some (file bytes)
  write_and_install-dest d bytes ok = elim (Bool-cases ((write_settings_temp os d bytes).0)) [
    | inl e ↦
        let same = write_and_install-written d bytes e in
        ap (λ p. p.1.dest) same
        ∙ install-dest os laws (write_settings_temp os d bytes).1 (file bytes)
            (settings-tmp d bytes e) (sym (ap (λ p. p.0) same) ∙ ok)
    | inr e ↦
        absurd (false-ne-true (sym (ap (λ p. p.0) (write_and_install-unwritten d bytes e)) ∙ ok))
  ]
