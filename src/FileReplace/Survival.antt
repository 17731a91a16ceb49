-- ===== src/FileReplace/Survival.antt =====
-- The only remaining copy of a file survives: src-tauri/src/settings_load.rs and what rests on it.
use mathlib.Core.Option.{some-injective}
use cubby_clipboard.Prelude.{
  ◌≡◌, sym, ap, ◌∙◌, ◌⊎◌, inl, inr, true, false, Option, none, some, arith, if◌then◌else◌,
  Bool-cases, Option-cases,
}
use cubby_clipboard.FileReplace.{Node, Disk, Os, IsOs, exists, is_file, recover_dest_gone_replace}
use cubby_clipboard.FileReplace.Settings.{install}

-- The copy that the next start reads: the file, or else the temporary.
unfoldable pub survivor : Disk → Option Node
survivor d = if exists d.dest then d.dest else d.tmp

-- The old copy or the new one.
abbrev pub IsKept : Disk → Node → Node → Type 0
IsKept d old new = (survivor d ≡ some old) ⊎ (survivor d ≡ some new)

pub survivor-dest : (d : Disk) (n : Node) → d.dest ≡ some n → survivor d ≡ some n
unfolding survivor
survivor-dest d n h = ground (arith, h)

pub survivor-tmp : (d : Disk) → d.dest ≡ none → survivor d ≡ d.tmp
unfolding survivor
survivor-tmp d h = ground (arith, h)

pub survivor-same : (d d' : Disk) → d'.dest ≡ d.dest → d'.tmp ≡ d.tmp → survivor d' ≡ survivor d
unfolding survivor
survivor-same d d' h k = ground (arith, h, k)

survivor-unchanged :
    (d d' : Disk) (n : Node) → d.dest ≡ some n → d'.dest ≡ d.dest → survivor d' ≡ some n
survivor-unchanged d d' n h k = survivor-dest d' n (k ∙ h)

module _ (os : Os) (laws : IsOs os) where
  pub recover-present :
      (d : Disk) (n : Node) → d.dest ≡ some n → recover_dest_gone_replace os d ≡ (false, d)
  unfolding recover_dest_gone_replace
  recover-present d n h = ground (arith, h)

  recover-gone :
      (d : Disk) (n : Node)
      → d.dest ≡ none
      → d.tmp ≡ some n
      → recover_dest_gone_replace os d ≡ os.rename d
  unfolding recover_dest_gone_replace
  recover-gone d n h k = ground (arith, h, k)

  recover-empty :
      (d : Disk) → d.dest ≡ none → d.tmp ≡ none → recover_dest_gone_replace os d ≡ (false, d)
  unfolding recover_dest_gone_replace
  recover-empty d h k = ground (arith, h, k)

  -- The fallback leaves the survivor alone; the file is the survivor when it succeeds, and nothing
  -- changes when it fails.
  pub recover-survivor :
      (d : Disk) (n : Node)
      → survivor d ≡ some n
      → (((recover_dest_gone_replace os d).0 ≡ true)
          × ((recover_dest_gone_replace os d).1.dest ≡ some n))
        ⊎ (((recover_dest_gone_replace os d).0 ≡ false) × ((recover_dest_gone_replace os d).1 ≡ d))
  recover-survivor d n h = elim (Option-cases d.dest) [
    | inr (m, e) ↦
        inr (ap (λ p. p.0) (recover-present d m e), ap (λ p. p.1) (recover-present d m e))
    | inl e ↦
        let at_tmp : d.tmp ≡ some n = sym (survivor-tmp d e) ∙ h in
        let same = recover-gone d n e at_tmp in
        elim (Bool-cases ((os.rename d).0)) [
          | inl r ↦
              inl (ap (λ p. p.0) same ∙ r, ap (λ p. p.1.dest) same ∙ laws.rename_moves d r ∙ at_tmp)
          | inr r ↦ inr (ap (λ p. p.0) same ∙ r, ap (λ p. p.1) same ∙ laws.rename_fails d r)
        ]
  ]

  -- The temporary is discarded beside a file only.
  pub discard-survivor :
      (d : Disk) (n : Node)
      → survivor d ≡ some n
      → survivor (if is_file d.dest then os.remove_tmp d else d) ≡ some n
  discard-survivor d n h = elim (Option-cases d.dest) [
    | inl e ↦ ap survivor (discard-gone d e) ∙ h
    | inr (m, e) ↦
        let same : m ≡ n = some-injective m n (sym (survivor-dest d m e) ∙ h) in
        elim (Bool-cases (is_file d.dest)) [
          | inl f ↦
              rw f (survivor-dest (os.remove_tmp d) n (laws.remove_keeps_dest d ∙ e ∙ ap some same))
          | inr f ↦ rw f h
        ]
  ]
    where
      discard-gone :
          (u : Disk) → u.dest ≡ none → (if is_file u.dest then os.remove_tmp u else u) ≡ u
      discard-gone u e = ground (arith, e)

  -- A replace that failed leaves the old copy or the new one.
  pub replace-IsKept :
      (d : Disk) (old new : Node)
      → survivor d ≡ some old
      → d.tmp ≡ some new
      → (os.replace d).0 ≡ false
      → IsKept (os.replace d).1 old new
  replace-IsKept d old new h k e = elim (laws.replace_dest d e) [
    | inl s ↦ inl (survivor-same d (os.replace d).1 s (laws.replace_keeps_tmp d e) ∙ h)
    | inr s ↦ inr (survivor-tmp (os.replace d).1 s ∙ laws.replace_keeps_tmp d e ∙ k)
  ]

  pub install-replaced :
      (d : Disk) → (os.replace d).0 ≡ true → install os d ≡ (true, (os.replace d).1)
  unfolding install
  install-replaced d h = ground (arith, h)

  pub install-recovered :
      (d : Disk)
      → (os.replace d).0 ≡ false
      → (recover_dest_gone_replace os (os.replace d).1).0 ≡ true
      → install os d ≡ (true, (recover_dest_gone_replace os (os.replace d).1).1)
  unfolding install
  install-recovered d h k = ground (arith, h, k)

  pub install-failed :
      (d : Disk)
      → (os.replace d).0 ≡ false
      → (recover_dest_gone_replace os (os.replace d).1).0 ≡ false
      → let u = (recover_dest_gone_replace os (os.replace d).1).1 in
        install os d ≡ (false, if is_file u.dest then os.remove_tmp u else u)
  unfolding install
  install-failed d h k = ground (arith, h, k)

  -- After a failed replace the installation keeps what survived it.
  install-survivor :
      (d : Disk) (n : Node)
      → (os.replace d).0 ≡ false
      → survivor (os.replace d).1 ≡ some n
      → survivor (install os d).1 ≡ some n
  install-survivor d n e h = elim (recover-survivor (os.replace d).1 n h) [
    | inl (r, at_dest) ↦
        ap (λ p. survivor p.1) (install-recovered d e r)
        ∙ survivor-dest (recover_dest_gone_replace os (os.replace d).1).1 n at_dest
    | inr (r, same) ↦
        ap (λ p. survivor p.1) (install-failed d e r)
        ∙ discard-survivor (recover_dest_gone_replace os (os.replace d).1).1 n
            (ap survivor same ∙ h)
  ]

  -- Installing keeps the old copy or puts the temporary in its place.
  pub install-IsKept :
      (d : Disk) (old new : Node)
      → survivor d ≡ some old
      → d.tmp ≡ some new
      → IsKept (install os d).1 old new
  install-IsKept d old new h k = elim (Bool-cases ((os.replace d).0)) [
    | inl e ↦ inr (
        ap (λ p. survivor p.1) (install-replaced d e)
        ∙ survivor-dest (os.replace d).1 new (laws.replace_moves d e ∙ k))
    | inr e ↦ elim (replace-IsKept d old new h k e) [
      | inl s ↦ inl (install-survivor d old e s)
      | inr s ↦ inr (install-survivor d new e s)
    ]
  ]

  -- What an installation that succeeds installs.
  pub install-dest :
      (d : Disk) (new : Node)
      → d.tmp ≡ some new
      → (install os d).0 ≡ true
      → (install os d).1.dest ≡ some new
  install-dest d new k ok = elim (Bool-cases ((os.replace d).0)) [
    | inl e ↦ ap (λ p. p.1.dest) (install-replaced d e) ∙ laws.replace_moves d e ∙ k
    | inr e ↦ elim (Option-cases (os.replace d).1.dest) [
      | inl gone ↦
          let at_tmp = laws.replace_keeps_tmp d e ∙ k in
          elim (recover-survivor (os.replace d).1 new
            (survivor-tmp (os.replace d).1 gone ∙ at_tmp)) [
              | inl (r, at_dest) ↦ ap (λ p. p.1.dest) (install-recovered d e r) ∙ at_dest
              | inr (r, same) ↦ absurd (ground (arith, ok, install-failed d e r))
            ]
      | inr (m, present) ↦ absurd (
          ground (
            arith,
            ok,
            install-failed d e (ap (λ p. p.0) (recover-present (os.replace d).1 m present)),
          ))
    ]
  ]
