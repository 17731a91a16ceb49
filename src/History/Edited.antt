-- ===== src/History/Edited.antt =====
-- What editing a text leaves, src-tauri/src/commands.rs.
use Prim.Native.String.{String}
use mathlib.Core.Path.{subst}
use package.text.Mathlib.Text.{◌==◌ as str_eq}
use package.text.Mathlib.TextEquality.{eq_iff}
use cubby_clipboard.Prelude.{
  ℕ, ◌≤◌, ◌≡◌, refl, sym, ap, ◌∙◌, inl, inr, Bool, false, List, [], ◌∷◌, Option, none, some, arith,
  Bool-cases, Option-cases,
}
use cubby_clipboard.ClipTable.{Clip, is_uuid, is_hash, select, update_where, count_where}
use cubby_clipboard.ClipTable.Rows.{IsUniqueId, count-unselected, count-update}
use cubby_clipboard.Capture.State.{Platform}
use cubby_clipboard.History.Editing.{
  is_rival, edit, edited_hash, edited_clips, truncate, text_preview_char_limit,
}

-- Without a rival, writing a hash to the row of an identifier leaves it on no other row.
hash-edit-le :
    (id hash : String) (content preview : List ℕ) (cs : List Clip)
    → count_where (is_rival id hash) cs ≡ 0
    → count_where (is_hash hash) (update_where (is_uuid id) (edit hash content preview) cs)
      ≤ count_where (is_uuid id) cs
unfolding count_where update_where
hash-edit-le id hash content preview [] none_other = omega arith
hash-edit-le id hash content preview (c ∷ cs) none_other = ground (
  arith,
  eq_iff hash hash,
  none_other,
  hash-edit-le id hash content preview cs (ground (arith, none_other)),
)

-- Another hash is on no more rows than before.
other-edit-le :
    (id hash other : String) (content preview : List ℕ) (cs : List Clip)
    → str_eq hash other ≡ false
    → count_where (is_hash other) (update_where (is_uuid id) (edit hash content preview) cs)
      ≤ count_where (is_hash other) cs
unfolding count_where update_where
other-edit-le id hash other content preview [] differs = omega arith
other-edit-le id hash other content preview (c ∷ cs) differs =
    ground (arith, differs, other-edit-le id hash other content preview cs differs)

module _ (p : Platform) (encrypt : List ℕ → Option (List ℕ)) (id : String) (text : List ℕ)
    (cs : List Clip) where
  -- The row that an edit wrote, and that no other had the text.
  pub record IsEdited (cs' : List Clip) : Type 0 where
    pub row : Clip
    pub there : select (is_uuid id) cs ≡ some row
    pub content : List ℕ
    pub preview : List ℕ
    pub alone : select (is_rival id (edited_hash p text)) cs ≡ none
    pub written : cs' ≡ update_where (is_uuid id) (edit (edited_hash p text) content preview) cs

  pub edited_clips-IsEdited :
      (fails : Bool) (cs' : List Clip)
      → edited_clips p fails encrypt id text cs ≡ some cs'
      → IsEdited cs'
  unfolding edited_clips
  edited_clips-IsEdited fails cs' e = elim (Option-cases (select (is_uuid id) cs)) [
    | inl h ↦ absurd (ground (arith, e, h))
    | inr (row, h) ↦ elim (Option-cases (encrypt (p.into_bytes text))) [
      | inl k ↦ absurd (ground (arith, e, h, k))
      | inr (content, k) ↦
          elim (Option-cases (encrypt (p.into_bytes (truncate text_preview_char_limit text)))) [
            | inl l ↦ absurd (ground (arith, e, h, k, l))
            | inr (preview, l) ↦
                elim (Option-cases (select (is_rival id (edited_hash p text)) cs)) [
                  | inr (rival, m) ↦ absurd (ground (arith, e, h, k, l, m))
                  | inl m ↦ record {
                    row = row;
                    there = h;
                    content = content;
                    preview = preview;
                    alone = m;
                    written = ground (arith, e, h, k, l, m);
                  }
                ]
          ]
    ]
  ]

  -- An edit keeps a hash on one row at most.
  pub edited_clips-le :
      (fails : Bool) (cs' : List Clip) (hash : String)
      → edited_clips p fails encrypt id text cs ≡ some cs'
      → IsUniqueId id cs
      → count_where (is_hash hash) cs ≤ 1
      → count_where (is_hash hash) cs' ≤ 1
  edited_clips-le fails cs' hash e one unique =
      let done = edited_clips-IsEdited fails cs' e in
      let new = edited_hash p text in
      let none_other = count-unselected (is_rival id new) cs done.alone in
      subst (λ l. count_where (is_hash hash) l ≤ 1) (sym done.written)
        (elim (Bool-cases (str_eq new hash)) [
          | inl h ↦
              let same : new ≡ hash = ground (arith, h, eq_iff new hash) in
              subst
                (λ x.
                  count_where (is_hash x)
                    (update_where (is_uuid id) (edit new done.content done.preview) cs)
                  ≤ 1)
                same
                (omega (arith, hash-edit-le id new done.content done.preview cs none_other, one))
          | inr h ↦ omega (arith, other-edit-le id new hash done.content done.preview cs h, unique)
        ])

  pub edited_clips-same :
      (fails : Bool) (cs' : List Clip) (u : String)
      → edited_clips p fails encrypt id text cs ≡ some cs'
      → count_where (is_uuid u) cs' ≡ count_where (is_uuid u) cs
  edited_clips-same fails cs' u e =
      let done = edited_clips-IsEdited fails cs' e in
      ap (count_where (is_uuid u)) done.written
      ∙ count-update (is_uuid u) (is_uuid id) (edit (edited_hash p text) done.content done.preview)
          cs (λ c. refl)
