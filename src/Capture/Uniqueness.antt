-- ===== src/Capture/Uniqueness.antt =====
-- The identifier and the hash of a clip stay its own, whatever fails in a capture,
-- src-tauri/src/clipboard.rs.
use Prim.Native.String.{String}
use package.text.Mathlib.Text.{◌==◌ as str_eq}
use package.text.Mathlib.TextEquality.{eq_iff}
use mathlib.Core.Path.{subst}
use cubby_clipboard.Prelude.{
  ℕ, ◌≤◌, ◌≡◌, refl, sym, ap, ◌∙◌, inl, inr, Bool, true, false, List, ◌∷◌, Option, none, some,
  arith, if◌then◌else◌, Bool-cases, Option-cases,
}
use cubby_clipboard.ClipTable.{Clip, is_uuid, is_hash, select, update_where, count_where}
use cubby_clipboard.ClipTable.Rows.{IsUniqueId, count-update, count-delete, count-unselected}
use cubby_clipboard.Retention.{Policy, Outcome, expire, preserve, sweep, enforce_retention_in_pool}
use cubby_clipboard.Retention.Kept.{outcome-clips}
use cubby_clipboard.Capture.Gates.{Settings}
use cubby_clipboard.Capture.State.{Platform, Snapshot, Environment, CaptureState}
use cubby_clipboard.Capture.Storing.{
  Encrypted, storage_hash, encrypt_fields, encrypt_formats, write_existing, write_new, enqueue_ocr,
  replace_clip_formats, touch, recapture, with_original, new_row, needs_text, reset_ocr,
}
use cubby_clipboard.Capture.Outcomes.{maybe_relay-clips, arrived, relayed, process-induction}
use cubby_clipboard.Capture.{
  hash_of, retain, finish, roll_back, complete, store_capture, process_clipboard_snapshot,
  retention_policy,
}

-- A count of rows by their identifier and their hash, which no update changes.
module _ (named : String → String → Bool) where
  abbrev pub is_named : Clip → Bool
  is_named c = named c.columns.uuid c.content_hash

  abbrev pub named_count : CaptureState → ℕ
  named_count w = count_where is_named w.clips

  pub retention-le :
      (p : Policy) (fails : Bool) (cs : List Clip) (out : Outcome)
      → enforce_retention_in_pool p fails cs ≡ some out
      → count_where is_named out.clips ≤ count_where is_named cs
  unfolding sweep preserve
  retention-le p fails cs out done = omega (
    arith,
    ap (count_where is_named) (outcome-clips p fails cs out done),
    count-delete is_named _ (preserve p cs),
    count-update is_named _ expire cs (λ c. refl),
  )

  module _ (p : Platform) (settings : Settings) (env : Environment) (s : Snapshot) where
    retain-le :
        (id : String) (w : CaptureState)
        → named_count (retain p settings env s id w) ≤ named_count w
    unfolding retain
    retain-le id w =
        let policy = retention_policy p settings env in
        elim (Option-cases (enforce_retention_in_pool policy env.retention_fails w.clips)) [
          | inl h ↦ ground (arith, h)
          | inr (out, h) ↦ ground (arith, h, retention-le policy env.retention_fails w.clips out h)
        ]

    pub enqueue_ocr-same :
        (id : String) (cs : List Clip)
        → count_where is_named (enqueue_ocr env s id cs) ≡ count_where is_named cs
    unfolding enqueue_ocr
    enqueue_ocr-same id cs =
        ground (arith, count-update is_named (needs_text id) reset_ocr cs (λ c. refl))

    complete-le :
        (hash : String) (inserted : Bool) (w : CaptureState) (id : Option String)
        → named_count (complete p settings env s hash inserted (w, id)) ≤ named_count w
    unfolding complete finish roll_back replace_clip_formats
    complete-le hash inserted w none = omega arith
    complete-le hash inserted w (some id) =
        let queued = record w { clips = enqueue_ocr env s id w.clips } in
        let sealed =
          if env.formats_fail then none else encrypt_formats env.encrypt s.event.formats in
        elim (Option-cases sealed) [
          | inl h ↦ ground (
            arith,
            h,
            enqueue_ocr-same id w.clips,
            count-delete is_named (is_uuid id) queued.clips,
          )
          | inr (fs, h) ↦
              let set : Clip → Clip = λ c. record c { formats = fs } in
              let formatted = record queued {
                clips = update_where (is_uuid id) set queued.clips;
              } in
              ground (
                arith,
                h,
                enqueue_ocr-same id w.clips,
                count-update is_named (is_uuid id) set queued.clips (λ c. refl),
                retain-le id (record formatted { last_stable_hash = some hash }),
              )
        ]

    pub write_existing-same :
        (e : Encrypted) (id : String) (w : CaptureState)
        → named_count ((write_existing p env s e id w).0) ≡ named_count w
    unfolding write_existing
    write_existing-same e id w = ground (
      arith,
      count-update is_named (is_uuid id) (recapture p env e) w.clips (λ c. refl),
      count-update is_named (is_uuid id) (touch p env e) w.clips (λ c. refl),
    )

    inserted-le :
        (e : Encrypted) (id : ℕ) (cs : List Clip)
        → ((named env.new_uuid (storage_hash p s.event) ≡ true) → count_where is_named cs ≡ 0)
        → count_where is_named cs ≤ 1
        → count_where is_named (new_row p env s e id ∷ cs) ≤ 1
    unfolding count_where
    inserted-le e id cs fresh one =
        let row = new_row p env s e id in
        let name = named env.new_uuid (storage_hash p s.event) in
        let same : is_named row ≡ name = refl in
        elim (Bool-cases name) [
          | inl h ↦ ground (arith, same ∙ h, fresh h)
          | inr h ↦ ground (arith, same ∙ h, one)
        ]

    -- An INSERT adds one row, whose name must be new if no row has its identifier.
    pub write_new-le :
        (e : Encrypted) (w : CaptureState)
        → (select (is_uuid env.new_uuid) w.clips ≡ none
            → named env.new_uuid (storage_hash p s.event) ≡ true
            → named_count w ≡ 0)
        → named_count w ≤ 1
        → named_count ((write_new p env s e w).0) ≤ 1
    unfolding write_new
    write_new-le e w fresh one =
        let here = is_uuid env.new_uuid in
        let clips = new_row p env s e w.next_id ∷ w.clips in
        elim (Option-cases (select here w.clips)) [
          | inr (c, h) ↦ ground (arith, h, one)
          | inl h ↦
              let all = inserted-le e w.next_id w.clips (fresh h) one in
              let less = count-delete is_named here clips in
              let same = count-update is_named here (with_original p) clips (λ c. refl) in
              ground (arith, h, one, all, less, same)
        ]

    store_capture-le :
        (hash : String) (w : CaptureState)
        → (select (is_uuid env.new_uuid) w.clips ≡ none
            → select (is_hash (storage_hash p s.event)) w.clips ≡ none
            → named env.new_uuid (storage_hash p s.event) ≡ true
            → named_count w ≡ 0)
        → named_count w ≤ 1
        → named_count (store_capture p settings env s hash w) ≤ 1
    unfolding store_capture
    store_capture-le hash w fresh one = elim (Option-cases (encrypt_fields p env s)) [
      | inl h ↦ ground (arith, h, one)
      | inr (e, h) ↦ elim (Option-cases (select (is_hash (storage_hash p s.event)) w.clips)) [
        | inl k ↦
            let (w', id) = write_new p env s e w in
            ground (
              arith,
              h,
              k,
              one,
              write_new-le e w (λ free. fresh free k) one,
              complete-le hash true w' id,
            )
        | inr (row, k) ↦
            let (w', id) = write_existing p env s e row.columns.uuid w in
            ground (
              arith,
              h,
              k,
              one,
              write_existing-same e row.columns.uuid w,
              complete-le hash false w' id,
            )
      ]
    ]

    process-le :
        (w : CaptureState)
        → (select (is_uuid env.new_uuid) w.clips ≡ none
            → select (is_hash (storage_hash p s.event)) w.clips ≡ none
            → named env.new_uuid (storage_hash p s.event) ≡ true
            → named_count w ≡ 0)
        → named_count w ≤ 1
        → named_count (process_clipboard_snapshot p settings env s w) ≤ 1
    process-le w fresh one =
        let came = arrived p settings env s w in
        let sent = relayed p settings env s w in
        let hash = hash_of p s in
        let same = maybe_relay-clips p settings env s hash came in
        let back : sent.clips ≡ w.clips = same in
        let kept = subst (λ l. count_where is_named l ≤ 1) (sym back) one in
        process-induction p settings env s w (λ w'. named_count w' ≤ 1) (λ own. one)
          (λ own refused. one) (λ own passed again. kept)
          (λ own passed fresh_copy.
            store_capture-le hash (record sent { last_accepted = none })
              (λ free absent name.
                ap (count_where is_named) back
                ∙ fresh (ap (select (is_uuid env.new_uuid)) (sym back) ∙ free)
                    (ap (select (is_hash (storage_hash p s.event))) (sym back) ∙ absent) name)
              kept)

module _ (p : Platform) (settings : Settings) (env : Environment) (s : Snapshot)
    (w : CaptureState) where
  -- After a capture at most one clip has a given hash if at most one had it before, whatever fails:
  -- no copy is stored twice.
  pub process_clipboard_snapshot-IsUnique :
      (hash : String)
      → count_where (is_hash hash) w.clips ≤ 1
      → count_where (is_hash hash) (process_clipboard_snapshot p settings env s w).clips ≤ 1
  process_clipboard_snapshot-IsUnique hash one =
      process-le (λ u h. str_eq h hash) p settings env s w
        (λ free absent name.
          subst (λ h. count_where (is_hash h) w.clips ≡ 0)
            (ground (arith, name, eq_iff (storage_hash p s.event) hash))
            (count-unselected (is_hash (storage_hash p s.event)) w.clips absent))
        one

  -- The same of an identifier.
  pub process_clipboard_snapshot-IsUniqueId :
      (u : String)
      → IsUniqueId u w.clips
      → IsUniqueId u (process_clipboard_snapshot p settings env s w).clips
  process_clipboard_snapshot-IsUniqueId u one =
      process-le (λ v h. str_eq v u) p settings env s w
        (λ free absent name.
          subst (λ v. count_where (is_uuid v) w.clips ≡ 0)
            (ground (arith, name, eq_iff env.new_uuid u))
            (count-unselected (is_uuid env.new_uuid) w.clips free))
        one
