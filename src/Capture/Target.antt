-- ===== src/Capture/Target.antt =====
-- What a capture of src-tauri/src/clipboard.rs leaves as the target of the next clear, and as the
-- hash of the last capture.
use Prim.Native.String.{String}
use mathlib.Core.Path.{subst}
use cubby_clipboard.Prelude.{
  ◌≡◌, refl, sym, ap, ◌∙◌, inl, inr, Bool, true, false, List, ◌∷◌, Option, none, some, arith,
  if◌then◌else◌, Option-cases, Bool-cases, ◌||◌,
}
use cubby_clipboard.ClipTable.{Clip, is_uuid, select}
use cubby_clipboard.Retention.{enforce_retention_in_pool}
use cubby_clipboard.Capture.Gates.{Settings}
use cubby_clipboard.Capture.State.{Platform, Snapshot, Environment, CaptureState}
use cubby_clipboard.Capture.Storing.{
  Encrypted, encrypt_fields, encrypt_formats, write_existing, write_new,
}
use cubby_clipboard.Capture.{
  retain, finish, roll_back, complete, store_capture, recent_capture, retention_policy, hash_of,
}
use cubby_clipboard.Capture.Phases.{
  sealed_formats, queued, formatted, complete-unsealed, complete-sealed, store-induction,
}

-- The statics and what the worker announced are as before.
pub record IsQuiet (w w' : CaptureState) : Type 0 where
  pub accepted : w'.last_accepted ≡ w.last_accepted
  pub announced : w'.emitted ≡ w.emitted
  pub stable : w'.last_stable_hash ≡ w.last_stable_hash
  pub marked : w'.ignore ≡ w.ignore
  pub sent : w'.published ≡ w.published

-- A statement that stores a clip fails.
abbrev pub statement_fails : Environment → Bool
statement_fails env =
    env.select_fails
    || (env.recapture_fails
        || (env.update_fails
            || (env.insert_fails || (env.persist_fails || (env.index_fails || env.formats_fail)))))

-- Why a copy may stay unannounced: the encryption or a statement failed, or the new identifier was in
-- use in the table.
pub data HasFailed (p : Platform) (env : Environment) (s : Snapshot) (clips : List Clip)
    : Type 0 where
  unencrypted : encrypt_fields p env s ≡ none → HasFailed p env s clips
  uncoded : encrypt_formats env.encrypt s.event.formats ≡ none → HasFailed p env s clips
  taken : (c : Clip) → select (is_uuid env.new_uuid) clips ≡ some c → HasFailed p env s clips
  unwritten : statement_fails env ≡ true → HasFailed p env s clips

-- The end of a capture: announced under this identifier, or dropped without a word because something
-- failed. `clips` is the table that the capture found.
pub data IsFinal (p : Platform) (env : Environment) (s : Snapshot) (clips : List Clip)
    (w w' : CaptureState) : Type 0 where
  captured :
      (id : String)
      → w'.last_accepted ≡ some (recent_capture p env s id)
      → w'.emitted ≡ id ∷ w.emitted
      → w'.last_stable_hash ≡ some (hash_of p s)
      → w'.ignore ≡ w.ignore
      → IsFinal p env s clips w w'
  dropped : IsQuiet w w' → HasFailed p env s clips → IsFinal p env s clips w w'

IsQuiet-refl : (w : CaptureState) → IsQuiet w w
IsQuiet-refl w = record {
  accepted = refl;
  announced = refl;
  stable = refl;
  marked = refl;
  sent = refl;
}

module _ (p : Platform) (settings : Settings) (env : Environment) (s : Snapshot) where
  write_existing-IsQuiet :
      (e : Encrypted) (id : String) (w : CaptureState) → IsQuiet w (write_existing p env s e id w).0
  unfolding write_existing
  write_existing-IsQuiet e id w = ground arith

  write_new-IsQuiet : (e : Encrypted) (w : CaptureState) → IsQuiet w (write_new p env s e w).0
  unfolding write_new
  write_new-IsQuiet e w = ground arith

  roll_back-IsQuiet : (id : String) (w : CaptureState) → IsQuiet w (roll_back p env id w)
  unfolding roll_back
  roll_back-IsQuiet id w = ground arith

  retain-IsQuiet : (id : String) (w : CaptureState) → IsQuiet w (retain p settings env s id w)
  unfolding retain
  retain-IsQuiet id w =
      let policy = retention_policy p settings env in
      elim (Option-cases (enforce_retention_in_pool policy env.retention_fails w.clips)) [
        | inl h ↦ ground (arith, h)
        | inr (out, h) ↦ ground (arith, h)
      ]

  -- Only the clips differ in the state that a capture ends from.
  IsFinal-clips :
      (clips : List Clip) (w w' : CaptureState) (cs : List Clip)
      → IsFinal p env s clips (record w { clips = cs }) w'
      → IsFinal p env s clips w w'
  IsFinal-clips clips w w' cs (captured id a b c d) = captured id a b c d
  IsFinal-clips clips w w' cs (dropped q why) =
      dropped
        (record {
          accepted = q.accepted;
          announced = q.announced;
          stable = q.stable;
          marked = q.marked;
          sent = q.sent;
        })
        why

  IsFinal-quiet :
      (clips : List Clip) (w w' w'' : CaptureState)
      → IsQuiet w w'
      → IsFinal p env s clips w' w''
      → IsFinal p env s clips w w''
  IsFinal-quiet clips w w' w'' q (captured id a b c d) =
      captured id a (b ∙ ap (λ l. id ∷ l) q.announced) c (d ∙ q.marked)
  IsFinal-quiet clips w w' w'' q (dropped r why) =
      dropped
        (record {
          accepted = r.accepted ∙ q.accepted;
          announced = r.announced ∙ q.announced;
          stable = r.stable ∙ q.stable;
          marked = r.marked ∙ q.marked;
          sent = r.sent ∙ q.sent;
        })
        why

  finish-IsFinal :
      (clips : List Clip) (id : String) (w : CaptureState)
      → IsFinal p env s clips w (finish p settings env s (hash_of p s) id w)
  unfolding finish
  finish-IsFinal clips id w =
      let q = retain-IsQuiet id (record w { last_stable_hash = some (hash_of p s) }) in
      captured id refl (ap (λ l. id ∷ l) q.announced) q.stable q.marked

  undone-IsFinal :
      (clips : List Clip) (inserted : Bool) (id : String) (w : CaptureState)
      → HasFailed p env s clips
      → IsFinal p env s clips w (if inserted then roll_back p env id w else w)
  undone-IsFinal clips true id w why = dropped (roll_back-IsQuiet id w) why
  undone-IsFinal clips false id w why = dropped (IsQuiet-refl w) why

  unsealed-HasFailed :
      (clips : List Clip)
      → sealed_formats p settings env s (hash_of p s) ≡ none
      → HasFailed p env s clips
  unsealed-HasFailed clips h = elim (Bool-cases env.formats_fail) [
    | inl f ↦ unwritten (ground (arith, f))
    | inr f ↦ uncoded (ground (arith, f, h))
  ]

  write_existing-HasFailed :
      (clips : List Clip) (e : Encrypted) (id : String) (w : CaptureState)
      → (write_existing p env s e id w).1 ≡ none
      → HasFailed p env s clips
  unfolding write_existing
  write_existing-HasFailed clips e id w h = unwritten (ground (arith, h))

  write_new-HasFailed :
      (e : Encrypted) (w : CaptureState)
      → (write_new p env s e w).1 ≡ none
      → HasFailed p env s w.clips
  unfolding write_new
  write_new-HasFailed e w h = elim (Option-cases (select (is_uuid env.new_uuid) w.clips)) [
    | inl f ↦ unwritten (ground (arith, f, h))
    | inr (c, f) ↦ taken c f
  ]

  complete-IsFinal :
      (clips : List Clip) (inserted : Bool) (w : CaptureState) (id : Option String)
      → (id ≡ none → HasFailed p env s clips)
      → IsFinal p env s clips w (complete p settings env s (hash_of p s) inserted (w, id))
  unfolding complete
  complete-IsFinal clips inserted w none why = dropped (IsQuiet-refl w) (why refl)
  complete-IsFinal clips inserted w (some id) why =
      let hash = hash_of p s in
      elim (Option-cases (sealed_formats p settings env s hash)) [
        | inl h ↦
            let start = queued p settings env s hash id w in
            subst (IsFinal p env s clips w)
              (sym (complete-unsealed p settings env s hash inserted w id h))
              (IsFinal-clips clips w _ start.clips
                (undone-IsFinal clips inserted id start (unsealed-HasFailed clips h)))
        | inr (formats, h) ↦
            let start = formatted p settings env s hash formats id w in
            subst (IsFinal p env s clips w)
              (sym (complete-sealed p settings env s hash inserted w id formats h))
              (IsFinal-clips clips w _ start.clips (finish-IsFinal clips id start))
      ]

  pub store_capture-IsFinal :
      (w : CaptureState)
      → IsFinal p env s w.clips w (store_capture p settings env s (hash_of p s) w)
  store_capture-IsFinal w =
      store-induction p settings env s (hash_of p s) w (IsFinal p env s w.clips w)
        (λ h. dropped (IsQuiet-refl w) (unencrypted h))
        (λ h.
          dropped
            (record {
              accepted = refl;
              announced = refl;
              stable = refl;
              marked = refl;
              sent = refl;
            })
            (unwritten (ground (arith, h))))
        (λ e k.
          let written = write_new p env s e w in
          IsFinal-quiet w.clips w written.0 _ (write_new-IsQuiet e w)
            (complete-IsFinal w.clips true written.0 written.1 (write_new-HasFailed e w)))
        (λ e row k.
          let written = write_existing p env s e row.columns.uuid w in
          IsFinal-quiet w.clips w written.0 _ (write_existing-IsQuiet e row.columns.uuid w) (
            complete-IsFinal w.clips false written.0 written.1
              (write_existing-HasFailed w.clips e row.columns.uuid w)))
