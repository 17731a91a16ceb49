-- ===== src/SearchIndex/Publishing.antt =====
-- Changes while the index is rebuilt, src-tauri/src/search_index.rs: `ensure_ready` checks the
-- generation again under the lock before it publishes.
use Prim.Native.String.{String}
use cubby_clipboard.Prelude.{
  ℕ, suc, ◌+◌, ◌%◌, ◌<◌, ◌≡◌, ◌≢◌, refl, false, List, [], ◌∷◌, Option, length, arith, ==_iff,
}
use cubby_clipboard.SearchIndex.Service.{
  SearchIndex, ClipRow, generation_mod, upsert, update_notes, update_ocr, remove, invalidate,
  publish,
}

-- The public methods that change the index.
pub data Method : Type 0 where
  upserts : String → String → List ℕ → List ℕ → Option (List ℕ) → Option (List ℕ) → Method
  updates_notes : String → List ℕ → Method
  updates_ocr : String → List ℕ → Method
  removes : String → Method
  invalidates : Method

module _ (lowercase lossy : List ℕ → List ℕ) where
  unfoldable pub perform : SearchIndex → Method → SearchIndex
  perform x (upserts id clip_type content preview ocr source_app) =
      upsert lowercase lossy x id clip_type content preview ocr source_app
  perform x (updates_notes id notes) = update_notes lowercase x id notes
  perform x (updates_ocr id ocr) = update_ocr lowercase x id ocr
  perform x (removes id) = remove x id
  perform x invalidates = invalidate x

  unfoldable pub perform_all : SearchIndex → List Method → SearchIndex
  perform_all x [] = x
  perform_all x (m ∷ methods) = perform_all (perform x m) methods

  generation-perform :
      (x : SearchIndex) (m : Method) → (perform x m).generation ≡ suc x.generation % generation_mod
  unfolding perform upsert update_notes update_ocr remove invalidate
  generation-perform x (upserts id clip_type content preview ocr source_app) = refl
  generation-perform x (updates_notes id notes) = refl
  generation-perform x (updates_ocr id ocr) = refl
  generation-perform x (removes id) = refl
  generation-perform x invalidates = refl

  -- Every change is counted.
  generation-perform_all :
      (x : SearchIndex) (methods : List Method)
      → x.generation < generation_mod
      → (perform_all x methods).generation ≡ (x.generation + length methods) % generation_mod
  unfolding perform_all
  generation-perform_all x [] h = omega (arith, h)
  generation-perform_all x (m ∷ methods) h =
      let step = generation-perform x m in
      let rest = generation-perform_all (perform x m) methods (omega (arith, step)) in
      omega (arith, step, rest, h)

  module _ (decrypt decrypt_text : List ℕ → Option (List ℕ)) where
    -- If at least one and fewer than 2^64 changes were made since a round of the rebuild read the
    -- generation, then the round publishes nothing, whatever rows it read: the index stays what the
    -- changes made of it, and the round is repeated.
    pub publish-perform_all :
        (x : SearchIndex) (methods : List Method) (rows : List ClipRow)
        → x.generation < generation_mod
        → 0 < length methods
        → length methods < generation_mod
        → publish lowercase lossy decrypt decrypt_text (perform_all x methods) x.generation rows
          ≡ (perform_all x methods, false)
    unfolding publish
    publish-perform_all x methods rows h some_change few =
        let now = generation-perform_all x methods h in
        let moved : (perform_all x methods).generation ≢ x.generation =
          λ e. omega (arith, now, h, some_change, few, e) in
        ground (arith, moved, ==_iff (perform_all x methods).generation x.generation)
