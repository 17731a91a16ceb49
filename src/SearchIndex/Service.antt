-- ===== src/SearchIndex/Service.antt =====
-- `SearchIndex` itself, src-tauri/src/search_index.rs: the index behind its lock, or none yet, and the
-- count of changes. `lowercase` stands for `str::to_lowercase`, `lossy` for `from_utf8_lossy`,
-- `decrypt` and `decrypt_text` for the methods of `CryptoManager`. A rebuild reads the rows of the
-- database that are not deleted.
use Prim.Native.String.{String}
use text.Mathlib.Text.{◌==◌ as str_eq}
use cubby_clipboard.Prelude.{
  ℕ, suc, ◌%◌, Bool, true, false, List, [], ◌∷◌, Option, none, some, ◌==◌, if◌then◌else◌,
}
use cubby_clipboard.Secrets.Text.{text_eq, trim_matches, is_whitespace}
use cubby_clipboard.SearchIndex.Texts.{SearchDocument, redundant_preview}
use cubby_clipboard.SearchIndex.Query.{matches as index_matches}
use cubby_clipboard.SearchIndex.{
  IndexedDocument, IndexState, empty_state, document, insert, map_option, remove as remove_document,
}

pub record SearchIndex : Type 0 where
  pub state : Option IndexState
  pub generation : ℕ

-- `AtomicU64`
abbrev pub generation_mod : ℕ
generation_mod = 18446744073709551616

abbrev pub next_generation : ℕ → ℕ
next_generation g = suc g % generation_mod

abbrev pub or_empty : Option (List ℕ) → List ℕ
or_empty none = []
or_empty (some text) = text

-- `filter(|value| !value.is_empty())`
abbrev pub filled : List ℕ → Option (List ℕ)
filled [] = none
filled (c ∷ cs) = some (c ∷ cs)

abbrev pub tidy_app : Option (List ℕ) → Option (List ℕ)
tidy_app none = none
tidy_app (some app) = filled (trim_matches is_whitespace app)

abbrev pub default_document : SearchDocument
default_document = record { content = []; preview = []; ocr = []; notes = []; source_app = none }

abbrev pub or_default : Option SearchDocument → SearchDocument
or_default none = default_document
or_default (some d) = d

abbrev pub is_image : String → Bool
is_image clip_type = str_eq clip_type "image"

-- A row of the query of `ensure_ready`; all but the identifier and the type are encrypted.
pub record ClipRow : Type 0 where
  pub id : String
  pub clip_type : String
  pub content : List ℕ
  pub preview : List ℕ
  pub ocr : Option (List ℕ)
  pub notes : Option (List ℕ)
  pub source_app : Option (List ℕ)

abbrev pub and_then : (List ℕ → Option (List ℕ)) → Option (List ℕ) → Option (List ℕ)
and_then f none = none
and_then f (some a) = f a

abbrev pub keep_app : Option (List ℕ) → SearchDocument → SearchDocument → SearchDocument
keep_app none existing d = record d { source_app = existing.source_app }
keep_app (some app) existing d = d

abbrev pub keep_ocr : Option (List ℕ) → SearchDocument → SearchDocument → SearchDocument
keep_ocr none existing d = record d { ocr = existing.ocr }
keep_ocr (some text) existing d = d

abbrev pub revised :
    IndexState → String → Option SearchDocument → (SearchDocument → SearchDocument) → IndexState
revised s id none f = s
revised s id (some d) f = insert s id (f d)

module _ (lowercase : List ℕ → List ℕ) where
  unfoldable pub new_document :
      List ℕ → List ℕ → Option (List ℕ) → Option (List ℕ) → Option (List ℕ) → SearchDocument
  unfolding redundant_preview
  new_document content preview ocr notes source_app =
      let text = lowercase content in
      record {
        content = text;
        preview = redundant_preview text (lowercase preview);
        ocr = lowercase (or_empty ocr);
        notes = lowercase (or_empty notes);
        source_app = tidy_app source_app;
      }

  unfoldable pub update_notes : SearchIndex → String → List ℕ → SearchIndex
  unfolding insert
  update_notes x id notes = record {
    generation = next_generation x.generation;
    state =
        map_option (λ s. revised s id (document s id) (λ d. record d { notes = lowercase notes }))
          x.state;
  }

  unfoldable pub update_ocr : SearchIndex → String → List ℕ → SearchIndex
  unfolding insert
  update_ocr x id ocr = record {
    generation = next_generation x.generation;
    state =
        map_option (λ s. revised s id (document s id) (λ d. record d { ocr = lowercase ocr }))
          x.state;
  }

  unfoldable pub matches : SearchIndex → List ℕ → List String
  matches x query = elim x.state [ none ↦ [] | some s ↦ index_matches lowercase s query ]

  -- The identifiers of the clips of an application.
  unfoldable pub from_app : List (Option IndexedDocument) → List ℕ → List String
  from_app [] wanted = []
  from_app (none ∷ entries) wanted = from_app entries wanted
  from_app (some entry ∷ entries) wanted =
      let rest = from_app entries wanted in
      elim entry.document.source_app [
        | none ↦ rest
        | some app ↦ if text_eq (lowercase app) wanted then entry.id ∷ rest else rest
      ]

  unfoldable pub ids_for_source_app : SearchIndex → List ℕ → List String
  ids_for_source_app x app =
      let wanted = lowercase (trim_matches is_whitespace app) in
      elim x.state [ none ↦ [] | some s ↦ from_app s.documents wanted ]

module _ (lowercase lossy : List ℕ → List ℕ) where
  -- The document of an upsert: the recognized text and the application stay unless given, and the
  -- notes always.
  unfoldable pub upserted :
      SearchDocument → String → List ℕ → List ℕ → Option (List ℕ) → Option (List ℕ) → SearchDocument
  unfolding new_document
  upserted existing clip_type content preview ocr source_app =
      let text = if is_image clip_type then [] else lossy content in
      let fresh = new_document lowercase text preview ocr none source_app in
      let with_ocr = keep_ocr ocr existing fresh in
      keep_app source_app existing (record with_ocr { notes = existing.notes })

  unfoldable pub upsert :
      SearchIndex
      → String
      → String
      → List ℕ
      → List ℕ
      → Option (List ℕ)
      → Option (List ℕ)
      → SearchIndex
  unfolding upserted insert
  upsert x id clip_type content preview ocr source_app = record {
    generation = next_generation x.generation;
    state =
        map_option
          (λ s.
            insert s id
              (upserted (or_default (document s id)) clip_type content preview ocr source_app))
          x.state;
  }

  module _ (decrypt decrypt_text : List ℕ → Option (List ℕ)) where
    -- None for a row that is skipped: its content or its preview is unreadable.
    unfoldable pub indexed : ClipRow → Option SearchDocument
    indexed r = elim (if is_image r.clip_type then some [] else decrypt r.content) [
      | none ↦ none
      | some content ↦ elim (decrypt_text r.preview) [
        | none ↦ none
        | some preview ↦ some (
            new_document lowercase (if is_image r.clip_type then [] else lossy content) preview
              (and_then decrypt_text r.ocr) (and_then decrypt_text r.notes)
              (and_then decrypt_text r.source_app))
      ]
    ]

    unfoldable pub add_row : IndexState → ClipRow → IndexState
    add_row s r = elim (indexed r) [ none ↦ s | some d ↦ insert s r.id d ]

    unfoldable pub build : IndexState → List ClipRow → IndexState
    build s [] = s
    build s (r ∷ rows) = build (add_row s r) rows

    -- The end of a round of `ensure_ready`: the index of the rows is published only if nothing
    -- changed since the generation was read; else the round is repeated.
    unfoldable pub publish : SearchIndex → ℕ → List ClipRow → SearchIndex × Bool
    publish x generation rows =
        if x.generation == generation
        then (record x { state = some (build empty_state rows) }, true)
        else (x, false)

unfoldable pub remove : SearchIndex → String → SearchIndex
unfolding remove_document
remove x id = record {
  generation = next_generation x.generation;
  state = map_option (λ s. remove_document s id) x.state;
}

unfoldable pub invalidate : SearchIndex → SearchIndex
invalidate x = record { generation = next_generation x.generation; state = none }
