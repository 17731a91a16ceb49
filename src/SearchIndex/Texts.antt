-- ===== src/SearchIndex/Texts.antt =====
-- The documents of src-tauri/src/search_index.rs and their trigrams.
use cubby_clipboard.Prelude.{
  ℕ, Bool, false, ◌||◌, List, [], ◌∷◌, ◌++◌, Option, length, ◌==◌, if◌then◌else◌,
}
use cubby_clipboard.Secrets.Text.{contains, text_eq}

pub record SearchDocument : Type 0 where
  pub content : List ℕ
  pub preview : List ℕ
  pub ocr : List ℕ
  pub notes : List ℕ
  pub source_app : Option (List ℕ)

unfoldable pub redundant_preview : List ℕ → List ℕ → List ℕ
redundant_preview content preview =
    if length preview == 0 || contains content preview then [] else preview

abbrev pub document_contains : SearchDocument → List ℕ → Bool
document_contains d query =
    contains d.content query
    || (contains d.preview query || (contains d.ocr query || contains d.notes query))

unfoldable pub elem : List ℕ → List (List ℕ) → Bool
elem t [] = false
elem t (u ∷ us) = text_eq t u || elem t us

-- `collect` into a hash set.
unfoldable pub dedup : List (List ℕ) → List (List ℕ)
dedup [] = []
dedup (t ∷ ts) = let rest = dedup ts in if elem t rest then rest else t ∷ rest

-- `windows(3)`
unfoldable pub windows : List ℕ → List (List ℕ)
windows [] = []
windows (a ∷ []) = []
windows (a ∷ b ∷ []) = []
windows (a ∷ b ∷ c ∷ cs) = (a ∷ b ∷ c ∷ []) ∷ windows (b ∷ c ∷ cs)

unfoldable pub trigrams : List ℕ → List (List ℕ)
trigrams value = dedup (windows value)

unfoldable pub document_trigrams : SearchDocument → List (List ℕ)
document_trigrams d =
    dedup (trigrams d.content ++ (trigrams d.preview ++ (trigrams d.ocr ++ trigrams d.notes)))
