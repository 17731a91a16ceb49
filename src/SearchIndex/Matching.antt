-- ===== src/SearchIndex/Matching.antt =====
-- The query of src-tauri/src/search_index.rs finds exactly the documents that contain it.
use Prim.Native.String.{String}
use mathlib.Core.Option.{none-ne-some, some-injective}
use text.Mathlib.Text.{◌==◌ as str_eq}
use text.Mathlib.TextEquality.{eq_iff}
use mathlib.Core.Path.{subst}
use cubby_clipboard.Prelude.{
  ℕ, zero, suc, ◌≡◌, refl, sym, ap, ◌∙◌, inl, inr, Bool, true, false, ◌&&◌, ◌||◌, List, [], ◌∷◌,
  Option, none, some, ◌==◌, arith, Bool-cases, Option-cases, ==_iff,
}
use cubby_clipboard.SearchIndex.Texts.{
  SearchDocument, elem, trigrams, document_trigrams, document_contains,
}
use cubby_clipboard.SearchIndex.Slots.{has}
use cubby_clipboard.SearchIndex.{IndexedDocument, IndexState, entry_at, slots_of, document}
use cubby_clipboard.SearchIndex.Query.{
  scan, hits, postings_of, sort_by_len, candidates_of, answer, matches,
}
use cubby_clipboard.SearchIndex.SlotLists.{IsRising}
use cubby_clipboard.SearchIndex.Substrings.{document_contains-trigrams, text_eq_refl}
use cubby_clipboard.SearchIndex.Candidates.{
  all_have, AreRising, all_have-sort_by_len, sort_by_len-AreRising, has-candidates_of,
  sort_by_len-cons,
}
use cubby_clipboard.SearchIndex.Invariant.{IsIndex}

unfoldable pub has_id : String → List String → Bool
has_id i [] = false
has_id i (j ∷ js) = str_eq i j || has_id i js

abbrev entry_contains : Option IndexedDocument → List ℕ → Bool
entry_contains none query = false
entry_contains (some e) query = document_contains e.document query

module _ (i : String) (query : List ℕ) where
  has_id-scan-false :
      (entries : List (Option IndexedDocument))
      → ((slot : ℕ) (e : IndexedDocument)
          → entry_at entries slot ≡ some e
          → (str_eq i e.id && document_contains e.document query) ≡ false)
      → has_id i (scan entries query) ≡ false
  unfolding has_id scan
  has_id-scan-false [] h = refl
  has_id-scan-false (none ∷ entries) h = has_id-scan-false entries (λ slot e k. h (suc slot) e k)
  has_id-scan-false (some e ∷ entries) h =
      ground (arith, h 0 e refl, has_id-scan-false entries (λ slot e k. h (suc slot) e k))

  has_id-scan-true :
      (entries : List (Option IndexedDocument)) (slot : ℕ) (e : IndexedDocument)
      → entry_at entries slot ≡ some e
      → str_eq i e.id ≡ true
      → document_contains e.document query ≡ true
      → has_id i (scan entries query) ≡ true
  unfolding has_id scan
  has_id-scan-true [] slot e h k c = cc
  has_id-scan-true (none ∷ entries) zero e h k c = cc
  has_id-scan-true (some d ∷ entries) zero e h k c = ground arith
  has_id-scan-true (none ∷ entries) (suc slot) e h k c = has_id-scan-true entries slot e h k c
  has_id-scan-true (some d ∷ entries) (suc slot) e h k c =
      ground (arith, has_id-scan-true entries slot e h k c)

  module _ (s : IndexState) (inv : IsIndex s) where
    has_id-hits-none :
        (cs : List ℕ) → s.slots i ≡ none → has_id i (hits s.documents query cs) ≡ false
    unfolding has_id hits
    has_id-hits-none [] h = refl
    has_id-hits-none (c ∷ cs) h = elim (Option-cases (entry_at s.documents c)) [
      | inl e ↦ ground (arith, e, has_id-hits-none cs h)
      | inr (d, e) ↦ ground (arith, e, inv.entry_slot c d e, eq_iff i d.id, has_id-hits-none cs h)
    ]

    has_id-hits-some :
        (cs : List ℕ) (n : ℕ) (d : IndexedDocument)
        → s.slots i ≡ some n
        → entry_at s.documents n ≡ some d
        → d.id ≡ i
        → has_id i (hits s.documents query cs) ≡ (has n cs && document_contains d.document query)
    unfolding has_id hits has
    has_id-hits-some [] n d h k l = refl
    has_id-hits-some (c ∷ cs) n d h k l =
        let ih = has_id-hits-some cs n d h k l in
        elim (Option-cases (entry_at s.documents c)) [
          | inl e ↦ elim (Bool-cases (n == c)) [
            | inl q ↦
                absurd
                  (none-ne-some d (sym (sym k ∙ ap (entry_at s.documents) ((==_iff n c).0 q) ∙ e)))
            | inr q ↦ ground (arith, e, q, ih)
          ]
          | inr (f, e) ↦ elim (Bool-cases (n == c)) [
            | inl q ↦
                let same : d ≡ f =
                  some-injective d f (sym k ∙ ap (entry_at s.documents) ((==_iff n c).0 q) ∙ e) in
                ground (arith, e, q, ih, same, l, eq_iff i f.id)
            | inr q ↦ ground (arith, e, q, ih, inv.entry_slot c f e, eq_iff i f.id, h)
          ]
        ]

-- Whether the document contains the text.
abbrev pub found : Option SearchDocument → List ℕ → Bool
found none query = false
found (some d) query = document_contains d query

has_id-hits :
    (i : String) (query : List ℕ) (s : IndexState)
    → IsIndex s
    → (cs : List ℕ)
    → ((n : ℕ) (e : IndexedDocument)
        → entry_at s.documents n ≡ some e
        → document_contains e.document query ≡ true
        → has n cs ≡ true)
    → has_id i (hits s.documents query cs) ≡ found (document s i) query
unfolding document
has_id-hits i query s inv cs h = elim (Option-cases (s.slots i)) [
  | inl e ↦ ground (arith, e, has_id-hits-none i query s inv cs e)
  | inr (n, e) ↦
      let (d, k, l) = inv.slot_entry i n e in
      ground (arith, e, k, has_id-hits-some i query s inv cs n d e k l, h n d k)
]

has_id-scan :
    (i : String) (query : List ℕ) (s : IndexState)
    → IsIndex s
    → has_id i (scan s.documents query) ≡ found (document s i) query
unfolding document
has_id-scan i query s inv = elim (Option-cases (s.slots i)) [
  | inl e ↦ ground (
    arith,
    e,
    has_id-scan-false i query s.documents
        (λ (n : ℕ) (d : IndexedDocument) (k : entry_at s.documents n ≡ some d).
          ground (arith, inv.entry_slot n d k, eq_iff i d.id)),
  )
  | inr (n, e) ↦
      let (d, k, l) = inv.slot_entry i n e in
      elim (Bool-cases (document_contains d.document query)) [
        | inl c ↦ ground (
          arith,
          e,
          k,
          has_id-scan-true i query s.documents n d k (ground (arith, eq_iff i d.id)) c,
        )
        | inr c ↦ ground (
          arith,
          e,
          k,
          has_id-scan-false i query s.documents
              (λ (m : ℕ) (f : IndexedDocument) (g : entry_at s.documents m ≡ some f).
                ground (arith, inv.entry_slot m f g, eq_iff i f.id, e, k, c, g)),
        )
      ]
]

-- The slot is posted under all the trigrams.
all_posted : ℕ → (List ℕ → Option (List ℕ)) → List (List ℕ) → Bool
all_posted slot postings [] = true
all_posted slot postings (t ∷ ts) = has slot (slots_of (postings t)) && all_posted slot postings ts

postings_of-none :
    (slot : ℕ) (p : List ℕ → Option (List ℕ)) (ts : List (List ℕ))
    → postings_of p ts ≡ none
    → all_posted slot p ts ≡ false
unfolding postings_of all_posted
postings_of-none slot p [] e = cc
postings_of-none slot p (t ∷ ts) e = elim (Option-cases (p t)) [
  | inl h ↦ unfold has in ground (arith, h)
  | inr (slots, h) ↦ elim (Option-cases (postings_of p ts)) [
    | inl k ↦ ground (arith, h, postings_of-none slot p ts k)
    | inr (lists, k) ↦ ground (arith, h, k)
  ]
]

postings_of-nil :
    (p : List ℕ → Option (List ℕ)) (t : List ℕ) (ts : List (List ℕ))
    → postings_of p (t ∷ ts) ≡ some []
    → ⊥
unfolding postings_of
postings_of-nil p t ts e = elim (Option-cases (p t)) [
  | inl h ↦ absurd (ground (arith, h))
  | inr (slots, h) ↦ elim (Option-cases (postings_of p ts)) [
    | inl k ↦ absurd (ground (arith, h, k))
    | inr (lists, k) ↦ absurd (ground (arith, h, k))
  ]
]

postings_of-some :
    (slot : ℕ) (p : List ℕ → Option (List ℕ)) (ts ps : List (List ℕ))
    → ((t : List ℕ) → IsRising (slots_of (p t)))
    → postings_of p ts ≡ some ps
    → AreRising ps × (all_have slot ps ≡ all_posted slot p ts)
unfolding postings_of all_posted AreRising all_have
postings_of-some slot p [] [] r e = (tt, refl)
postings_of-some slot p [] (q ∷ ps) r e = absurd (cc)
postings_of-some slot p (t ∷ ts) [] r e = absurd (postings_of-nil p t ts e)
postings_of-some slot p (t ∷ ts) (q ∷ ps) r e = elim (Option-cases (p t)) [
  | inl h ↦ absurd (ground (arith, h))
  | inr (slots, h) ↦ elim (Option-cases (postings_of p ts)) [
    | inl k ↦ absurd (ground (arith, h, k))
    | inr (lists, k) ↦
        let same_q : q ≡ slots_of (p t) = ground (arith, h, k) in
        let same_ps : lists ≡ ps = ground (arith, h, k) in
        let ih = postings_of-some slot p ts ps r (k ∙ ap some same_ps) in
        ((rw same_q (r t), ih.0), ground (arith, ih.1, same_q))
  ]
]

-- A live document that has all the trigrams is posted under them.
all_posted-live :
    (s : IndexState) (inv : IsIndex s) (n : ℕ) (e : IndexedDocument) (ts : List (List ℕ))
    → entry_at s.documents n ≡ some e
    → ((t : List ℕ) → elem t ts ≡ true → elem t (document_trigrams e.document) ≡ true)
    → all_posted n s.postings ts ≡ true
unfolding all_posted elem
all_posted-live s inv n e [] k h = refl
all_posted-live s inv n e (t ∷ ts) k h = ground (
  arith,
  inv.posted t n,
  k,
  h t,
  text_eq_refl t,
  all_posted-live s inv n e ts k (λ u j. h u (ground (arith, j))),
)

-- The candidates are the slots that all lists have.
has-candidates :
    (p : List ℕ → Option (List ℕ)) (t : List ℕ) (ts : List (List ℕ)) (n : ℕ) (ps : List (List ℕ))
    → postings_of p (t ∷ ts) ≡ some ps
    → AreRising ps
    → has n (candidates_of (sort_by_len ps)) ≡ all_have n ps
has-candidates p t ts n [] e r = absurd (postings_of-nil p t ts e)
has-candidates p t ts n (q ∷ qs) e r =
    let (q', qs', sorted) = sort_by_len-cons q qs in
    let rising = subst AreRising sorted (sort_by_len-AreRising (q ∷ qs) r) in
    ap (λ l. has n (candidates_of l)) sorted
    ∙ has-candidates_of n q' qs' rising
    ∙ ap (all_have n) (sym sorted)
    ∙ all_have-sort_by_len n (q ∷ qs)

answer-none :
    (s : IndexState) (query t : List ℕ) (ts : List (List ℕ))
    → postings_of s.postings (t ∷ ts) ≡ none
    → answer s query (t ∷ ts) ≡ []
unfolding answer
answer-none s query t ts e = ground (arith, e)

answer-some :
    (s : IndexState) (query t : List ℕ) (ts ps : List (List ℕ))
    → postings_of s.postings (t ∷ ts) ≡ some ps
    → answer s query (t ∷ ts) ≡ hits s.documents query (candidates_of (sort_by_len ps))
unfolding answer
answer-some s query t ts ps e = ground (arith, e)

has_id-answer :
    (i : String) (query : List ℕ) (s : IndexState) (inv : IsIndex s) (ts : List (List ℕ))
    → ((d : SearchDocument) (t : List ℕ)
        → document_contains d query ≡ true
        → elem t ts ≡ true
        → elem t (document_trigrams d) ≡ true)
    → has_id i (answer s query ts) ≡ found (document s i) query
unfolding answer hits
has_id-answer i query s inv [] h = has_id-scan i query s inv
has_id-answer i query s inv (t ∷ ts) h = elim (Option-cases (postings_of s.postings (t ∷ ts))) [
  | inl e ↦
      ap (has_id i) (answer-none s query t ts e)
      ∙ has_id-hits i query s inv [] (λ n d k c.
        let no_list = postings_of-none n s.postings (t ∷ ts) e in
        let live = all_posted-live s inv n d (t ∷ ts) k (λ u j. h d.document u c j) in
        ground (arith, no_list, live))
  | inr (ps, e) ↦
      ap (has_id i) (answer-some s query t ts ps e)
      ∙ has_id-hits i query s inv (candidates_of (sort_by_len ps)) (λ n d k c.
        let (lists_rising, all) = postings_of-some n s.postings (t ∷ ts) ps inv.rising e in
        has-candidates s.postings t ts n ps e lists_rising
        ∙ all
        ∙ all_posted-live s inv n d (t ∷ ts) k (λ u j. h d.document u c j))
]

-- The query finds a clip exactly if the text of its document contains the query in lower case.
pub has_id-matches :
    (lowercase : List ℕ → List ℕ) (s : IndexState) (i : String) (text : List ℕ)
    → IsIndex s
    → has_id i (matches lowercase s text) ≡ found (document s i) (lowercase text)
unfolding matches
has_id-matches lowercase s i text inv =
    has_id-answer i (lowercase text) s inv (trigrams (lowercase text))
      (λ d t c e. document_contains-trigrams t d (lowercase text) c e)
