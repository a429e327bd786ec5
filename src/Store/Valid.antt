-- ===== src/Store/Valid.antt =====
-- The invariant of the database: groups, unique ids, and no reference or tag of a record that is not
-- stored (bkb-core/src/schema.rs: the primary and foreign keys).
pub mod Writes
pub mod Pages
pub mod Evidence
pub mod Steps
mod Tests
use bitcoin_knowledge_base.Base.{
  ℕ, zero, suc, ◌+◌, ◌-◌, ◌*◌, ◌/◌, ◌%◌, ◌^◌, ◌≤◌, ◌<◌, min, max, String, ◌≡◌, refl, sym, ap, ◌∙◌,
  subst, ◌≢◌, ◌↔◌, ◌⊎◌, inl, inr, Bool, true, false, not, ◌&&◌, ◌||◌, Option, none, some, List, [],
  ◌∷◌, ◌++◌, map, append_assoc, append-nil, arith, ◌==◌, eq_iff, eq_refl, ltb, leb, eqb,
  if◌then◌else◌, Bool-cases, Option-cases, eqb_iff, option_eq, option_eq_iff, is_some, unwrap_or,
  or_else, ◌>>=◌, ◌>>◌, guard, >>=-eq-some, guard-eq-some, not-eq-true, some_inj, &&-eq-true,
  ||-eq-true, length, take, any, all, filter, find, last?, All, In, here, there, In-filter,
  In-of_filter, In-append_left, In-append_right, In-of_append, All-In, length-append, find-In,
  In-any, any-In, all-In, In-map, In-of_map, append, concat, char_eq, char_eq_iff, char_eq_refl,
  is_empty, all_chars, any_char, is_ascii_digit, is_ascii_alphanumeric, is_whitespace, strip_prefix,
  starts_with, strip_suffix, split_once, rsplit_once, last_segment, first_segment, replace_first,
  replace, trim_start, trim_end, trim, split_char, split_whitespace, strip_prefix-append,
  strip_prefix_sound,
}
use bitcoin_knowledge_base.Model.Document.{Document, Reference}
use bitcoin_knowledge_base.Store.Tables.{Db, Row, Mention, find_doc}
use bitcoin_knowledge_base.Store.Writes.{updated, update_rows}
use bitcoin_knowledge_base.Store.Grown.{IsConsistent, IsGrown, find_doc-append}
use bitcoin_knowledge_base.Store.Reset.{of_type}
use bitcoin_knowledge_base.Store.Reset.Keeps.{IsKeyedRows}
use bitcoin_knowledge_base.Store.Pages.Keeps.{All-map}
use bitcoin_knowledge_base.Reconcile.Bind.Merge.{IsStored}
use bitcoin_knowledge_base.Reconcile.Sound.{senders}
use bitcoin_knowledge_base.Reconcile.Lookup.{raw}

-- Ids are unique, and references and tags are those of stored records.
pub record IsReferred (db : Db) : Type 0 where
  pub keyed : IsKeyedRows db.documents
  pub refs : All (IsStored db) (senders db.refs)
  pub mentions : All (λ m. IsStored db m.doc_id) db.mentions

pub record IsValid (db : Db) : Type 0 where
  pub consistent : IsConsistent db
  pub referred : IsReferred db

module _ {A : Type 0} (P : A → Type 0) where
  pub All-append : (xs ys : List A) → All P xs → All P ys → All P (xs ++ ys)
  All-append [] ys hx hy = hy
  All-append (x ∷ xs) ys (h, hx) hy = (h, All-append xs ys hx hy)

  pub All-filter : (p : A → Bool) (xs : List A) → All P xs → All P (filter p xs)
  All-filter p [] h = tt
  All-filter p (x ∷ xs) (h, hs) = elim (Bool-cases (p x)) [
    | inl t ↦ rw t (h, All-filter p xs hs)
    | inr f ↦ rw f (All-filter p xs hs)
  ]

pub senders-append : (xs ys : List Reference) → senders (xs ++ ys) ≡ senders xs ++ senders ys
senders-append [] ys = refl
senders-append (x ∷ xs) ys = ap (λ k. x.from_doc_id ∷ k) (senders-append xs ys)

pub All-senders-filter :
    (P : String → Type 0) (p : Reference → Bool) (rs : List Reference)
    → All P (senders rs)
    → All P (senders (filter p rs))
All-senders-filter P p [] h = tt
All-senders-filter P p (r ∷ rs) (h, hs) = elim (Bool-cases (p r)) [
  | inl t ↦ rw t (h, All-senders-filter P p rs hs)
  | inr f ↦ rw f (All-senders-filter P p rs hs)
]

missing-update_rows :
    (j : String) (doc : Document) (seq : ℕ) (rows : List Row)
    → find_doc j rows ≡ none
    → find_doc j (update_rows doc seq rows) ≡ none
unfolding find_doc update_rows updated
missing-update_rows j doc seq [] h = refl
missing-update_rows j doc seq (r ∷ rs) h = ground (arith, missing-update_rows j doc seq rs)

pub IsKeyedRows-update_rows :
    (doc : Document) (seq : ℕ) (rows : List Row)
    → IsKeyedRows rows
    → IsKeyedRows (update_rows doc seq rows)
unfolding update_rows updated
IsKeyedRows-update_rows doc seq [] h = tt
IsKeyedRows-update_rows doc seq (r ∷ rs) (k, h) = elim (Bool-cases (r.doc.id == doc.id)) [
  | inl t ↦ rw t (missing-update_rows r.doc.id doc seq rs k, IsKeyedRows-update_rows doc seq rs h)
  | inr f ↦ rw f (missing-update_rows r.doc.id doc seq rs k, IsKeyedRows-update_rows doc seq rs h)
]

pub IsKeyedRows-append :
    (rows : List Row) (r : Row)
    → IsKeyedRows rows
    → find_doc r.doc.id rows ≡ none
    → IsKeyedRows (rows ++ r ∷ [])
unfolding find_doc
IsKeyedRows-append [] r h n = (refl, tt)
IsKeyedRows-append (x ∷ xs) r (k, h) n = (
  find_doc-append x.doc.id xs r
      ∙ ground (arith, k, n, eq_iff x.doc.id r.doc.id, eq_iff r.doc.id x.doc.id),
  IsKeyedRows-append xs r h (ground (arith, n)),
)

missing-filter :
    (j : String) (p : Row → Bool) (rows : List Row)
    → find_doc j rows ≡ none
    → find_doc j (filter p rows) ≡ none
unfolding find_doc
missing-filter j p [] h = refl
missing-filter j p (r ∷ rs) h = ground (arith, missing-filter j p rs)

pub IsKeyedRows-filter :
    (p : Row → Bool) (rows : List Row) → IsKeyedRows rows → IsKeyedRows (filter p rows)
unfolding find_doc
IsKeyedRows-filter p [] h = tt
IsKeyedRows-filter p (r ∷ rs) (k, h) = elim (Bool-cases (p r)) [
  | inl t ↦ rw t (missing-filter r.doc.id p rs k, IsKeyedRows-filter p rs h)
  | inr f ↦ rw f (IsKeyedRows-filter p rs h)
]

-- The rows of before or changes to them, the same senders and the same tags.
pub IsReferred-grown :
    (db db' : Db)
    → IsGrown db db'
    → IsKeyedRows db'.documents
    → senders db'.refs ≡ senders db.refs
    → db'.mentions ≡ db.mentions
    → IsReferred db
    → IsReferred db'
unfolding raw
IsReferred-grown db db' g keyed same tags h = record {
  keyed = keyed;
  refs = rw same (All-map g.stored (senders db.refs) h.refs);
  mentions = rw tags (All-map (λ m. g.stored m.doc_id) db.mentions h.mentions);
}
