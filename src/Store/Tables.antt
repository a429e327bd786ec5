-- ===== src/Store/Tables.antt =====
-- The tables of the database (bkb-core/src/schema.rs). A table is the list of its rows; a column
-- holds the value that the program stores in it, so that the texts in which times and JSON are kept
-- do not appear. The full-text index, which triggers keep, is left out.
use bitcoin_knowledge_base.Base.{
  ℕ, String, ◌≡◌, refl, inl, inr, Bool, Option, none, some, List, [], ◌∷◌, arith, ◌==◌, eq_iff,
  if◌then◌else◌, Bool-cases, any, filter,
}
use bitcoin_knowledge_base.Model.Concepts.{ConceptDef}
use bitcoin_knowledge_base.Model.Document.{Document, Reference, SyncState}

-- A row of `documents` with its implicit rowid.
pub record Row : Type 0 where
  pub rowid : ℕ
  pub doc : Document

pub record Link : Type 0 where
  pub doc_id : String
  pub target_id : String
  pub origin_id : String
  pub evidence : String

pub record Alias : Type 0 where
  pub doc_id : String
  pub canonical_id : String
  pub origin_id : String
  pub evidence : String

pub record Mention : Type 0 where
  pub doc_id : String
  pub concept_slug : String
  pub confidence : ℕ

pub data ChangeType : Type 0 where
  insert update : ChangeType

pub record Change : Type 0 where
  pub seq : ℕ
  pub doc_id : String
  pub change_type : ChangeType

abbrev pub has_slug : String → List ConceptDef → Bool
has_slug slug cs = any (λ (c : ConceptDef). c.slug == slug) cs

-- `next_ref` and `next_seq` are the next values of the two AUTOINCREMENT columns, `concepts` holds
-- the rows of the vocabulary, with the aliases as a list.
pub record Db : Type 0 where
  pub documents : List Row
  pub links : List Link
  pub aliases : List Alias
  pub refs : List Reference
  pub next_ref : ℕ
  pub concepts : List ConceptDef
  pub mentions : List Mention
  pub change_log : List Change
  pub next_seq : ℕ
  pub sync_states : List SyncState

unfoldable pub find_doc : String → List Row → Option Document
find_doc id [] = none
find_doc id (r ∷ rs) = if r.doc.id == id then some r.doc else find_doc id rs

-- `SELECT … FROM document_aliases WHERE doc_id = id`
unfoldable pub alias_of : String → List Alias → Option Alias
alias_of id [] = none
alias_of id (r ∷ rs) = if r.doc_id == id then some r else alias_of id rs

-- `INSERT INTO document_aliases … ON CONFLICT(doc_id) DO UPDATE`, on the table
unfoldable pub upsert_alias : Alias → List Alias → List Alias
upsert_alias row [] = row ∷ []
upsert_alias row (r ∷ rs) = if r.doc_id == row.doc_id then row ∷ rs else r ∷ upsert_alias row rs

-- `doc_id` is the primary key.
abbrev pub IsKeyed : List Alias → Type 0
IsKeyed [] = Unit
IsKeyed (r ∷ rs) = (alias_of r.doc_id rs ≡ none) × IsKeyed rs

pub alias_of-doc_id :
    (j : String) (rows : List Alias) (r : Alias) → alias_of j rows ≡ some r → r.doc_id ≡ j
unfolding alias_of
alias_of-doc_id j [] r h = cc
alias_of-doc_id j (x ∷ xs) r h = ground (arith, eq_iff x.doc_id j, alias_of-doc_id j xs r)

pub alias_of-upsert_alias :
    (j : String) (row : Alias) (rows : List Alias)
    → alias_of j (upsert_alias row rows) ≡ (if row.doc_id == j then some row else alias_of j rows)
unfolding alias_of upsert_alias
alias_of-upsert_alias j row [] = refl
alias_of-upsert_alias j row (r ∷ rs) = ground (
  arith,
  alias_of-upsert_alias j row rs,
  eq_iff r.doc_id row.doc_id,
  eq_iff row.doc_id j,
  eq_iff r.doc_id j,
)

pub IsKeyed-upsert_alias :
    (row : Alias) (rows : List Alias) → IsKeyed rows → IsKeyed (upsert_alias row rows)
unfolding alias_of upsert_alias
IsKeyed-upsert_alias row [] h = (refl, tt)
IsKeyed-upsert_alias row (r ∷ rs) (k, h) = elim (Bool-cases (r.doc_id == row.doc_id)) [
  | inl same ↦ rw same (rw (← (eq_iff r.doc_id row.doc_id).0 same) k, h)
  | inr other ↦ rw other (
    rw (alias_of-upsert_alias r.doc_id row rs)
        (ground (arith, eq_iff r.doc_id row.doc_id, eq_iff row.doc_id r.doc_id)),
    IsKeyed-upsert_alias row rs h,
  )
]

abbrev pub keep_if : (Alias → Bool) → Option Alias → Option Alias
keep_if p none = none
keep_if p (some r) = if p r then some r else none

pub alias_of-filter :
    (p : Alias → Bool) (j : String) (rows : List Alias)
    → IsKeyed rows
    → alias_of j (filter p rows) ≡ keep_if p (alias_of j rows)
unfolding alias_of
alias_of-filter p j [] h = refl
alias_of-filter p j (r ∷ rs) (k, h) = ground (arith, alias_of-filter p j rs h, eq_iff r.doc_id j)

pub IsKeyed-filter : (p : Alias → Bool) (rows : List Alias) → IsKeyed rows → IsKeyed (filter p rows)
unfolding alias_of
IsKeyed-filter p [] h = tt
IsKeyed-filter p (r ∷ rs) (k, h) = elim (Bool-cases (p r)) [
  | inl t ↦ rw t (rw (alias_of-filter p r.doc_id rs h) (rw k refl), IsKeyed-filter p rs h)
  | inr f ↦ rw f (IsKeyed-filter p rs h)
]
