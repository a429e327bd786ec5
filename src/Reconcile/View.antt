-- ===== src/Reconcile/View.antt =====
-- Reading a group as one record (bkb-store/src/reconcile.rs: origins, projected, concepts,
-- canonical_refs, context). A query that gives no order reads the rows in the table's order.
pub mod Groups
pub mod References
pub mod Concepts
mod Tests
use bitcoin_knowledge_base.Base.{
  ℕ, zero, suc, ◌+◌, ◌-◌, ◌*◌, ◌/◌, ◌%◌, ◌^◌, ◌≤◌, ◌<◌, min, max, String, ◌≡◌, refl, sym, ap, ◌∙◌,
  subst, ◌≢◌, ◌↔◌, ◌⊎◌, inl, inr, Bool, true, false, not, ◌&&◌, ◌||◌, Option, none, some, List, [],
  ◌∷◌, ◌++◌, map, append_assoc, append-nil, arith, ◌==◌, eq_iff, eq_refl, ltb, leb, eqb,
  if◌then◌else◌, Bool-cases, Option-cases, eqb_iff, option_eq, option_eq_iff, is_some, unwrap_or,
  or_else, ◌>>=◌, ◌>>◌, guard, >>=-eq-some, guard-eq-some, not-eq-true, some_inj, &&-eq-true,
  ||-eq-true, length, take, any, all, filter, find, last?, All, In, here, there, In-filter,
  In-of_filter, In-append_left, In-append_right, In-of_append, All-In, length-append, find-In,
  In-any, any-In, all-In, In-map, In-of_map, append, concat, char_eq, char_eq_iff, char_eq_refl,
  is_empty, all_chars, any_char, is_ascii_digit, is_ascii_alphanumeric, is_whitespace, strip_prefix,
  starts_with, strip_suffix, split_once, rsplit_once, last_segment, first_segment, replace_first,
  replace, trim_start, trim_end, trim, split_char, split_whitespace, strip_prefix-append,
  strip_prefix_sound,
}
use mathlib.Core.Option
use bitcoin_knowledge_base.Base.Sorted.{sorted, distinct}
use bitcoin_knowledge_base.Model.SourceType.{SourceType}
use bitcoin_knowledge_base.Model.RefType
use bitcoin_knowledge_base.Model.Document.{Document, Reference, url}
use bitcoin_knowledge_base.Mirror.{MirrorOrigin, parse}
use bitcoin_knowledge_base.Store.Tables.{Db, Mention, alias_of}
use bitcoin_knowledge_base.Reconcile.Lookup.{raw, canonical_id, group_id, issue_id}
use bitcoin_knowledge_base.Reconcile.Bind.{in_group}
use bitcoin_knowledge_base.Reconcile.Target.{reference_target}

pub record DocumentOrigin : Type 0 where
  pub id : String
  pub source_type : SourceType
  pub source_repo : Option String
  pub url : Option String
  pub author : Option String
  pub author_id : Option String
  pub created_at : ℕ
  pub updated_at : Option ℕ
  pub evidence : Option String

pub record DocumentContext : Type 0 where
  pub provenance : List DocumentOrigin
  pub document : Document
  pub link : Option String
  pub outgoing_refs : List Reference
  pub incoming_refs : List Reference
  pub concepts : List String

-- `id = group OR id IN (SELECT doc_id FROM document_aliases WHERE canonical_id = group)`
abbrev pub of_group : String → Db → String → Bool
of_group group db id = id == group || in_group (λ g. g == group) id db.aliases

unfoldable pub group_members : String → Db → List String
unfolding in_group
group_members group db =
    sorted (map (λ r. r.doc.id) (filter (λ r. of_group group db r.doc.id) db.documents))

-- The ids are those of rows, so that each has its record.
unfoldable pub origin_rows : Db → List String → List DocumentOrigin
unfolding raw url alias_of
origin_rows db [] = []
origin_rows db (member ∷ members) = elim (raw db member) [
  | none ↦ origin_rows db members
  | some doc ↦
      record {
        id = doc.id;
        source_type = doc.source_type;
        source_repo = doc.source_repo;
        url = url doc;
        author = doc.author;
        author_id = doc.author_id;
        created_at = doc.created_at;
        updated_at = doc.updated_at;
        evidence = Option.map (λ a. a.evidence) (alias_of member db.aliases);
      }
      ∷ origin_rows db members
]

unfoldable pub origins : Db → String → List DocumentOrigin
unfolding group_members origin_rows canonical_id
origins db id = origin_rows db (group_members (canonical_id db id) db)

-- The record shows what the group's origin says.
unfoldable pub from_origin : Document → Document → Document
from_origin original doc = record doc {
  body = original.body;
  title = original.title;
  author = original.author;
  author_id = original.author_id;
  created_at = original.created_at;
}

unfoldable pub from_marker : (String → Bool) → Document → Document
unfolding parse
from_marker valid_date doc = elim (parse valid_date doc) [
  | none ↦ doc
  | some o ↦ record doc { body = some o.body; author = some o.author; author_id = none }
]

unfoldable pub with_origin : (String → Bool) → Db → String → Document → Document
unfolding raw alias_of from_origin from_marker
with_origin valid_date db canonical doc =
    elim (Option.map (λ a. a.origin_id) (alias_of canonical db.aliases)) [
      | none ↦ from_marker valid_date doc
      | some origin ↦
          if origin == canonical
          then from_marker valid_date doc
          else elim (raw db origin) [ none ↦ doc | some original ↦ from_origin original doc ]
    ]

abbrev pub with_parent : Db → Document → Document
with_parent db doc = record doc { parent_id = Option.map (canonical_id db) doc.parent_id }

unfoldable pub projected : (String → Bool) → Db → String → Option Document
unfolding with_origin canonical_id
projected valid_date db id = do
  doc ← raw db (canonical_id db id)
  some (with_parent db (with_origin valid_date db (canonical_id db id) doc))

-- `COALESCE(a.canonical_id, cm.doc_id)`
unfoldable pub concepts : Db → String → List String
unfolding canonical_id alias_of
concepts db id = sorted (
    distinct (
      map (λ m. m.concept_slug)
        (filter (λ m. group_id m.doc_id (alias_of m.doc_id db.aliases) == canonical_id db id)
          db.mentions)))

abbrev pub Key : Type 0
Key = String × Option String × String

abbrev pub same_key : Key → Key → Bool
same_key (a, b, c) (x, y, z) = (a == x) && (option_eq b y && (c == z))

unfoldable pub ref_key : Reference → Key
unfolding RefType.as_str
ref_key r = (r.from_doc_id, or_else r.to_doc_id r.to_external, RefType.as_str r.ref_type)

unfoldable pub canonical_ref : Db → Reference → Reference
unfolding canonical_id reference_target
canonical_ref db r = record r {
  from_doc_id = canonical_id db r.from_doc_id;
  to_doc_id = Option.map (canonical_id db) (reference_target db r);
}

-- The loop with the set `seen`.
unfoldable pub unseen_refs : Db → List Key → List Reference → List Reference
unfolding canonical_ref ref_key
unseen_refs db seen [] = []
unseen_refs db seen (r ∷ rs) = elim (any (same_key (ref_key (canonical_ref db r))) seen) [
  | true ↦ unseen_refs db seen rs
  | false ↦ canonical_ref db r ∷ unseen_refs db (ref_key (canonical_ref db r) ∷ seen) rs
]

unfoldable pub canonical_refs : Db → List Reference → List Reference
unfolding unseen_refs
canonical_refs db refs = unseen_refs db [] refs

-- The references that name the member, its issue, or its number in its repository.
unfoldable pub incoming : Db → String → Document → List Reference
unfolding issue_id
incoming db member doc =
    let external = concat (unwrap_or doc.source_repo "" ∷ "#" ∷ doc.source_id ∷ []) in
    filter
      (λ r.
        (option_eq r.to_doc_id (some member) || option_eq r.to_doc_id (some (issue_id member)))
        || option_eq r.to_external (some external))
      db.refs

unfoldable pub outgoing_all : Db → List String → List Reference
outgoing_all db [] = []
outgoing_all db (member ∷ members) =
    filter (λ r. r.from_doc_id == member) db.refs ++ outgoing_all db members

unfoldable pub incoming_all : Db → List String → List Reference
unfolding raw incoming
incoming_all db [] = []
incoming_all db (member ∷ members) = elim (raw db member) [
  | none ↦ incoming_all db members
  | some doc ↦ incoming db member doc ++ incoming_all db members
]

unfoldable pub member_concepts : Db → List String → List String
member_concepts db [] = []
member_concepts db (member ∷ members) =
    map (λ m. m.concept_slug) (filter (λ (m : Mention). m.doc_id == member) db.mentions)
    ++ member_concepts db members

-- What is shown with a record.
unfoldable pub context_of : Db → Bool → Document → DocumentContext
unfolding origins outgoing_all incoming_all member_concepts canonical_refs url
context_of db canonical doc =
    let provenance = origins db doc.id in
    let members =
      if canonical then map (λ (o : DocumentOrigin). o.id) provenance else doc.id ∷ [] in
    let outgoing = outgoing_all db members in
    let arriving = incoming_all db members in
    record {
      provenance = provenance;
      document = doc;
      link = url doc;
      outgoing_refs = if canonical then canonical_refs db outgoing else outgoing;
      incoming_refs = if canonical then canonical_refs db arriving else arriving;
      concepts = sorted (distinct (member_concepts db members));
    }

unfoldable pub context : (String → Bool) → Db → String → Bool → Option DocumentContext
unfolding projected context_of raw
context valid_date db id canonical = do
  doc ← if canonical then projected valid_date db id else raw db id
  some (context_of db canonical doc)
