-- ===== src/Store/Pages.antt =====
-- The transactions of the store (bkb-store/src/sqlite.rs: upsert_document, commit_page,
-- reconcile_page, replace_enrichment). `none` is an error, on which the transaction rolls
-- back, so that its caller keeps the database.
pub mod Keeps
pub mod Immutable
pub mod Upsert
use bitcoin_knowledge_base.Base.{
  ℕ, zero, suc, ◌+◌, ◌-◌, ◌*◌, ◌/◌, ◌%◌, ◌^◌, ◌≤◌, ◌<◌, min, max, String, ◌≡◌, refl, sym, ap, ◌∙◌,
  subst, ◌≢◌, ◌↔◌, ◌⊎◌, inl, inr, Bool, true, false, not, ◌&&◌, ◌||◌, Option, none, some, List, [],
  ◌∷◌, ◌++◌, map, append_assoc, append-nil, arith, ◌==◌, eq_iff, eq_refl, ltb, leb, eqb,
  if◌then◌else◌, Bool-cases, Option-cases, eqb_iff, option_eq, option_eq_iff, is_some, unwrap_or,
  or_else, ◌>>=◌, ◌>>◌, guard, >>=-eq-some, guard-eq-some, not-eq-true, some_inj, &&-eq-true,
  ||-eq-true, length, take, any, all, filter, find, last?, All, In, here, there, In-filter,
  In-of_filter, In-append_left, In-append_right, In-of_append, All-In, length-append, find-In,
  In-any, any-In, all-In, In-map, In-of_map, append, concat, char_eq, char_eq_iff, char_eq_refl,
  is_empty, all_chars, any_char, is_ascii_digit, is_ascii_alphanumeric, is_whitespace, strip_prefix,
  starts_with, strip_suffix, split_once, rsplit_once, last_segment, first_segment, replace_first,
  replace, trim_start, trim_end, trim, split_char, split_whitespace, strip_prefix-append,
  strip_prefix_sound,
}
use bitcoin_knowledge_base.Model.SourceType
use bitcoin_knowledge_base.Model.SourceType.{SourceType, commit}
use bitcoin_knowledge_base.Model.RefType
use bitcoin_knowledge_base.Model.RefType.{RefType, replies_to}
use bitcoin_knowledge_base.Model.Document.{Document, Reference, SyncState}
use bitcoin_knowledge_base.Store.Tables.{has_slug, Db, Row, Link, Alias, Mention, Change}
use bitcoin_knowledge_base.Store.Writes.{
  put_reference, write_document, write_references, write_reference, delete_refs_from,
  delete_concept_mentions, upsert_mentions, write_sync_state, same_mention,
}
use bitcoin_knowledge_base.Reconcile.Lookup.{raw}
use bitcoin_knowledge_base.Reconcile.Target.{reference_target, repair_permalink_refs}
use bitcoin_knowledge_base.Reconcile.Observe.{reconcile}

-- The ids of the page's commits that are stored already.
unfoldable pub retained : Db → List Document → List String
retained db [] = []
retained db (doc ∷ docs) =
    let rest = retained db docs in
    if (SourceType.as_str doc.source_type == "commit") && is_some (raw db doc.id)
    then doc.id ∷ rest
    else rest

abbrev pub listed : String → List String → Bool
listed id ids = any (λ k. k == id) ids

-- One record of a page: written, and cleared of its references and tags.
unfoldable pub replace_document : Document → Db → Option Db
unfolding write_document delete_refs_from delete_concept_mentions
replace_document doc db = do
  db' ← write_document doc db
  some (delete_concept_mentions doc.id (delete_refs_from doc.id db'))

-- The records of a page, and the ones that stand for them in what follows.
unfoldable pub write_page : List String → Db → List Document → Db → Option (Db × List Document)
unfolding replace_document
write_page kept start [] db = some (db, [])
write_page kept start (doc ∷ docs) db =
    if listed doc.id kept
    then (do
      res ← write_page kept start docs db
      some (res.0, unwrap_or (raw start doc.id) doc ∷ res.1))
    else (do
      db' ← replace_document doc db
      res ← write_page kept start docs db'
      some (res.0, doc ∷ res.1))

-- The references and tags of the records that are not retained.
unfoldable pub fresh_refs : List String → List Reference → List Reference
fresh_refs kept refs = filter (λ r. not (listed r.from_doc_id kept)) refs

unfoldable pub fresh_mentions : List String → List Mention → List Mention
fresh_mentions kept mentions = filter (λ m. not (listed m.doc_id kept)) mentions

unfoldable pub reply : String → String → Reference
reply id parent = record {
  ref_id = none;
  from_doc_id = id;
  to_doc_id = some parent;
  ref_type = replies_to;
  to_external = none;
  context = none;
}

unfoldable pub parent_refs : Document → List Reference
unfolding reply
parent_refs doc = elim doc.parent_id [ none ↦ [] | some parent ↦ reply doc.id parent ∷ [] ]

abbrev pub same_reference : Reference → Option String → Reference → Bool
same_reference r target k =
    (k.from_doc_id == r.from_doc_id)
    && (option_eq k.to_doc_id target
        && ((RefType.as_str k.ref_type == RefType.as_str r.ref_type)
            && option_eq k.to_external r.to_external))

-- `INSERT … WHERE NOT EXISTS`, with IS for the columns that may be NULL
unfoldable pub add_reference : Reference → Db → Option Db
add_reference r db =
    let target = reference_target db r in
    if any (same_reference r target) db.refs then some db else put_reference r target db

unfoldable pub add_references : List Reference → Db → Option Db
unfolding add_reference
add_references [] db = some db
add_references (r ∷ rs) db = do db' ← add_reference r db; add_references rs db'

-- `INSERT OR IGNORE INTO concept_mentions`: a tag that is there stays.
unfoldable pub add_mentions : List Mention → Db → Option Db
add_mentions [] db = some db
add_mentions (m ∷ ms) db =
    if any (same_mention m) db.mentions
    then add_mentions ms db
    else if is_some (raw db m.doc_id) && has_slug m.concept_slug db.concepts
    then add_mentions ms (record db { mentions = db.mentions ++ m ∷ [] })
    else none

-- The tags that the enrichment found, on the record that it read.
unfoldable pub tagged : String → List Mention → List Mention
tagged id mentions = map {B = Mention} (λ m. record m { doc_id = id }) mentions

module _ (valid_date : String → Bool) where
  unfoldable pub upsert_document : Document → Db → Option Db
  unfolding write_document
  upsert_document doc db = do db' ← write_document doc db; reconcile valid_date db' (doc ∷ [])

  unfoldable pub commit_page :
      List Document → List Reference → List Mention → SyncState → Db → Option Db
  unfolding write_page fresh_refs fresh_mentions write_references upsert_mentions
  commit_page docs refs mentions state db = do
    res ← write_page (retained db docs) db docs db
    db1 ← write_references (fresh_refs (retained db docs) refs) res.0
    db2 ← upsert_mentions (fresh_mentions (retained db docs) mentions) db1
    db3 ← reconcile valid_date db2 res.1
    some (write_sync_state state db3)

  unfoldable pub replace_enrichment : String → List Reference → List Mention → Db → Option Db
  unfolding delete_refs_from delete_concept_mentions write_references tagged parent_refs
      upsert_mentions
  replace_enrichment id refs mentions db = elim (raw db id) [
    | none ↦ some db
    | some doc ↦ do
      db1 ← write_references refs (delete_concept_mentions id (delete_refs_from id db))
      db2 ← write_references (parent_refs doc) db1
      db3 ← upsert_mentions (tagged id mentions) db2
      reconcile valid_date db3 (doc ∷ [])
  ]

  -- The evidence of each stored record, with what `enrich` finds in it now.
  unfoldable pub add_evidence :
      (Document → List Reference × List Mention) → List String → Db → Option (Db × List Document)
  unfolding repair_permalink_refs add_references parent_refs tagged add_mentions
  add_evidence enrich [] db = some (db, [])
  add_evidence enrich (id ∷ ids) db = elim (raw db id) [
    | none ↦ add_evidence enrich ids db
    | some doc ↦ do
      db1 ← add_references ((enrich doc).0 ++ parent_refs doc) (repair_permalink_refs db doc)
      db2 ← add_mentions (tagged doc.id (enrich doc).1) db1
      res ← add_evidence enrich ids db2
      some (res.0, doc ∷ res.1)
  ]

  unfoldable pub reconcile_page :
      (Document → List Reference × List Mention) → List String → SyncState → Db → Option Db
  unfolding add_evidence
  reconcile_page enrich ids state db = do
    res ← add_evidence enrich ids db
    db' ← reconcile valid_date res.0 res.1
    some (write_sync_state state db')
