-- ===== src/Store/Writes.antt =====
-- The statements that change tables (bkb-store/src/sqlite.rs: write_document, write_reference,
-- write_sync_state and the deletions). `none` is an SQL error.
use bitcoin_knowledge_base.Base.{
  ℕ, suc, max, String, Bool, not, ◌&&◌, Option, none, some, List, [], ◌∷◌, ◌++◌, map, ◌==◌,
  if◌then◌else◌, option_eq, is_some, ◌>>=◌, any, filter,
}
use bitcoin_knowledge_base.Model.SourceType
use bitcoin_knowledge_base.Model.SourceType.{SourceType}
use bitcoin_knowledge_base.Model.Document.{Document, Reference, SyncState, metadata_url, url}
use bitcoin_knowledge_base.Store.Tables.{has_slug, Db, Row, Mention, ChangeType, insert, update}
use bitcoin_knowledge_base.Reconcile.Lookup.{raw}
use bitcoin_knowledge_base.Reconcile.Target.{reference_target, repair_permalink_url}

-- `UNIQUE(source_type, source_repo, source_id)`, under which no NULL equals another.
unfoldable pub clashes : Document → Row → Bool
clashes doc r =
    (SourceType.as_str r.doc.source_type == SourceType.as_str doc.source_type)
    && ((is_some doc.source_repo && option_eq r.doc.source_repo doc.source_repo)
        && (r.doc.source_id == doc.source_id))

-- The columns that an update sets.
unfoldable pub updated : Document → ℕ → Document → Document
updated doc seq old = record old {
  title = doc.title;
  body = doc.body;
  author = doc.author;
  author_id = doc.author_id;
  updated_at = doc.updated_at;
  parent_id = doc.parent_id;
  metadata = doc.metadata;
  seq = some seq;
}

unfoldable pub update_rows : Document → ℕ → List Row → List Row
update_rows doc seq rows =
    map (λ r. if r.doc.id == doc.id then record r { doc = updated doc seq r.doc } else r) rows

unfoldable pub next_rowid : List Row → ℕ
next_rowid [] = 1
next_rowid (r ∷ rs) = max (suc r.rowid) (next_rowid rs)

unfoldable pub log_change : Document → ChangeType → Db → Db
log_change doc change db = record db {
  change_log =
      db.change_log ++ record { seq = db.next_seq; doc_id = doc.id; change_type = change } ∷ [];
  next_seq = suc db.next_seq;
}

-- The insertion with its `ON CONFLICT(id) DO UPDATE`.
unfoldable pub put_document : Document → Db → Option Db
unfolding clashes updated update_rows next_rowid log_change
put_document doc db = elim (raw db doc.id) [
  | some old ↦
      some
        (record (log_change doc update db) { documents = update_rows doc db.next_seq db.documents })
  | none ↦
      if any (clashes doc) db.documents
      then none
      else some (record (log_change doc insert db) {
        documents =
            db.documents
            ++ record {
              rowid = next_rowid db.documents;
              doc = record doc { seq = some db.next_seq };
            }
              ∷ [];
      })
]

-- References by the link that the record had before are resolved anew.
unfoldable pub repair_previous : Option Document → Document → Db → Db
repair_previous old doc db = elim (old >>= metadata_url) [
  | none ↦ db
  | some link ↦ if option_eq (url doc) (some link) then db else repair_permalink_url db link
]

unfoldable pub write_document : Document → Db → Option Db
unfolding put_document repair_previous
write_document doc db = do db' ← put_document doc db; some (repair_previous (raw db doc.id) doc db')

-- A reference from a record that is not stored is a foreign key error.
unfoldable pub put_reference : Reference → Option String → Db → Option Db
put_reference r target db =
    if is_some (raw db r.from_doc_id)
    then some (record db {
      refs = db.refs ++ record r { ref_id = some db.next_ref; to_doc_id = target } ∷ [];
      next_ref = suc db.next_ref;
    })
    else none

unfoldable pub write_reference : Reference → Db → Option Db
unfolding put_reference
write_reference r db = put_reference r (reference_target db r) db

unfoldable pub write_references : List Reference → Db → Option Db
unfolding write_reference
write_references [] db = some db
write_references (r ∷ rs) db = do db' ← write_reference r db; write_references rs db'

unfoldable pub delete_refs_from : String → Db → Db
delete_refs_from id db = record db { refs = filter (λ r. not (r.from_doc_id == id)) db.refs }

unfoldable pub delete_concept_mentions : String → Db → Db
delete_concept_mentions id db = record db {
  mentions = filter (λ m. not (m.doc_id == id)) db.mentions;
}

abbrev pub same_mention : Mention → Mention → Bool
same_mention m k = (m.doc_id == k.doc_id) && (m.concept_slug == k.concept_slug)

-- `INSERT OR REPLACE INTO concept_mentions`; both columns of the key are foreign keys.
unfoldable pub upsert_concept_mention : Mention → Db → Option Db
upsert_concept_mention m db =
    if is_some (raw db m.doc_id) && has_slug m.concept_slug db.concepts
    then some (record db { mentions = filter (λ k. not (same_mention m k)) db.mentions ++ m ∷ [] })
    else none

unfoldable pub upsert_mentions : List Mention → Db → Option Db
unfolding upsert_concept_mention
upsert_mentions [] db = some db
upsert_mentions (m ∷ ms) db = do db' ← upsert_concept_mention m db; upsert_mentions ms db'

-- An update keeps the type and the repository of the row.
unfoldable pub upsert_sync_state : SyncState → List SyncState → List SyncState
upsert_sync_state s [] = s ∷ []
upsert_sync_state s (t ∷ ts) =
    if t.source_id == s.source_id
    then record s { source_type = t.source_type; source_repo = t.source_repo } ∷ ts
    else t ∷ upsert_sync_state s ts

unfoldable pub write_sync_state : SyncState → Db → Db
unfolding upsert_sync_state
write_sync_state s db = record db { sync_states = upsert_sync_state s db.sync_states }

unfoldable pub get_sync_state : String → List SyncState → Option SyncState
get_sync_state id [] = none
get_sync_state id (t ∷ ts) = if t.source_id == id then some t else get_sync_state id ts
