-- ===== src/Store/Pages/Upsert.antt =====
-- One record that is written and reconciled (bkb-store/src/sqlite.rs: upsert_document).
use bitcoin_knowledge_base.Base.{
  ℕ, String, ◌≡◌, refl, sym, ap, ◌∙◌, subst, inl, inr, Bool, true, Option, none, some, [], ◌∷◌,
  ◌++◌, ◌==◌, eq_iff, eq_refl, if◌then◌else◌, Bool-cases, Option-cases, option_eq, unwrap_or,
  or_else, ◌>>=◌, >>=-eq-some, some_inj, any, All,
}
use mathlib.Core.Option
use bitcoin_knowledge_base.Model.Document.{Document, metadata_url, url}
use bitcoin_knowledge_base.Store.Tables.{Db, Row, find_doc, update}
use bitcoin_knowledge_base.Store.Writes.{
  write_document, put_document, next_rowid, clashes, log_change, updated, update_rows,
  repair_previous,
}
use bitcoin_knowledge_base.Store.Pages.{upsert_document}
use bitcoin_knowledge_base.Store.Grown.{
  IsConsistent, IsConsistent-grown, find_doc-append, raw_update,
}
use bitcoin_knowledge_base.Store.Grown.Writes.{write_document-Grows, write_document-IsStored}
use bitcoin_knowledge_base.Store.Pages.Keeps.{
  grown, consistent-reconcile, IsSound-IsStored, rows-IsStored,
}
use bitcoin_knowledge_base.Reconcile.Lookup.{raw, raw-id}
use bitcoin_knowledge_base.Reconcile.Target.{repair_permalink_url, permalink_repo}
use bitcoin_knowledge_base.Reconcile.Sound.{IsSound}
use bitcoin_knowledge_base.Reconcile.Bind.Merge.{IsStored}

IsSound-raw : {old db : Db} → IsSound old db → (id : String) → raw db id ≡ raw old id
unfolding raw
IsSound-raw s id = ap (find_doc id) s.documents

abbrev columns : Document → Document → ℕ → Document
columns kept doc seq = record kept {
  title = doc.title;
  body = doc.body;
  author = doc.author;
  author_id = doc.author_id;
  updated_at = doc.updated_at;
  parent_id = doc.parent_id;
  metadata = doc.metadata;
  seq = some seq;
}

-- What a written record is stored as: its columns, under those that a row keeps.
abbrev Written : Document → Db → Db → Type 0
Written doc db db' = raw db' doc.id ≡ some (columns (unwrap_or (raw db doc.id) doc) doc db.next_seq)

put_document-Written :
    (doc : Document) (db db' : Db) → put_document doc db ≡ some db' → Written doc db db'
unfolding put_document log_change updated raw
put_document-Written doc db db' h = elim (Option-cases (raw db doc.id)) [
  | inl n ↦ elim (Bool-cases (any (clashes doc) db.documents)) [
    | inl t ↦ cc (rw (n, t, put_document) at h)
    | inr f ↦
        let row : Row = record {
          rowid = next_rowid db.documents;
          doc = record doc { seq = some db.next_seq };
        } in
        let fresh : raw db doc.id ≡ none = n in
        let found : find_doc doc.id (db.documents ++ row ∷ []) ≡ some row.doc =
          find_doc-append doc.id db.documents row
          ∙ ap (λ o. or_else o (if doc.id == doc.id then some row.doc else none)) fresh
          ∙ rw (eq_refl doc.id) refl in
        subst (Written doc db) (some_inj (rw (n, f, put_document) at h))
          (found ∙ ap (λ o. some (columns (unwrap_or o doc) doc db.next_seq)) (sym fresh))
  ]
  | inr (old, r) ↦
      let same : (old.id == doc.id) ≡ true = (eq_iff _ _).1 (raw-id db doc.id old r) in
      let after : Db = record (log_change doc update db) {
        documents = update_rows doc db.next_seq db.documents;
      } in
      subst (Written doc db) (some_inj (rw (r, put_document) at h)) (
        raw_update db after doc refl doc.id
        ∙ ap (Option.map (λ d. if d.id == doc.id then updated doc db.next_seq d else d)) r
        ∙ rw same (ap (λ o. some (columns (unwrap_or o doc) doc db.next_seq)) (sym r)))
]

repair_previous-documents :
    (old : Option Document) (doc : Document) (db : Db)
    → (repair_previous old doc db).documents ≡ db.documents
unfolding repair_previous repair_permalink_url
repair_previous-documents old doc db = elim (Option-cases (old >>= metadata_url)) [
  | inl n ↦ rw (n, repair_previous) refl
  | inr (link, l) ↦ elim (Bool-cases (option_eq (url doc) (some link))) [
    | inl t ↦ rw (l, t, repair_previous) refl
    | inr f ↦ elim (Option-cases (permalink_repo link)) [
      | inl n ↦ rw (l, f, repair_previous) (rw (n, repair_permalink_url) refl)
      | inr (repo, p) ↦ rw (l, f, repair_previous) (rw (p, repair_permalink_url) refl)
    ]
  ]
]

write_document-Written :
    (doc : Document) (db db' : Db) → write_document doc db ≡ some db' → Written doc db db'
unfolding write_document raw
write_document-Written doc db db' h =
    let (mid, e, h1) = >>=-eq-some (put_document doc db) _ h in
    subst (Written doc db) (some_inj h1) (
      ap (find_doc doc.id) (repair_previous-documents (raw db doc.id) doc mid)
      ∙ put_document-Written doc db mid e)

-- Writing one record, if it succeeds, stores its title, text, author, time of update, parent and
-- metadata under its id, with the next number of the change log; a record that was stored under the id
-- keeps its other columns. It keeps the alias table one of groups with one thread of a host in each,
-- and leaves every record that was stored stored. The database may be empty.
pub upsert_document-IsConsistent :
    (valid_date : String → Bool) (doc : Document) (db db' : Db)
    → IsConsistent db
    → upsert_document valid_date doc db ≡ some db'
    → IsConsistent db'
      × ((raw db' doc.id
            ≡ some (record (unwrap_or (raw db doc.id) doc) {
              title = doc.title;
              body = doc.body;
              author = doc.author;
              author_id = doc.author_id;
              updated_at = doc.updated_at;
              parent_id = doc.parent_id;
              metadata = doc.metadata;
              seq = some db.next_seq;
            }))
          × All (λ (r : Row). IsStored db' r.doc.id) db.documents)
unfolding upsert_document
upsert_document-IsConsistent valid_date doc db db' c h =
    let (mid, e, h1) = >>=-eq-some (write_document doc db) _ h in
    let g = grown (write_document doc db) (write_document-Grows doc db) e in
    let own = write_document-IsStored doc db mid e in
    let s =
      consistent-reconcile valid_date mid db' (doc ∷ []) (IsConsistent-grown g c) (own, tt) h1 in
    (
      record { grouped = s.grouped; one_host = s.one_host },
      (
        IsSound-raw s doc.id ∙ write_document-Written doc db mid e,
        rows-IsStored db db' (λ id i. IsSound-IsStored s id (g.stored id i)),
      ),
    )
