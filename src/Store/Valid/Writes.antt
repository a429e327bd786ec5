-- ===== src/Store/Valid/Writes.antt =====
-- Every write of records, references and tags keeps ids unique and references whole
-- (bkb-store/src/sqlite.rs).
use bitcoin_knowledge_base.Base.{
  String, refl, inl, inr, ◌&&◌, Option, none, some, List, [], ◌∷◌, Bool-cases, Option-cases,
  option_eq, is_some, ◌>>=◌, &&-eq-true, any,
}
use bitcoin_knowledge_base.Model.Document.{Document, Reference, metadata_url, url}
use bitcoin_knowledge_base.Store.Tables.{has_slug, Db, Mention}
use bitcoin_knowledge_base.Store.Writes.{
  put_document, log_change, clashes, write_document, repair_previous, put_reference,
  write_reference, write_references, upsert_concept_mention, upsert_mentions, delete_refs_from,
  delete_concept_mentions,
}
use bitcoin_knowledge_base.Store.Grown.{update-IsGrown, append-IsGrown}
use bitcoin_knowledge_base.Store.Grown.Writes.{same-IsGrown}
use bitcoin_knowledge_base.Store.Valid.{
  IsReferred, IsReferred-grown, All-append, All-filter, All-senders-filter, senders-append,
  IsKeyedRows-update_rows, IsKeyedRows-append,
}
use bitcoin_knowledge_base.Reconcile.Lookup.{raw}
use bitcoin_knowledge_base.Reconcile.Target.{repair_permalink_url, permalink_repo, reference_target}
use bitcoin_knowledge_base.Reconcile.Bind.Merge.{IsStored}
use bitcoin_knowledge_base.Reconcile.Run.{retarget-senders}
use bitcoin_knowledge_base.Reconcile.Sound.{senders}

-- An operation that succeeds leaves ids unique and references whole.
abbrev pub Refers : Option Db → Type 0
Refers none = Unit
Refers (some db) = IsReferred db

pub Refers-bind :
    (m : Option Db) (f : Db → Option Db)
    → Refers m
    → ((db : Db) → IsReferred db → Refers (f db))
    → Refers (m >>= f)
Refers-bind none f h k = tt
Refers-bind (some db) f h k = k db h

put_document-Refers : (doc : Document) (db : Db) → IsReferred db → Refers (put_document doc db)
unfolding put_document log_change raw
put_document-Refers doc db h = elim (Option-cases (raw db doc.id)) [
  | inl n ↦ elim (Bool-cases (any (clashes doc) db.documents)) [
    | inl t ↦ rw (n, t, put_document) tt
    | inr f ↦
        rw (n, f, put_document)
          (IsReferred-grown db _ (append-IsGrown db _ _ refl refl)
            (IsKeyedRows-append db.documents _ h.keyed n) refl refl h)
  ]
  | inr (old, r) ↦
      rw (r, put_document)
        (IsReferred-grown db _ (update-IsGrown db _ doc refl refl)
          (IsKeyedRows-update_rows doc db.next_seq db.documents h.keyed) refl refl h)
]

repair_previous-IsReferred :
    (old : Option Document) (doc : Document) (db : Db)
    → IsReferred db
    → IsReferred (repair_previous old doc db)
unfolding repair_previous repair_permalink_url
repair_previous-IsReferred old doc db h = elim (Option-cases (old >>= metadata_url)) [
  | inl n ↦ rw (n, repair_previous) h
  | inr (link, l) ↦ elim (Bool-cases (option_eq (url doc) (some link))) [
    | inl t ↦ rw (l, t, repair_previous) h
    | inr f ↦
        rw (l, f, repair_previous)
          (elim (Option-cases (permalink_repo link)) [
            | inl n ↦ rw (n, repair_permalink_url) h
            | inr (repo, p) ↦
                rw (p, repair_permalink_url)
                  (IsReferred-grown db _ (same-IsGrown db _ refl refl) h.keyed
                    (retarget-senders _ _ db.refs) refl h)
          ])
  ]
]

pub write_document-Refers :
    (doc : Document) (db : Db) → IsReferred db → Refers (write_document doc db)
unfolding write_document
write_document-Refers doc db h =
    Refers-bind (put_document doc db) _ (put_document-Refers doc db h)
      (λ mid k. repair_previous-IsReferred (raw db doc.id) doc mid k)

pub deleted-IsReferred :
    (id : String) (db : Db)
    → IsReferred db
    → IsReferred (delete_concept_mentions id (delete_refs_from id db))
unfolding delete_concept_mentions delete_refs_from raw
deleted-IsReferred id db h = record {
  keyed = h.keyed;
  refs = All-senders-filter (IsStored db) _ db.refs h.refs;
  mentions = All-filter (λ (m : Mention). IsStored db m.doc_id) _ db.mentions h.mentions;
}

pub put_reference-Refers :
    (r : Reference) (target : Option String) (db : Db)
    → IsReferred db
    → Refers (put_reference r target db)
unfolding put_reference raw
put_reference-Refers r target db h = elim (Bool-cases (is_some (raw db r.from_doc_id))) [
  | inl t ↦
      rw (t, put_reference)
        (record {
          keyed = h.keyed;
          refs =
              rw (senders-append db.refs _)
                (All-append (IsStored db) (senders db.refs) _ h.refs (t, tt));
          mentions = h.mentions;
        })
  | inr f ↦ rw (f, put_reference) tt
]

pub write_references-Refers :
    (rs : List Reference) (db : Db) → IsReferred db → Refers (write_references rs db)
unfolding write_references write_reference
write_references-Refers [] db h = h
write_references-Refers (r ∷ rs) db h =
    Refers-bind (write_reference r db) _ (put_reference-Refers r (reference_target db r) db h)
      (λ mid k. write_references-Refers rs mid k)

pub upsert_concept_mention-Refers :
    (m : Mention) (db : Db) → IsReferred db → Refers (upsert_concept_mention m db)
unfolding upsert_concept_mention raw
upsert_concept_mention-Refers m db h =
    elim (Bool-cases (is_some (raw db m.doc_id) && has_slug m.concept_slug db.concepts)) [
      | inl t ↦
          rw (t, upsert_concept_mention)
            (record {
              keyed = h.keyed;
              refs = h.refs;
              mentions =
                  All-append (λ (k : Mention). IsStored db k.doc_id) _ (m ∷ [])
                    (All-filter (λ (k : Mention). IsStored db k.doc_id) _ db.mentions h.mentions)
                    ((&&-eq-true _ _ t).0, tt);
            })
      | inr f ↦ rw (f, upsert_concept_mention) tt
    ]

pub upsert_mentions-Refers :
    (ms : List Mention) (db : Db) → IsReferred db → Refers (upsert_mentions ms db)
unfolding upsert_mentions
upsert_mentions-Refers [] db h = h
upsert_mentions-Refers (m ∷ ms) db h =
    Refers-bind (upsert_concept_mention m db) _ (upsert_concept_mention-Refers m db h)
      (λ mid k. upsert_mentions-Refers ms mid k)
