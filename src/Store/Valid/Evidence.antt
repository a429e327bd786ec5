-- ===== src/Store/Valid/Evidence.antt =====
-- Replacing or adding the evidence of records keeps the invariant of the database
-- (bkb-store/src/sqlite.rs: replace_enrichment, reconcile_page).
use bitcoin_knowledge_base.Base.{
  String, ◌≡◌, refl, sym, ◌∙◌, subst, inl, inr, Bool, ◌&&◌, some, List, [], ◌∷◌, ◌++◌, Bool-cases,
  Option-cases, is_some, >>=-eq-some, some_inj, &&-eq-true, any, all, All,
}
use bitcoin_knowledge_base.Model.Document.{url, Document, Reference, SyncState}
use bitcoin_knowledge_base.Store.Tables.{has_slug, Db, Mention}
use bitcoin_knowledge_base.Store.Writes.{
  same_mention, write_references, upsert_mentions, delete_refs_from, delete_concept_mentions,
  put_reference,
}
use bitcoin_knowledge_base.Store.Pages.{
  same_reference, replace_enrichment, add_reference, add_references, add_mentions, add_evidence,
  reconcile_page, parent_refs, tagged,
}
use bitcoin_knowledge_base.Store.Pages.Keeps.{grown}
use bitcoin_knowledge_base.Store.Grown.{IsGrown, IsGrown-refl, IsConsistent-grown}
use bitcoin_knowledge_base.Store.Grown.Writes.{
  IsGrown-trans, same-IsGrown, write_references-Grows, upsert_mentions-Grows, put_reference-Grows,
}
use bitcoin_knowledge_base.Store.Valid.{IsReferred, IsValid, All-append}
use bitcoin_knowledge_base.Store.Valid.Writes.{
  deleted-IsReferred, put_reference-Refers, write_references-Refers, upsert_mentions-Refers,
}
use bitcoin_knowledge_base.Store.Valid.Pages.{
  IsValid-sound, whole, reconcile-IsValid, IsValid-states,
}
use bitcoin_knowledge_base.Reconcile.Lookup.{raw, raw-id}
use bitcoin_knowledge_base.Reconcile.Target.{
  reference_target, repair_permalink_refs, repair_permalink_url, permalink_repo, repair_all,
  externals,
}
use bitcoin_knowledge_base.Reconcile.Observe.{reconcile}
use bitcoin_knowledge_base.Reconcile.Run.{IsSound-refl, repair_permalink_refs-IsSound}
use bitcoin_knowledge_base.Reconcile.Bind.Merge.{IsStored, IsStored-of_raw}

-- A statement that succeeds writes no record's group and keeps references whole.
pub record IsWritten (db db' : Db) : Type 0 where
  pub grown : IsGrown db db'
  pub referred : IsReferred db → IsReferred db'

pub IsValid-written : {db db' : Db} → IsWritten db db' → IsValid db → IsValid db'
IsValid-written w v = record {
  consistent = IsConsistent-grown w.grown v.consistent;
  referred = w.referred v.referred;
}

pub IsWritten-trans : {db mid db' : Db} → IsWritten db mid → IsWritten mid db' → IsWritten db db'
IsWritten-trans v w = record {
  grown = IsGrown-trans v.grown w.grown;
  referred = λ h. w.referred (v.referred h);
}

pub write_references-IsWritten :
    (rs : List Reference) (db db' : Db) → write_references rs db ≡ some db' → IsWritten db db'
write_references-IsWritten rs db db' e = record {
  grown = grown (write_references rs db) (write_references-Grows rs db) e;
  referred = λ h. whole (write_references rs db) (write_references-Refers rs db h) e;
}

pub upsert_mentions-IsWritten :
    (ms : List Mention) (db db' : Db) → upsert_mentions ms db ≡ some db' → IsWritten db db'
upsert_mentions-IsWritten ms db db' e = record {
  grown = grown (upsert_mentions ms db) (upsert_mentions-Grows ms db) e;
  referred = λ h. whole (upsert_mentions ms db) (upsert_mentions-Refers ms db h) e;
}

pub deleted-IsWritten :
    (id : String) (db : Db) → IsWritten db (delete_concept_mentions id (delete_refs_from id db))
unfolding delete_concept_mentions delete_refs_from
deleted-IsWritten id db = record {
  grown = same-IsGrown db _ refl refl;
  referred = λ h. deleted-IsReferred id db h;
}

pub replace_enrichment-IsValid :
    (valid_date : String → Bool) (id : String) (refs : List Reference) (mentions : List Mention)
    (db db' : Db)
    → IsValid db
    → replace_enrichment valid_date id refs mentions db ≡ some db'
    → IsValid db'
unfolding replace_enrichment
replace_enrichment-IsValid valid_date id refs mentions db db' v h =
    elim (Option-cases (raw db id)) [
      | inl n ↦ let is = some_inj (rw (n, replace_enrichment) at h) in subst IsValid is v
      | inr (doc, r) ↦
          let (db1, e1, h1) =
            >>=-eq-some
              (write_references refs (delete_concept_mentions id (delete_refs_from id db))) _
              (rw (r, replace_enrichment) at h) in
          let (db2, e2, h2) = >>=-eq-some (write_references (parent_refs doc) db1) _ h1 in
          let (db3, e3, h3) = >>=-eq-some (upsert_mentions (tagged id mentions) db2) _ h2 in
          let w1 =
            IsWritten-trans (deleted-IsWritten id db) (write_references-IsWritten refs _ db1 e1) in
          let w2 =
            IsWritten-trans (write_references-IsWritten (parent_refs doc) db1 db2 e2)
              (upsert_mentions-IsWritten (tagged id mentions) db2 db3 e3) in
          let w = IsWritten-trans w1 w2 in
          let own : IsStored db3 doc.id =
            w.grown.stored doc.id (rw (raw-id db id doc r) (IsStored-of_raw db id doc r)) in
          reconcile-IsValid valid_date db3 db' (doc ∷ []) (IsValid-written w v) (own, tt) h3
    ]

add_reference-IsWritten :
    (r : Reference) (db db' : Db) → add_reference r db ≡ some db' → IsWritten db db'
unfolding add_reference
add_reference-IsWritten r db db' h =
    elim (Bool-cases (any (same_reference r (reference_target db r)) db.refs)) [
      | inl t ↦
          let is = some_inj (rw (t, add_reference) at h) in
          subst (IsWritten db) is (record { grown = IsGrown-refl db; referred = λ k. k })
      | inr f ↦
          let h1 : put_reference r (reference_target db r) db ≡ some db' =
            rw (f, add_reference) at h in
          record {
            grown =
                grown (put_reference r (reference_target db r) db)
                  (put_reference-Grows r (reference_target db r) db) h1;
            referred = λ k.
                whole (put_reference r (reference_target db r) db)
                  (put_reference-Refers r (reference_target db r) db k) h1;
          }
    ]

add_references-IsWritten :
    (rs : List Reference) (db db' : Db) → add_references rs db ≡ some db' → IsWritten db db'
unfolding add_references
add_references-IsWritten [] db db' h =
    subst (IsWritten db) (some_inj h) (record { grown = IsGrown-refl db; referred = λ k. k })
add_references-IsWritten (r ∷ rs) db db' h =
    let (mid, e, h1) = >>=-eq-some (add_reference r db) _ h in
    IsWritten-trans (add_reference-IsWritten r db mid e) (add_references-IsWritten rs mid db' h1)

added-IsWritten :
    (db : Db) (m : Mention)
    → IsStored db m.doc_id
    → IsWritten db (record db { mentions = db.mentions ++ m ∷ [] })
unfolding raw
added-IsWritten db m s = record {
  grown = same-IsGrown db _ refl refl;
  referred = λ h. record {
    keyed = h.keyed;
    refs = h.refs;
    mentions =
        All-append (λ (k : Mention). IsStored db k.doc_id) db.mentions (m ∷ []) h.mentions (s, tt);
  };
}

add_mentions-IsWritten :
    (ms : List Mention) (db db' : Db) → add_mentions ms db ≡ some db' → IsWritten db db'
unfolding add_mentions
add_mentions-IsWritten [] db db' h =
    subst (IsWritten db) (some_inj h) (record { grown = IsGrown-refl db; referred = λ k. k })
add_mentions-IsWritten (m ∷ ms) db db' h = elim (Bool-cases (any (same_mention m) db.mentions)) [
  | inl t ↦ add_mentions-IsWritten ms db db' (rw (t, add_mentions) at h)
  | inr f ↦ elim (Bool-cases (is_some (raw db m.doc_id) && has_slug m.concept_slug db.concepts)) [
    | inl t ↦
        IsWritten-trans (added-IsWritten db m (&&-eq-true _ _ t).0)
          (add_mentions-IsWritten ms _ db' (rw (f, t, add_mentions) at h))
    | inr n ↦ cc (rw (f, n, add_mentions) at h)
  ]
]

-- A database that keeps what is stored, and the invariant.
record IsLater (db db' : Db) : Type 0 where
  stored : (id : String) → IsStored db id → IsStored db' id
  valid : IsValid db → IsValid db'

IsLater-written : {db db' : Db} → IsWritten db db' → IsLater db db'
IsLater-written w = record { stored = w.grown.stored; valid = IsValid-written w }

IsLater-trans : {db mid db' : Db} → IsLater db mid → IsLater mid db' → IsLater db db'
IsLater-trans v w = record {
  stored = λ id s. w.stored id (v.stored id s);
  valid = λ h. w.valid (v.valid h);
}

documents-repair_url :
    (db : Db) (link : String) → (repair_permalink_url db link).documents ≡ db.documents
unfolding repair_permalink_url
documents-repair_url db link = elim (Option-cases (permalink_repo link)) [
  | inl n ↦ rw (n, repair_permalink_url) refl
  | inr (repo, p) ↦ rw (p, repair_permalink_url) refl
]

documents-repair_all :
    (db : Db) (links : List String) → (repair_all db links).documents ≡ db.documents
unfolding repair_all
documents-repair_all db [] = refl
documents-repair_all db (link ∷ links) =
    documents-repair_all (repair_permalink_url db link) links ∙ documents-repair_url db link

documents-repair_refs :
    (db : Db) (doc : Document) → (repair_permalink_refs db doc).documents ≡ db.documents
unfolding repair_permalink_refs
documents-repair_refs db doc = elim (Option-cases (url doc)) [
  | inl e ↦ rw (e, repair_permalink_refs) (documents-repair_all db (externals doc.id db.refs))
  | inr (link, e) ↦
      rw (e, repair_permalink_refs)
        (documents-repair_all db (externals doc.id db.refs ++ link ∷ []))
]

repair_permalink_refs-IsLater :
    (db : Db) (doc : Document) → IsLater db (repair_permalink_refs db doc)
unfolding raw
repair_permalink_refs-IsLater db doc = record {
  stored = λ id s. rw (documents-repair_refs db doc) s;
  valid = λ v.
      IsValid-sound
        (repair_permalink_refs-IsSound db db doc
          (IsSound-refl db v.consistent.grouped v.consistent.one_host))
        v;
}

-- The records of a page are stored when their evidence is written.
add_evidence-IsLater :
    (valid_date : String → Bool) (enrich : Document → List Reference × List Mention)
    (ids : List String) (db : Db) (res : Db × List Document)
    → add_evidence valid_date enrich ids db ≡ some res
    → IsLater db res.0 × All (λ d. IsStored res.0 d.id) res.1
unfolding add_evidence
add_evidence-IsLater valid_date enrich [] db res h =
    let is = some_inj h in rw (sym is) (record { stored = λ id s. s; valid = λ v. v }, tt)
add_evidence-IsLater valid_date enrich (id ∷ ids) db res h = elim (Option-cases (raw db id)) [
  | inl n ↦ add_evidence-IsLater valid_date enrich ids db res (rw (n, add_evidence) at h)
  | inr (doc, r) ↦
      let start = repair_permalink_refs db doc in
      let rs = (enrich doc).0 ++ parent_refs doc in
      let ms = tagged doc.id (enrich doc).1 in
      let (db1, e1, h1) = >>=-eq-some (add_references rs start) _ (rw (r, add_evidence) at h) in
      let (db2, e2, h2) = >>=-eq-some (add_mentions ms db1) _ h1 in
      let (rest, e3, h3) = >>=-eq-some (add_evidence valid_date enrich ids db2) _ h2 in
      let (later, all) = add_evidence-IsLater valid_date enrich ids db2 rest e3 in
      let w =
        IsWritten-trans (add_references-IsWritten rs start db1 e1)
          (add_mentions-IsWritten ms db1 db2 e2) in
      let l =
        IsLater-trans (repair_permalink_refs-IsLater db doc)
          (IsLater-trans (IsLater-written w) later) in
      let own : IsStored rest.0 doc.id =
        l.stored doc.id (rw (raw-id db id doc r) (IsStored-of_raw db id doc r)) in
      let is = some_inj h3 in rw (sym is) (l, (own, all))
]

pub reconcile_page-IsValid :
    (valid_date : String → Bool) (enrich : Document → List Reference × List Mention)
    (ids : List String) (state : SyncState) (db db' : Db)
    → IsValid db
    → reconcile_page valid_date enrich ids state db ≡ some db'
    → IsValid db'
unfolding reconcile_page
reconcile_page-IsValid valid_date enrich ids state db db' v h =
    let (res, e, h1) = >>=-eq-some (add_evidence valid_date enrich ids db) _ h in
    let (db2, e2, h2) = >>=-eq-some (reconcile valid_date res.0 res.1) _ h1 in
    let (later, all) = add_evidence-IsLater valid_date enrich ids db res e in
    subst IsValid (some_inj h2) (
      IsValid-states state db2
        (reconcile-IsValid valid_date res.0 db2 res.1 (later.valid v) all e2))
