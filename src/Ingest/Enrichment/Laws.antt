-- ===== src/Ingest/Enrichment/Laws.antt =====
-- Enriching a stored record does not fail (bkb-ingest/src/enrichment.rs, bkb-store/src/sqlite.rs:
-- seed_concepts, replace_enrichment).
use bitcoin_knowledge_base.Base.{
  All-of_In, ℕ, String, ◌≡◌, refl, sym, ap, ◌∙◌, subst, inl, inr, Bool, true, ◌||◌, some, List, [],
  ◌∷◌, ◌++◌, arith, ◌==◌, eq_refl, Bool-cases, Option-cases, any, All, In, In-append_left,
}
use bitcoin_knowledge_base.Model.Document.{Document, Reference}
use bitcoin_knowledge_base.Model.Concepts.{ConceptDef}
use bitcoin_knowledge_base.Model.Concepts.Network.{vocabulary}
use bitcoin_knowledge_base.Store.Tables.{Db, Mention, has_slug}
use bitcoin_knowledge_base.Store.Writes.{
  put_reference, write_reference, write_references, upsert_concept_mention, upsert_mentions,
  delete_refs_from, delete_concept_mentions,
}
use bitcoin_knowledge_base.Store.Pages.{replace_enrichment, parent_refs, tagged}
use bitcoin_knowledge_base.Store.Valid.{IsValid}
use bitcoin_knowledge_base.Store.Pages.Keeps.{All-map}
use bitcoin_knowledge_base.Store.Valid.Pages.{IsValid-sound}
use bitcoin_knowledge_base.Store.Valid.Evidence.{
  IsValid-written, IsWritten-trans, write_references-IsWritten, upsert_mentions-IsWritten,
  deleted-IsWritten,
}
use bitcoin_knowledge_base.Reconcile.Lookup.{raw}
use bitcoin_knowledge_base.Reconcile.Observe.{reconcile}
use bitcoin_knowledge_base.Reconcile.Bind.Merge.{IsStored, IsStored-of_raw}
use bitcoin_knowledge_base.Reconcile.Sound.{senders}
use bitcoin_knowledge_base.Reconcile.Run.{reconcile-IsSound}
use bitcoin_knowledge_base.Ingest.Enrichment.{
  has_slug, seed, seed_concepts, tags_among, tag_concepts, searched_text, enrich_document,
  mentions_of,
}

has_slug-append :
    (x : String) (c : ConceptDef) (rows : List ConceptDef)
    → has_slug x (rows ++ c ∷ []) ≡ (has_slug x rows || c.slug == x)
has_slug-append x c [] = ground arith
has_slug-append x c (r ∷ rs) = ground (arith, has_slug-append x c rs)

-- Seeding keeps the slugs that are there.
seed_kept :
    (x : String) (cs rows : List ConceptDef)
    → has_slug x rows ≡ true
    → has_slug x (seed cs rows) ≡ true
unfolding seed
seed_kept x [] rows h = h
seed_kept x (c ∷ cs) rows h = elim (Bool-cases (has_slug c.slug rows)) [
  | inl t ↦ rw t (seed_kept x cs rows h)
  | inr f ↦ rw f (seed_kept x cs (rows ++ c ∷ []) (has_slug-append x c rows ∙ rw h refl))
]

-- And the rows as they are.
In-seed : (r : ConceptDef) (cs rows : List ConceptDef) → In r rows → In r (seed cs rows)
unfolding seed
In-seed r [] rows i = i
In-seed r (c ∷ cs) rows i = elim (Bool-cases (has_slug c.slug rows)) [
  | inl t ↦ rw t (In-seed r cs rows i)
  | inr f ↦ rw f (In-seed r cs (rows ++ c ∷ []) (In-append_left r rows (c ∷ []) i))
]

-- After seeding, every slug of the vocabulary is there.
seed_complete : (cs rows : List ConceptDef) → All (λ c. has_slug c.slug (seed cs rows) ≡ true) cs
unfolding seed
seed_complete [] rows = tt
seed_complete (c ∷ cs) rows = elim (Bool-cases (has_slug c.slug rows)) [
  | inl t ↦
      subst (λ k. All (λ d. has_slug d.slug k ≡ true) (c ∷ cs)) (rw t refl)
        (seed_kept c.slug cs rows t, seed_complete cs rows)
  | inr f ↦
      let put = has_slug-append c.slug c rows ∙ rw f (eq_refl c.slug) in
      subst (λ k. All (λ d. has_slug d.slug k ≡ true) (c ∷ cs)) (rw f refl)
        (seed_kept c.slug cs (rows ++ c ∷ []) put, seed_complete cs (rows ++ c ∷ []))
]

-- A vocabulary that is there is not put in again.
seed_idem :
    (cs rows : List ConceptDef) → All (λ c. has_slug c.slug rows ≡ true) cs → seed cs rows ≡ rows
unfolding seed
seed_idem [] rows h = refl
seed_idem (c ∷ cs) rows (h, hs) = rw h (seed_idem cs rows hs)

-- Seeding any database, one without concepts too, puts the whole vocabulary in, keeps every row of the
-- table as it is, and changes nothing the second time.
pub seed_concepts_idem :
    (db : Db)
    → (seed_concepts (seed_concepts db) ≡ seed_concepts db)
      × (All (λ c. has_slug c.slug (seed_concepts db).concepts ≡ true) vocabulary
          × All (λ r. In r (seed_concepts db).concepts) db.concepts)
unfolding seed_concepts
seed_concepts_idem db =
    let all_there = seed_complete vocabulary db.concepts in
    (
      ap (λ k. record db { concepts = k })
          (seed_idem vocabulary (seed vocabulary db.concepts) all_there),
      (
        all_there,
        All-of_In (λ r. In r (seed vocabulary db.concepts)) db.concepts
            (λ r i. In-seed r vocabulary db.concepts i),
      ),
    )

tags_among-has :
    (is_match : String → String → Bool) (cs : List ConceptDef) (body : String)
    (slugs : List ConceptDef)
    → All (λ c. has_slug c.slug slugs ≡ true) cs
    → All (λ t. has_slug t.0 slugs ≡ true) (tags_among is_match cs body)
unfolding tags_among
tags_among-has is_match [] body slugs h = tt
tags_among-has is_match (c ∷ cs) body slugs (h, hs) =
    elim (Bool-cases (any (λ alias. is_match alias body) c.aliases)) [
      | inl t ↦ rw t (h, tags_among-has is_match cs body slugs hs)
      | inr f ↦ rw f (tags_among-has is_match cs body slugs hs)
    ]

write_references-some :
    (rs : List Reference) (db : Db)
    → All (IsStored db) (senders rs)
    → (db' : Db) × (write_references rs db ≡ some db')
      × ((db'.documents ≡ db.documents) × (db'.concepts ≡ db.concepts))
unfolding write_references write_reference put_reference raw
write_references-some [] db h = (db, refl, (refl, refl))
write_references-some (r ∷ rs) db (h, hs) = rw h (write_references-some rs _ hs)

upsert_mentions-some :
    (ms : List Mention) (db : Db)
    → All (λ m. IsStored db m.doc_id × (has_slug m.concept_slug db.concepts ≡ true)) ms
    → (db' : Db) × (upsert_mentions ms db ≡ some db') × (db'.documents ≡ db.documents)
unfolding upsert_mentions upsert_concept_mention raw
upsert_mentions-some [] db h = (db, refl, refl)
upsert_mentions-some (m ∷ ms) db ((s, c), hs) = rw s (rw c (upsert_mentions-some ms _ hs))

-- The tags of an enrichment, as the rows that are written for a record.
abbrev rows_of : String → List (String × ℕ) → List Mention
rows_of id ts = tagged id (mentions_of id ts)

tagged-fit :
    (id : String) (ts : List (String × ℕ)) (db db' : Db)
    → IsStored db' id
    → db'.concepts ≡ db.concepts
    → All (λ t. has_slug t.0 db.concepts ≡ true) ts
    → All
        (λ m. IsStored db' m.doc_id × (has_slug m.concept_slug db'.concepts ≡ true))
        (rows_of id ts)
unfolding tagged mentions_of
tagged-fit id [] db db' s e h = tt
tagged-fit id (t ∷ ts) db db' s e (h, hs) = ((s, rw e h), tagged-fit id ts db db' s e hs)

senders-parent_refs :
    (doc : Document) (db : Db) → IsStored db doc.id → All (IsStored db) (senders (parent_refs doc))
unfolding parent_refs
senders-parent_refs doc db s = elim (Option-cases doc.parent_id) [
  | inl n ↦ rw n tt
  | inr (p, e) ↦ rw e (s, tt)
]

-- The statements of a replacement that all succeed.
replace_enrichment-steps :
    (valid_date : String → Bool) (id : String) (refs : List Reference) (ms : List Mention)
    (db db1 db2 db3 db4 : Db) (doc : Document)
    → raw db id ≡ some doc
    → write_references refs (delete_concept_mentions id (delete_refs_from id db)) ≡ some db1
    → write_references (parent_refs doc) db1 ≡ some db2
    → upsert_mentions (tagged id ms) db2 ≡ some db3
    → reconcile valid_date db3 (doc ∷ []) ≡ some db4
    → replace_enrichment valid_date id refs ms db ≡ some db4
unfolding replace_enrichment
replace_enrichment-steps valid_date id refs ms db db1 db2 db3 db4 doc r e1 e2 e3 e4 =
    rw (r, replace_enrichment) (rw e1 (rw e2 (rw e3 e4)))

-- What enriching a stored record finds can be written: on a valid database with the whole vocabulary,
-- replacing the record's evidence by it succeeds, and leaves a valid database. The references that
-- are found are taken to be from the record.
pub replace_enrichment-enrich :
    (is_match : String → String → Bool) (extract : Document → List Reference)
    (valid_date : String → Bool) (db : Db) (doc : Document)
    → IsValid db
    → All (λ c. has_slug c.slug db.concepts ≡ true) vocabulary
    → raw db doc.id ≡ some doc
    → All (λ k. k ≡ doc.id) (senders (extract doc))
    → (db' : Db) × (replace_enrichment valid_date doc.id
          (enrich_document is_match extract valid_date doc).0
          (mentions_of doc.id (enrich_document is_match extract valid_date doc).1)
          db
        ≡ some db')
      × IsValid db'
unfolding enrich_document raw delete_refs_from delete_concept_mentions
replace_enrichment-enrich is_match extract valid_date db doc v seeded r from =
    let stored : IsStored db doc.id = IsStored-of_raw db doc.id doc r in
    let ts = tag_concepts is_match (searched_text valid_date doc) in
    let db0 = delete_concept_mentions doc.id (delete_refs_from doc.id db) in
    let (db1, e1, (d1, c1)) =
      write_references-some (extract doc) db0
        (All-map (λ k e. subst (IsStored db) (sym e) stored) (senders (extract doc)) from) in
    let s1 : IsStored db1 doc.id = rw d1 stored in
    let (db2, e2, (d2, c2)) =
      write_references-some (parent_refs doc) db1 (senders-parent_refs doc db1 s1) in
    let s2 : IsStored db2 doc.id = rw d2 s1 in
    let tags =
      tags_among-has is_match vocabulary (searched_text valid_date doc) db.concepts seeded in
    let (db3, e3, d3) =
      upsert_mentions-some (rows_of doc.id ts) db2
        (tagged-fit doc.id ts db db2 s2 (c2 ∙ c1) tags) in
    let w =
      IsWritten-trans
        (IsWritten-trans (deleted-IsWritten doc.id db)
          (write_references-IsWritten (extract doc) db0 db1 e1))
        (IsWritten-trans (write_references-IsWritten (parent_refs doc) db1 db2 e2)
          (upsert_mentions-IsWritten (rows_of doc.id ts) db2 db3 e3)) in
    let v3 = IsValid-written w v in
    let s3 : IsStored db3 doc.id = rw d3 s2 in
    let (db4, e4, s4) =
      reconcile-IsSound valid_date db3 (doc ∷ []) (s3, tt) v3.consistent.grouped
        v3.consistent.one_host in
    (
      db4,
      replace_enrichment-steps valid_date doc.id (extract doc) (mentions_of doc.id ts) db db1 db2
          db3 db4 doc r e1 e2 e3 e4,
      IsValid-sound s4 v3,
    )
