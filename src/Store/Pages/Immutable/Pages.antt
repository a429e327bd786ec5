-- ===== src/Store/Pages/Immutable/Pages.antt =====
-- A whole page leaves the commits that are stored untouched (bkb-store/src/sqlite.rs: commit_page).
use bitcoin_knowledge_base.Base.{
  String, ◌≡◌, refl, sym, ◌∙◌, subst, inl, inr, Bool, true, false, not, ◌&&◌, some, List, [], ◌∷◌,
  append-nil, arith, ◌==◌, eq_iff, Bool-cases, is_some, >>=-eq-some, some_inj, all, filter,
}
use bitcoin_knowledge_base.Model.Document.{Document, Reference, SyncState}
use bitcoin_knowledge_base.Store.Tables.{has_slug, Db, Mention}
use bitcoin_knowledge_base.Store.Writes.{
  write_references, upsert_concept_mention, upsert_mentions, write_sync_state,
}
use bitcoin_knowledge_base.Store.Pages.{
  retained, listed, replace_document, write_page, fresh_refs, fresh_mentions, commit_page,
}
use bitcoin_knowledge_base.Store.Grown.{IsConsistent, IsGrown-refl, IsConsistent-grown}
use bitcoin_knowledge_base.Store.Grown.Writes.{
  IsGrown-trans, write_references-Grows, upsert_mentions-Grows,
}
use bitcoin_knowledge_base.Store.Pages.Keeps.{
  retained-IsStored, write_page-IsGrown, consistent-reconcile, grown, All-map,
}
use bitcoin_knowledge_base.Store.Pages.Immutable.{
  tags, Untouched, Untouched-trans, same-Untouched, filter-append, tags-filter,
  replace_document-Untouched, write_references-Untouched,
}
use bitcoin_knowledge_base.Reconcile.Lookup.{raw}
use bitcoin_knowledge_base.Reconcile.Observe.{reconcile}

other_mention :
    (id : String) (m k : Mention)
    → (m.doc_id == id) ≡ false
    → (k.doc_id == id) ≡ true
    → not ((m.doc_id == k.doc_id) && (m.concept_slug == k.concept_slug)) ≡ true
other_mention id m k other t =
    ground (arith, eq_iff m.doc_id id, eq_iff k.doc_id id, eq_iff m.doc_id k.doc_id)

-- What is not listed is another id.
unlisted :
    (id k : String) (kept : List String)
    → listed id kept ≡ true
    → listed k kept ≡ false
    → (k == id) ≡ false
unlisted id k kept l f = elim (Bool-cases (k == id)) [
  | inl t ↦ cc (l, f, (eq_iff k id).0 t)
  | inr n ↦ n
]

upsert_concept_mention-Untouched :
    (id : String) (m : Mention) (db db' : Db)
    → (m.doc_id == id) ≡ false
    → upsert_concept_mention m db ≡ some db'
    → Untouched id db db'
unfolding upsert_concept_mention raw
upsert_concept_mention-Untouched id m db db' other h =
    elim (Bool-cases (is_some (raw db m.doc_id) && has_slug m.concept_slug db.concepts)) [
      | inl t ↦ subst (Untouched id db) (some_inj (rw (t, upsert_concept_mention) at h)) (
        refl,
        filter-append (λ x. x.doc_id == id)
              (filter (λ k. not (m.doc_id == k.doc_id && m.concept_slug == k.concept_slug))
                db.mentions)
              (m ∷ [])
            ∙ rw other (
                append-nil (
                  tags id (
                    filter (λ k. not (m.doc_id == k.doc_id && m.concept_slug == k.concept_slug))
                      db.mentions))
                ∙ tags-filter id _ db.mentions (λ k t. other_mention id m k other t)),
      )
      | inr f ↦ cc (rw (f, upsert_concept_mention) at h)
    ]

upsert_mentions-Untouched :
    (id : String) (kept : List String) (ms : List Mention) (db db' : Db)
    → listed id kept ≡ true
    → upsert_mentions (fresh_mentions kept ms) db ≡ some db'
    → Untouched id db db'
unfolding upsert_mentions fresh_mentions
upsert_mentions-Untouched id kept [] db db' l h = subst (Untouched id db) (some_inj h) (refl, refl)
upsert_mentions-Untouched id kept (m ∷ ms) db db' l h = elim (Bool-cases (listed m.doc_id kept)) [
  | inl t ↦ upsert_mentions-Untouched id kept ms db db' l (rw (t, fresh_mentions) at h)
  | inr f ↦
      let (mid, e, h1) =
        >>=-eq-some (upsert_concept_mention m db) _ (rw (f, fresh_mentions) at h) in
      Untouched-trans id db mid db'
        (upsert_concept_mention-Untouched id m db mid (unlisted id m.doc_id kept l f) e)
        (upsert_mentions-Untouched id kept ms mid db' l h1)
]

write_page-Untouched :
    (id : String) (kept : List String) (start : Db) (docs : List Document) (db : Db)
    (res : Db × List Document)
    → listed id kept ≡ true
    → write_page kept start docs db ≡ some res
    → Untouched id db res.0
unfolding write_page
write_page-Untouched id kept start [] db res l h = rw (sym (some_inj h)) (refl, refl)
write_page-Untouched id kept start (doc ∷ docs) db res l h =
    elim (Bool-cases (listed doc.id kept)) [
      | inl t ↦
          let (rest, e, h1) =
            >>=-eq-some (write_page kept start docs db) _ (rw (t, write_page) at h) in
          rw (sym (some_inj h1)) (write_page-Untouched id kept start docs db rest l e)
      | inr f ↦
          let (mid, e, h1) = >>=-eq-some (replace_document doc db) _ (rw (f, write_page) at h) in
          let (rest, e', h2) = >>=-eq-some (write_page kept start docs mid) _ h1 in
          rw (sym (some_inj h2)) (
            Untouched-trans id db mid rest.0
              (replace_document-Untouched id doc db mid (unlisted id doc.id kept l f) e)
              (write_page-Untouched id kept start docs mid rest l e'))
    ]

-- A commit of the page that is stored already keeps its record and its tags when the page commits,
-- where the alias table describes groups with one thread of a host in each.
pub commit_page-retained :
    (valid_date : String → Bool) (docs : List Document) (refs : List Reference)
    (mentions : List Mention) (state : SyncState) (db db' : Db) (id : String)
    → IsConsistent db
    → listed id (retained db docs) ≡ true
    → commit_page valid_date docs refs mentions state db ≡ some db'
    → (raw db' id ≡ raw db id) × (tags id db'.mentions ≡ tags id db.mentions)
unfolding commit_page write_sync_state
commit_page-retained valid_date docs refs mentions state db db' id c l h =
    let kept = retained db docs in
    let (res, e0, h0) = >>=-eq-some (write_page kept db docs db) _ h in
    let (db1, e1, h1) = >>=-eq-some (write_references (fresh_refs kept refs) res.0) _ h0 in
    let (db2, e2, h2) = >>=-eq-some (upsert_mentions (fresh_mentions kept mentions) db1) _ h1 in
    let (db3, e3, h3) = >>=-eq-some (reconcile valid_date db2 res.1) _ h2 in
    let (g0, all) =
      write_page-IsGrown kept db docs db res (retained-IsStored db docs) (IsGrown-refl db) e0 in
    let g1 =
      grown (write_references (fresh_refs kept refs) res.0) (write_references-Grows _ res.0) e1 in
    let g2 =
      grown (upsert_mentions (fresh_mentions kept mentions) db1) (upsert_mentions-Grows _ db1) e2 in
    let g = IsGrown-trans g1 g2 in
    let s =
      consistent-reconcile valid_date db2 db3 res.1 (IsConsistent-grown (IsGrown-trans g0 g) c)
        (All-map (λ d. g.stored d.id) res.1 all) e3 in
    let u0 = write_page-Untouched id kept db docs db res l e0 in
    let u1 = write_references-Untouched id (fresh_refs kept refs) res.0 db1 e1 in
    let u2 = upsert_mentions-Untouched id kept mentions db1 db2 l e2 in
    let u3 = same-Untouched id db2 db3 s.documents s.mentions in
    let u4 : Untouched id db3 db' =
      subst (Untouched id db3) (some_inj h3) (same-Untouched id db3 _ refl refl) in
    Untouched-trans id db res.0 db' u0 (
      Untouched-trans id res.0 db1 db' u1
        (Untouched-trans id db1 db2 db' u2 (Untouched-trans id db2 db3 db' u3 u4)))
