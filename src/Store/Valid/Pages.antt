-- ===== src/Store/Valid/Pages.antt =====
-- The transactions keep the invariant of the database (bkb-store/src/sqlite.rs: upsert_document,
-- commit_page, replace_enrichment, reconcile_page).
use bitcoin_knowledge_base.Base.{
  String, ◌≡◌, refl, sym, subst, inl, inr, Bool, Option, some, List, [], ◌∷◌, Bool-cases,
  >>=-eq-some, some_inj, all, All,
}
use bitcoin_knowledge_base.Model.Document.{Document, Reference, SyncState}
use bitcoin_knowledge_base.Store.Tables.{Db, Mention}
use bitcoin_knowledge_base.Store.Writes.{
  write_document, write_references, upsert_mentions, write_sync_state,
}
use bitcoin_knowledge_base.Store.Pages.{
  retained, listed, replace_document, write_page, fresh_refs, fresh_mentions, commit_page,
  upsert_document,
}
use bitcoin_knowledge_base.Store.Pages.Keeps.{
  grown, retained-IsStored, write_page-IsGrown, consistent-reconcile, IsSound-IsStored, All-map,
}
use bitcoin_knowledge_base.Store.Grown.{IsGrown-refl, IsConsistent-grown}
use bitcoin_knowledge_base.Store.Grown.Writes.{
  IsGrown-trans, same-IsGrown, write_document-Grows, write_document-IsStored,
  write_references-Grows, upsert_mentions-Grows,
}
use bitcoin_knowledge_base.Store.Valid.{IsReferred, IsValid}
use bitcoin_knowledge_base.Store.Valid.Writes.{
  Refers, Refers-bind, write_document-Refers, deleted-IsReferred, write_references-Refers,
  upsert_mentions-Refers,
}
use bitcoin_knowledge_base.Reconcile.Lookup.{raw}
use bitcoin_knowledge_base.Reconcile.Observe.{reconcile}
use bitcoin_knowledge_base.Reconcile.Bind.Merge.{IsStored}
use bitcoin_knowledge_base.Reconcile.Sound.{IsSound}

pub whole : {db' : Db} (m : Option Db) → Refers m → m ≡ some db' → IsReferred db'
whole {db'} m r e = rw e at r

-- The statement in a transaction that changes neither groups nor what rows refer to.
IsReferred-sound : {old db : Db} → IsSound old db → IsReferred old → IsReferred db
unfolding raw
IsReferred-sound {old} {db} s h = record {
  keyed = rw s.documents h.keyed;
  refs = rw s.senders (All-map (IsSound-IsStored s) _ h.refs);
  mentions = rw s.mentions (All-map (λ m. IsSound-IsStored s m.doc_id) old.mentions h.mentions);
}

-- The sync states do not matter.
pub IsValid-states :
    (state : SyncState) (db : Db) → IsValid db → IsValid (write_sync_state state db)
unfolding write_sync_state raw
IsValid-states state db v = record {
  consistent = IsConsistent-grown (same-IsGrown db _ refl refl) v.consistent;
  referred = record {
    keyed = v.referred.keyed;
    refs = v.referred.refs;
    mentions = v.referred.mentions;
  };
}

pub IsValid-sound : {old db : Db} → IsSound old db → IsValid old → IsValid db
IsValid-sound s v = record {
  consistent = record { grouped = s.grouped; one_host = s.one_host };
  referred = IsReferred-sound s v.referred;
}

pub reconcile-IsValid :
    (valid_date : String → Bool) (db db' : Db) (docs : List Document)
    → IsValid db
    → All (λ d. IsStored db d.id) docs
    → reconcile valid_date db docs ≡ some db'
    → IsValid db'
reconcile-IsValid valid_date db db' docs v all h =
    IsValid-sound (consistent-reconcile valid_date db db' docs v.consistent all h) v

pub upsert_document-IsValid :
    (valid_date : String → Bool) (doc : Document) (db db' : Db)
    → IsValid db
    → upsert_document valid_date doc db ≡ some db'
    → IsValid db'
unfolding upsert_document
upsert_document-IsValid valid_date doc db db' v h =
    let (mid, e, h1) = >>=-eq-some (write_document doc db) _ h in
    let g = grown (write_document doc db) (write_document-Grows doc db) e in
    let middle : IsValid mid = record {
      consistent = IsConsistent-grown g v.consistent;
      referred = whole (write_document doc db) (write_document-Refers doc db v.referred) e;
    } in
    reconcile-IsValid valid_date mid db' (doc ∷ []) middle
      (write_document-IsStored doc db mid e, tt) h1

replace_document-Refers :
    (doc : Document) (db : Db) → IsReferred db → Refers (replace_document doc db)
unfolding replace_document
replace_document-Refers doc db h =
    Refers-bind (write_document doc db) _ (write_document-Refers doc db h)
      (λ mid k. deleted-IsReferred doc.id mid k)

write_page-IsReferred :
    (kept : List String) (start : Db) (docs : List Document) (db : Db) (res : Db × List Document)
    → IsReferred db
    → write_page kept start docs db ≡ some res
    → IsReferred res.0
unfolding write_page
write_page-IsReferred kept start [] db res v h = let is = some_inj h in rw (sym is) v
write_page-IsReferred kept start (doc ∷ docs) db res v h = elim (Bool-cases (listed doc.id kept)) [
  | inl t ↦
      let (rest, e', h2) =
        >>=-eq-some (write_page kept start docs db) _ (rw (t, write_page) at h) in
      let is = some_inj h2 in rw (sym is) (write_page-IsReferred kept start docs db rest v e')
  | inr f ↦
      let (mid, e, h1) = >>=-eq-some (replace_document doc db) _ (rw (f, write_page) at h) in
      let (rest, e', h2) = >>=-eq-some (write_page kept start docs mid) _ h1 in
      let w = whole (replace_document doc db) (replace_document-Refers doc db v) e in
      let is = some_inj h2 in rw (sym is) (write_page-IsReferred kept start docs mid rest w e')
]

pub commit_page-IsValid :
    (valid_date : String → Bool) (docs : List Document) (refs : List Reference)
    (mentions : List Mention) (state : SyncState) (db db' : Db)
    → IsValid db
    → commit_page valid_date docs refs mentions state db ≡ some db'
    → IsValid db'
unfolding commit_page
commit_page-IsValid valid_date docs refs mentions state db db' v h =
    let kept = retained db docs in
    let (res, e0, h0) = >>=-eq-some (write_page kept db docs db) _ h in
    let (db1, e1, h1) = >>=-eq-some (write_references (fresh_refs kept refs) res.0) _ h0 in
    let (db2, e2, h2) = >>=-eq-some (upsert_mentions (fresh_mentions kept mentions) db1) _ h1 in
    let (db3, e3, h3) = >>=-eq-some (reconcile valid_date db2 res.1) _ h2 in
    let (g0, all) =
      write_page-IsGrown kept db docs db res (retained-IsStored db docs) (IsGrown-refl db) e0 in
    let g1 =
      grown (write_references (fresh_refs kept refs) res.0) (write_references-Grows _ res.0) e1 in
    let g2 =
      grown (upsert_mentions (fresh_mentions kept mentions) db1) (upsert_mentions-Grows _ db1) e2 in
    let g = IsGrown-trans g1 g2 in
    let r0 = write_page-IsReferred kept db docs db res v.referred e0 in
    let r1 =
      whole (write_references (fresh_refs kept refs) res.0) (write_references-Refers _ res.0 r0)
        e1 in
    let r2 =
      whole (upsert_mentions (fresh_mentions kept mentions) db1) (upsert_mentions-Refers _ db1 r1)
        e2 in
    let middle : IsValid db2 = record {
      consistent = IsConsistent-grown (IsGrown-trans g0 g) v.consistent;
      referred = r2;
    } in
    subst IsValid (some_inj h3) (
      IsValid-states state db3 (
        reconcile-IsValid valid_date db2 db3 res.1 middle (All-map (λ d. g.stored d.id) res.1 all)
          e3))
