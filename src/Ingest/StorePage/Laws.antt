-- ===== src/Ingest/StorePage/Laws.antt =====
-- The cursor that a stored page leaves (bkb-ingest/src/queue.rs: store_page).
use bitcoin_knowledge_base.Base.{
  ℕ, String, ◌≡◌, sym, ap, subst, inl, inr, Bool, Option, some, List, map, ◌==◌, Bool-cases,
  >>=-eq-some, some_inj,
}
use mathlib.Core.Option
use bitcoin_knowledge_base.Model.Document.{Document, Reference, SyncState}
use bitcoin_knowledge_base.Store.Tables.{Db, Mention}
use bitcoin_knowledge_base.Store.Writes.{
  write_references, upsert_mentions, write_sync_state, get_sync_state,
}
use bitcoin_knowledge_base.Store.Pages.{
  retained, write_page, fresh_refs, fresh_mentions, commit_page, reconcile_page, add_evidence,
}
use bitcoin_knowledge_base.Store.Pages.Keeps.{get_sync_state-upsert}
use bitcoin_knowledge_base.Reconcile.Observe.{reconcile}
use bitcoin_knowledge_base.Ingest.StorePage.{
  SyncPage, page_cursor, page_state, adapter_refs, page_refs, page_mentions, store_page,
}

-- The cursor in the row of a source.
abbrev pub HasCursor : String → Option String → Db → Type 0
HasCursor id cursor db =
    Option.map (λ t. t.last_cursor) (get_sync_state id db.sync_states) ≡ some cursor

checkpointed :
    (state : SyncState) (db : Db)
    → HasCursor state.source_id state.last_cursor (write_sync_state state db)
unfolding write_sync_state
checkpointed state db = get_sync_state-upsert state db.sync_states

commit_page-HasCursor :
    (valid_date : String → Bool) (docs : List Document) (refs : List Reference)
    (mentions : List Mention) (state : SyncState) (db db' : Db)
    → commit_page valid_date docs refs mentions state db ≡ some db'
    → HasCursor state.source_id state.last_cursor db'
unfolding commit_page
commit_page-HasCursor valid_date docs refs mentions state db db' h =
    let kept = retained db docs in
    let (res, e0, h0) = >>=-eq-some (write_page kept db docs db) _ h in
    let (db1, e1, h1) = >>=-eq-some (write_references (fresh_refs kept refs) res.0) _ h0 in
    let (db2, e2, h2) = >>=-eq-some (upsert_mentions (fresh_mentions kept mentions) db1) _ h1 in
    let (db3, e3, h3) = >>=-eq-some (reconcile valid_date db2 res.1) _ h2 in
    subst (HasCursor state.source_id state.last_cursor) (some_inj h3) (checkpointed state db3)

reconcile_page-HasCursor :
    (valid_date : String → Bool) (enrich : Document → List Reference × List Mention)
    (ids : List String) (state : SyncState) (db db' : Db)
    → reconcile_page valid_date enrich ids state db ≡ some db'
    → HasCursor state.source_id state.last_cursor db'
unfolding reconcile_page
reconcile_page-HasCursor valid_date enrich ids state db db' h =
    let (res, e0, h0) = >>=-eq-some (add_evidence valid_date enrich ids db) _ h in
    let (db1, e1, h1) = >>=-eq-some (reconcile valid_date res.0 res.1) _ h0 in
    subst (HasCursor state.source_id state.last_cursor) (some_inj h1) (checkpointed state db1)

ends :
    (id : String) {c cursor : Option String} {mid db' : Db}
    → ◌≡◌ {A = Db × Option String} (mid, c) (db', cursor)
    → HasCursor id c mid
    → (cursor ≡ c) × HasCursor id cursor db'
ends id is k = (sym (ap (λ p. p.1) is), subst (λ p. HasCursor id p.1 p.0) is k)

-- Of whichever kind a source is, the cursor that storing its page returns is the one that it
-- stores.
pub store_page-HasCursor :
    (enrich : Document → List Reference × List Mention) (valid_date : String → Bool) (id : String)
    (previous : Option String) (page : SyncPage) (now : ℕ) (db db' : Db) (cursor : Option String)
    → store_page enrich valid_date id previous page now db ≡ some (db', cursor)
    → (cursor ≡ page_cursor page previous) × HasCursor id cursor db'
unfolding store_page page_state
store_page-HasCursor enrich valid_date id previous page now db db' cursor h =
    elim (Bool-cases (id == "reconcile:v1")) [
      | inl t ↦
          let (mid, e, h1) =
            >>=-eq-some
              (reconcile_page valid_date enrich (map (λ d. d.id) page.documents)
                (page_state id page previous now) db)
              _ (rw (t, store_page) at h) in
          let is = some_inj h1 in
          ends id is (reconcile_page-HasCursor valid_date enrich _ _ db mid e)
      | inr f ↦
          let (mid, e, h1) =
            >>=-eq-some
              (commit_page valid_date page.documents
                (page_refs enrich (adapter_refs page.references) page.documents)
                (page_mentions enrich page.documents) (page_state id page previous now) db)
              _ (rw (f, store_page) at h) in
          let is = some_inj h1 in ends id is (commit_page-HasCursor valid_date _ _ _ _ db mid e)
    ]
