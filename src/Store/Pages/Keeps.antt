-- ===== src/Store/Pages/Keeps.antt =====
-- A page that commits leaves groups, and its checkpoint (bkb-store/src/sqlite.rs: commit_page).
use bitcoin_knowledge_base.Base.{
  String, ◌≡◌, refl, sym, ◌∙◌, subst, inl, inr, Bool, true, ◌&&◌, Option, some, List, [], ◌∷◌, ◌==◌,
  eq_iff, eq_refl, Bool-cases, Option-cases, is_some, unwrap_or, >>=-eq-some, some_inj, &&-eq-true,
  ||-eq-true, all, All,
}
use mathlib.Core.Option
use bitcoin_knowledge_base.Model.SourceType
use bitcoin_knowledge_base.Model.SourceType.{SourceType}
use bitcoin_knowledge_base.Model.Document.{Document, Reference, SyncState}
use bitcoin_knowledge_base.Store.Tables.{Db, Row, Mention, find_doc}
use bitcoin_knowledge_base.Store.Writes.{
  write_document, write_references, upsert_mentions, delete_refs_from, delete_concept_mentions,
  write_sync_state, upsert_sync_state, get_sync_state,
}
use bitcoin_knowledge_base.Store.Pages.{
  retained, listed, replace_document, write_page, fresh_refs, fresh_mentions, commit_page,
}
use bitcoin_knowledge_base.Store.Grown.{IsConsistent, IsGrown, IsGrown-refl, IsConsistent-grown}
use bitcoin_knowledge_base.Store.Grown.Writes.{
  Grows, IsGrown-trans, same-IsGrown, write_document-Grows, write_document-IsStored,
  write_references-Grows, upsert_mentions-Grows,
}
use bitcoin_knowledge_base.Reconcile.Lookup.{raw, raw-id}
use bitcoin_knowledge_base.Reconcile.Bind.Merge.{IsStored}
use bitcoin_knowledge_base.Reconcile.Observe.{reconcile}
use bitcoin_knowledge_base.Reconcile.Sound.{IsSound}
use bitcoin_knowledge_base.Reconcile.Run.{reconcile-IsSound}

pub grown : {db db' : Db} (m : Option Db) → Grows db m → m ≡ some db' → IsGrown db db'
grown {db} m g e = rw e at g

pub retained-IsStored :
    (db : Db) (docs : List Document) (id : String)
    → listed id (retained db docs) ≡ true
    → IsStored db id
unfolding retained
retained-IsStored db [] id h = cc h
retained-IsStored db (doc ∷ docs) id h =
    elim (Bool-cases ((SourceType.as_str doc.source_type == "commit") && is_some (raw db doc.id))) [
      | inl t ↦ elim (||-eq-true (doc.id == id) _ (rw (t, retained) at h)) [
        | inl same ↦ subst (IsStored db) ((eq_iff doc.id id).0 same) (&&-eq-true _ _ t).1
        | inr rest ↦ retained-IsStored db docs id rest
      ]
      | inr f ↦ retained-IsStored db docs id (rw (f, retained) at h)
    ]

pub replace_document-IsGrown :
    (doc : Document) (db db' : Db)
    → replace_document doc db ≡ some db'
    → IsGrown db db' × IsStored db' doc.id
unfolding replace_document delete_refs_from delete_concept_mentions
replace_document-IsGrown doc db db' h =
    let (mid, e, h1) = >>=-eq-some (write_document doc db) _ h in
    let is = some_inj h1 in
    let cleared : IsGrown mid db' = subst (IsGrown mid) is (same-IsGrown mid _ refl refl) in
    (
      IsGrown-trans (grown (write_document doc db) (write_document-Grows doc db) e) cleared,
      cleared.stored doc.id (write_document-IsStored doc db mid e),
    )

-- The record that stands for a retained one.
IsStored-for :
    (start : Db) (doc : Document)
    → IsStored start doc.id
    → IsStored start (unwrap_or (raw start doc.id) doc).id
IsStored-for start doc s = elim (Option-cases (raw start doc.id)) [
  | inl n ↦ cc (n, s)
  | inr (d, r) ↦ rw r (rw (raw-id start doc.id d r) s)
]

-- The records that stand for the page are stored when it is written.
pub write_page-IsGrown :
    (kept : List String) (start : Db) (docs : List Document) (db : Db) (res : Db × List Document)
    → ((id : String) → listed id kept ≡ true → IsStored start id)
    → IsGrown start db
    → write_page kept start docs db ≡ some res
    → IsGrown db res.0 × All (λ d. IsStored res.0 d.id) res.1
unfolding write_page
write_page-IsGrown kept start [] db res k g h =
    let is = some_inj h in rw (sym is) (IsGrown-refl db, tt)
write_page-IsGrown kept start (doc ∷ docs) db res k g h = elim (Bool-cases (listed doc.id kept)) [
  | inl t ↦
      let (rest, e', h2) =
        >>=-eq-some (write_page kept start docs db) _ (rw (t, write_page) at h) in
      let (r, all) = write_page-IsGrown kept start docs db rest k g e' in
      let is = some_inj h2 in
      rw (sym is) (r, (r.stored _ (g.stored _ (IsStored-for start doc (k doc.id t))), all))
  | inr f ↦
      let (mid, e, h1) = >>=-eq-some (replace_document doc db) _ (rw (f, write_page) at h) in
      let (rest, e', h2) = >>=-eq-some (write_page kept start docs mid) _ h1 in
      let (m, s) = replace_document-IsGrown doc db mid e in
      let (r, all) = write_page-IsGrown kept start docs mid rest k (IsGrown-trans g m) e' in
      let is = some_inj h2 in rw (sym is) (IsGrown-trans m r, (r.stored doc.id s, all))
]

pub consistent-reconcile :
    (valid_date : String → Bool) (db db' : Db) (docs : List Document)
    → IsConsistent db
    → All (λ d. IsStored db d.id) docs
    → reconcile valid_date db docs ≡ some db'
    → IsSound db db'
consistent-reconcile valid_date db db' docs c all h =
    let (mid, e, s) = reconcile-IsSound valid_date db docs all c.grouped c.one_host in
    subst (IsSound db) (some_inj (sym e ∙ h)) s

pub IsSound-IsStored :
    {old db : Db} → IsSound old db → (id : String) → IsStored old id → IsStored db id
unfolding raw
IsSound-IsStored s id i = rw s.documents i

pub get_sync_state-upsert :
    (s : SyncState) (ts : List SyncState)
    → Option.map (λ t. t.last_cursor) (get_sync_state s.source_id (upsert_sync_state s ts))
      ≡ some s.last_cursor
unfolding get_sync_state upsert_sync_state
get_sync_state-upsert s [] = rw (eq_refl s.source_id) refl
get_sync_state-upsert s (t ∷ ts) = elim (Bool-cases (t.source_id == s.source_id)) [
  | inl same ↦ rw same (rw (eq_refl s.source_id) refl)
  | inr f ↦ rw f (rw f (get_sync_state-upsert s ts))
]

pub All-map :
    {A : Type 0} {P Q : A → Type 0} (f : (a : A) → P a → Q a) (xs : List A) → All P xs → All Q xs
All-map f [] h = tt
All-map f (x ∷ xs) (h, hs) = (f x h, All-map f xs hs)

-- The record of a row is found by its id.
rows-found : (rows : List Row) → All (λ (r : Row). is_some (find_doc r.doc.id rows) ≡ true) rows
unfolding find_doc
rows-found [] = tt
rows-found (r ∷ rs) = (
  rw (eq_refl r.doc.id) refl,
  All-map {P = λ (x : Row). is_some (find_doc x.doc.id rs) ≡ true}
      (λ x h. elim (Bool-cases (r.doc.id == x.doc.id)) [ inl t ↦ rw t refl | inr f ↦ rw f h ]) rs
      (rows-found rs),
)

pub rows-IsStored :
    (db db' : Db)
    → ((id : String) → IsStored db id → IsStored db' id)
    → All (λ (r : Row). IsStored db' r.doc.id) db.documents
unfolding raw
rows-IsStored db db' keeps =
    All-map {P = λ (r : Row). IsStored db r.doc.id} (λ r h. keeps r.doc.id h) db.documents
      (rows-found db.documents)

-- A page that commits to a database whose alias table describes groups with one thread of a host
-- in each, an empty database among them, leaves such a table, keeps every stored record stored, and
-- stores the cursor of its sync state.
pub commit_page-IsConsistent :
    (valid_date : String → Bool) (docs : List Document) (refs : List Reference)
    (mentions : List Mention) (state : SyncState) (db db' : Db)
    → IsConsistent db
    → commit_page valid_date docs refs mentions state db ≡ some db'
    → IsConsistent db'
      × (All (λ (r : Row). IsStored db' r.doc.id) db.documents
          × (Option.map (λ t. t.last_cursor) (get_sync_state state.source_id db'.sync_states)
              ≡ some state.last_cursor))
unfolding commit_page write_sync_state
commit_page-IsConsistent valid_date docs refs mentions state db db' c h =
    let kept = retained db docs in
    let (res, e0, h0) = >>=-eq-some (write_page kept db docs db) _ h in
    let (db1, e1, h1) = >>=-eq-some (write_references (fresh_refs kept refs) res.0) _ h0 in
    let (db2, e2, h2) = >>=-eq-some (upsert_mentions (fresh_mentions kept mentions) db1) _ h1 in
    let (db3, e3, h3) = >>=-eq-some (reconcile valid_date db2 res.1) _ h2 in
    let (g0, all) =
      write_page-IsGrown kept db docs db res (retained-IsStored db docs) (IsGrown-refl db) e0 in
    let g1 =
      grown (write_references (fresh_refs kept refs) res.0) (write_references-Grows _ res.0) e1 in
    let g2 =
      grown (upsert_mentions (fresh_mentions kept mentions) db1) (upsert_mentions-Grows _ db1) e2 in
    let g = IsGrown-trans g1 g2 in
    let s =
      consistent-reconcile valid_date db2 db3 res.1 (IsConsistent-grown (IsGrown-trans g0 g) c)
        (All-map (λ d. g.stored d.id) res.1 all) e3 in
    let last : IsGrown db3 db' = subst (IsGrown db3) (some_inj h3) (same-IsGrown db3 _ refl refl) in
    let c3 : IsConsistent db3 = record { grouped = s.grouped; one_host = s.one_host } in
    (
      IsConsistent-grown last c3,
      (
        rows-IsStored db db'
            (λ id i. last.stored id (IsSound-IsStored s id (g.stored id (g0.stored id i)))),
        rw (sym (some_inj h3)) (get_sync_state-upsert state db3.sync_states),
      ),
    )
