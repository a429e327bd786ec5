-- ===== src/Store/Valid/Steps.antt =====
-- The database as a state machine (bkb-store/src/sqlite.rs: the functions that write it). A function
-- that fails rolls back, which is no step.
use bitcoin_knowledge_base.Base.{
  String, ◌≡◌, refl, inl, inr, Bool, true, not, Option, some, List, [], ◌∷◌, Bool-cases,
  not-eq-true, &&-eq-true, filter, All,
}
use bitcoin_knowledge_base.Model.Document.{Document, Reference, SyncState}
use bitcoin_knowledge_base.Store.Tables.{Db, Mention, Change}
use bitcoin_knowledge_base.Store.Writes.{
  write_reference, put_reference, delete_refs_from, delete_concept_mentions, upsert_concept_mention,
  write_sync_state,
}
use bitcoin_knowledge_base.Store.Pages.{
  commit_page, upsert_document, replace_enrichment, reconcile_page,
}
use bitcoin_knowledge_base.Store.Pages.Keeps.{grown}
use bitcoin_knowledge_base.Store.Grown.{IsConsistent-grown}
use bitcoin_knowledge_base.Store.Grown.Writes.{
  same-IsGrown, put_reference-Grows, upsert_concept_mention-Grows,
}
use bitcoin_knowledge_base.Store.Reset.{of_type, ids_of_type, reset_source_type}
use bitcoin_knowledge_base.Store.Reset.Keeps.{IsStored-kept, reset_source_type-IsConsistent}
use bitcoin_knowledge_base.Store.Valid.{IsValid, All-filter, All-senders-filter, IsKeyedRows-filter}
use bitcoin_knowledge_base.Store.Valid.Writes.{put_reference-Refers, upsert_concept_mention-Refers}
use bitcoin_knowledge_base.Store.Valid.Pages.{
  whole, IsValid-states, upsert_document-IsValid, commit_page-IsValid,
}
use bitcoin_knowledge_base.Store.Valid.Evidence.{replace_enrichment-IsValid, reconcile_page-IsValid}
use bitcoin_knowledge_base.Reconcile.Lookup.{raw}
use bitcoin_knowledge_base.Reconcile.Target.{reference_target}
use bitcoin_knowledge_base.Reconcile.Bind.Merge.{IsStored}
use bitcoin_knowledge_base.Reconcile.Sound.{senders}

-- `DELETE FROM change_log`, of the entries that are `old`
unfoldable pub compact_change_log : (Change → Bool) → Db → Db
compact_change_log old db = record db { change_log = filter (λ c. not (old c)) db.change_log }

module _ (valid_date : String → Bool) (like : String → String → Bool)
    (enrich : Document → List Reference × List Mention) where
  -- A call that succeeds.
  pub data Step : Db → Db → Type 0 where
    upserted :
        {db db' : Db} (doc : Document) → upsert_document valid_date doc db ≡ some db' → Step db db'
    committed :
        {db db' : Db} (docs : List Document) (refs : List Reference) (mentions : List Mention)
        (state : SyncState)
        → commit_page valid_date docs refs mentions state db ≡ some db'
        → Step db db'
    reconciled :
        {db db' : Db} (ids : List String) (state : SyncState)
        → reconcile_page valid_date enrich ids state db ≡ some db'
        → Step db db'
    referred : {db db' : Db} (r : Reference) → write_reference r db ≡ some db' → Step db db'
    enriched :
        {db db' : Db} (id : String) (refs : List Reference) (mentions : List Mention)
        → replace_enrichment valid_date id refs mentions db ≡ some db'
        → Step db db'
    unreferred : {db : Db} (id : String) → Step db (delete_refs_from id db)
    mentioned : {db db' : Db} (m : Mention) → upsert_concept_mention m db ≡ some db' → Step db db'
    unmentioned : {db : Db} (id : String) → Step db (delete_concept_mentions id db)
    reset :
        {db : Db} (kind : String) (patterns : List String)
        → Step db (reset_source_type like kind patterns db).1
    compacted : {db : Db} (old : Change → Bool) → Step db (compact_change_log old db)
    checkpointed : {db : Db} (state : SyncState) → Step db (write_sync_state state db)

  -- A sequence of calls.
  pub data Steps : Db → Db → Type 0 where
    start : {db : Db} → Steps db db
    further : {db mid db' : Db} → Steps db mid → Step mid db' → Steps db db'

put_reference-IsValid :
    (r : Reference) (target : Option String) (db db' : Db)
    → IsValid db
    → put_reference r target db ≡ some db'
    → IsValid db'
put_reference-IsValid r target db db' v h = record {
  consistent =
      IsConsistent-grown (grown (put_reference r target db) (put_reference-Grows r target db) h)
        v.consistent;
  referred = whole (put_reference r target db) (put_reference-Refers r target db v.referred) h;
}

upsert_concept_mention-IsValid :
    (m : Mention) (db db' : Db) → IsValid db → upsert_concept_mention m db ≡ some db' → IsValid db'
upsert_concept_mention-IsValid m db db' v h = record {
  consistent =
      IsConsistent-grown (grown (upsert_concept_mention m db) (upsert_concept_mention-Grows m db) h)
        v.consistent;
  referred = whole (upsert_concept_mention m db) (upsert_concept_mention-Refers m db v.referred) h;
}

delete_refs_from-IsValid : (id : String) (db : Db) → IsValid db → IsValid (delete_refs_from id db)
unfolding delete_refs_from raw
delete_refs_from-IsValid id db v = record {
  consistent = IsConsistent-grown (same-IsGrown db _ refl refl) v.consistent;
  referred = record {
    keyed = v.referred.keyed;
    refs = All-senders-filter (IsStored db) _ db.refs v.referred.refs;
    mentions = v.referred.mentions;
  };
}

delete_concept_mentions-IsValid :
    (id : String) (db : Db) → IsValid db → IsValid (delete_concept_mentions id db)
unfolding delete_concept_mentions raw
delete_concept_mentions-IsValid id db v = record {
  consistent = IsConsistent-grown (same-IsGrown db _ refl refl) v.consistent;
  referred = record {
    keyed = v.referred.keyed;
    refs = v.referred.refs;
    mentions = All-filter (λ (m : Mention). IsStored db m.doc_id) _ db.mentions v.referred.mentions;
  };
}

compact_change_log-IsValid :
    (old : Change → Bool) (db : Db) → IsValid db → IsValid (compact_change_log old db)
unfolding compact_change_log raw
compact_change_log-IsValid old db v = record {
  consistent = IsConsistent-grown (same-IsGrown db _ refl refl) v.consistent;
  referred = record {
    keyed = v.referred.keyed;
    refs = v.referred.refs;
    mentions = v.referred.mentions;
  };
}

-- What is left refers to what is left.
All-left :
    {A : Type 0} (P Q : A → Type 0) (p : A → Bool) (xs : List A)
    → ((x : A) → p x ≡ true → P x → Q x)
    → All P xs
    → All Q (filter p xs)
All-left P Q p [] f h = tt
All-left P Q p (x ∷ xs) f (h, hs) = elim (Bool-cases (p x)) [
  | inl t ↦ rw t (f x t h, All-left P Q p xs f hs)
  | inr n ↦ rw n (All-left P Q p xs f hs)
]

All-senders-left :
    (P Q : String → Type 0) (p : Reference → Bool) (rs : List Reference)
    → ((r : Reference) → p r ≡ true → P r.from_doc_id → Q r.from_doc_id)
    → All P (senders rs)
    → All Q (senders (filter p rs))
All-senders-left P Q p [] f h = tt
All-senders-left P Q p (r ∷ rs) f (h, hs) = elim (Bool-cases (p r)) [
  | inl t ↦ rw t (f r t h, All-senders-left P Q p rs f hs)
  | inr n ↦ rw n (All-senders-left P Q p rs f hs)
]

reset_source_type-IsValid :
    (like : String → String → Bool) (kind : String) (patterns : List String) (db : Db)
    → IsValid db
    → IsValid (reset_source_type like kind patterns db).1
unfolding reset_source_type
reset_source_type-IsValid like kind patterns db v =
    let db' = (reset_source_type like kind patterns db).1 in
    let keyed = v.referred.keyed in
    let ids = ids_of_type kind db.documents in
    let stays = IsStored-kept kind db db' refl refl keyed v.consistent in
    record {
      consistent = (reset_source_type-IsConsistent like kind patterns db "" keyed v.consistent).0;
      referred = record {
        keyed = IsKeyedRows-filter (λ r. not (of_type kind r)) db.documents keyed;
        refs =
            All-senders-left (IsStored db) (IsStored db') _ db.refs
              (λ r t s. stays r.from_doc_id (not-eq-true _ (&&-eq-true _ _ t).0) s) v.referred.refs;
        mentions =
            All-left (λ (m : Mention). IsStored db m.doc_id) (λ m. IsStored db' m.doc_id) _
              db.mentions (λ m t s. stays m.doc_id (not-eq-true _ t) s) v.referred.mentions;
      };
    }

module _ (valid_date : String → Bool) (like : String → String → Bool)
    (enrich : Document → List Reference × List Mention) where
  Step-IsValid : (db db' : Db) → Step valid_date like enrich db db' → IsValid db → IsValid db'
  unfolding write_reference
  Step-IsValid db db' (upserted doc h) v = upsert_document-IsValid valid_date doc db db' v h
  Step-IsValid db db' (committed docs refs mentions state h) v =
      commit_page-IsValid valid_date docs refs mentions state db db' v h
  Step-IsValid db db' (reconciled ids state h) v =
      reconcile_page-IsValid valid_date enrich ids state db db' v h
  Step-IsValid db db' (referred r h) v = put_reference-IsValid r (reference_target db r) db db' v h
  Step-IsValid db db' (enriched id refs mentions h) v =
      replace_enrichment-IsValid valid_date id refs mentions db db' v h
  Step-IsValid db _ (unreferred id) v = delete_refs_from-IsValid id db v
  Step-IsValid db db' (mentioned m h) v = upsert_concept_mention-IsValid m db db' v h
  Step-IsValid db _ (unmentioned id) v = delete_concept_mentions-IsValid id db v
  Step-IsValid db _ (reset kind patterns) v = reset_source_type-IsValid like kind patterns db v
  Step-IsValid db _ (compacted old) v = compact_change_log-IsValid old db v
  Step-IsValid db _ (checkpointed state) v = IsValid-states state db v

  -- However the store's functions are called on a database that is valid, one without records for
  -- example, it stays valid: its ids are unique, references and tags are those of stored records,
  -- and its alias table describes groups with one thread of a host in each.
  pub Steps-IsValid : (db db' : Db) → Steps valid_date like enrich db db' → IsValid db → IsValid db'
  Steps-IsValid db _ start v = v
  Steps-IsValid db db' (further {mid = mid} before h) v =
      Step-IsValid mid db' h (Steps-IsValid db mid before v)
