-- ===== src/Reconcile/Run.antt =====
-- Reconciliation of a page of records (bkb-store/src/reconcile.rs: observe, reconcile).
use bitcoin_knowledge_base.Base.{
  String, ◌≡◌, refl, ap, ◌∙◌, inl, inr, Bool, Option, none, some, List, [], ◌∷◌, ◌++◌, ◌==◌, eqb,
  Bool-cases, Option-cases, is_some, length, All,
}
use bitcoin_knowledge_base.Model.Document.{Reference, Document, url}
use bitcoin_knowledge_base.Mirror
use bitcoin_knowledge_base.Mirror.{MirrorOrigin}
use bitcoin_knowledge_base.Store.Tables.{Db, Link}
use bitcoin_knowledge_base.Reconcile.Lookup.{find_doc-id, raw, actual_id, issue_id, thread}
use bitcoin_knowledge_base.Reconcile.Bind.{bind, record_link}
use bitcoin_knowledge_base.Reconcile.Bind.Merge.{IsStored}
use bitcoin_knowledge_base.Reconcile.Bind.Group.{IsGrouped, IsOneHost}
use bitcoin_knowledge_base.Reconcile.Target.{
  retarget, permalink_repo, repair_permalink_url, repair_all, repair_permalink_refs, externals,
}
use bitcoin_knowledge_base.Reconcile.Observe.{
  mirror_parents, mirror_links, exact_candidates, exact_origin, observe_candidates, observe,
  observe_all, resolve_refs, bind_links, observe_ids, child_ids, links_of, settle, settle_all,
  reconcile,
}
use bitcoin_knowledge_base.Reconcile.Sound.{
  IsSound, senders, Keeps, Keeps-bind, referred, bind-Keeps, record_link-Keeps,
  invalidate_exact-IsSound,
}

Keeps-some : (old : Db) (m : Option Db) → Keeps old m → (db : Db) × (m ≡ some db) × IsSound old db
Keeps-some old none k = absurd k
Keeps-some old (some db) k = (db, refl, k)

was-IsStored : (old db : Db) (id : String) → IsSound old db → IsStored db id → IsStored old id
unfolding raw
was-IsStored old db id s h = rw (← s.documents) h

named-IsStored :
    (old db : Db) (id : String) (doc : Document)
    → IsSound old db
    → raw db id ≡ some doc
    → IsStored old doc.id
unfolding raw
named-IsStored old db id doc s e =
    rw (find_doc-id id db.documents doc e) (rw (← s.documents) (rw e refl))

-- Where a reference points is no matter to where it is from.
pub retarget-senders :
    (test : Reference → Bool) (target : Option String) (refs : List Reference)
    → senders (retarget test target refs) ≡ senders refs
unfolding retarget
retarget-senders test target [] = refl
retarget-senders test target (r ∷ rs) = elim (Bool-cases (test r)) [
  | inl t ↦ rw t (ap (λ k. r.from_doc_id ∷ k) (retarget-senders test target rs))
  | inr f ↦ rw f (ap (λ k. r.from_doc_id ∷ k) (retarget-senders test target rs))
]

repair_permalink_url-IsSound :
    (old db : Db) (link : String) → IsSound old db → IsSound old (repair_permalink_url db link)
unfolding repair_permalink_url
repair_permalink_url-IsSound old db link s = elim (Option-cases (permalink_repo link)) [
  | inl e ↦ rw (e, repair_permalink_url) s
  | inr (repo, e) ↦
      rw (e, repair_permalink_url) (referred old db _ (retarget-senders _ _ db.refs) s)
]

repair_all-IsSound :
    (old db : Db) (links : List String) → IsSound old db → IsSound old (repair_all db links)
unfolding repair_all
repair_all-IsSound old db [] s = s
repair_all-IsSound old db (link ∷ links) s =
    repair_all-IsSound old (repair_permalink_url db link) links
      (repair_permalink_url-IsSound old db link s)

pub repair_permalink_refs-IsSound :
    (old db : Db) (doc : Document) → IsSound old db → IsSound old (repair_permalink_refs db doc)
unfolding repair_permalink_refs
repair_permalink_refs-IsSound old db doc s = elim (Option-cases (url doc)) [
  | inl e ↦ rw (e, repair_permalink_refs) (repair_all-IsSound old db (externals doc.id db.refs) s)
  | inr (link, e) ↦
      rw (e, repair_permalink_refs)
        (repair_all-IsSound old db (externals doc.id db.refs ++ link ∷ []) s)
]

resolve_refs-IsSound :
    (old db : Db) (doc : Document) → IsSound old db → IsSound old (resolve_refs db doc)
unfolding resolve_refs
resolve_refs-IsSound old db doc s = elim (Bool-cases (issue_id doc.id == doc.id)) [
  | inl t ↦ rw (t, resolve_refs) (referred old db _ (retarget-senders _ _ db.refs) s)
  | inr f ↦
      rw (f, resolve_refs)
        (referred old db _ (retarget-senders _ _ _ ∙ retarget-senders _ _ db.refs) s)
]

bind_links-Keeps :
    (old db : Db) (links : List Link) → IsSound old db → Keeps old (bind_links db links)
unfolding bind_links
bind_links-Keeps old db [] s = s
bind_links-Keeps old db (l ∷ ls) s =
    Keeps-bind old (bind db l.doc_id l.target_id l.origin_id l.evidence) (λ d. bind_links d ls)
      (bind-Keeps old db l.doc_id l.target_id l.origin_id l.evidence s)
      (λ d k. bind_links-Keeps old d ls k)

module _ (valid_date : String → Bool) where
  mirror_parents-Keeps :
      (old db : Db) (parent target : Option String)
      → IsSound old db
      → Keeps old (mirror_parents valid_date db parent target)
  unfolding mirror_parents
  mirror_parents-Keeps old db (some p) (some t) s =
      elim (Bool-cases (is_some (raw db (actual_id db p)))) [
        | inl h ↦
            rw (h, mirror_parents)
              (record_link-Keeps old db (actual_id db p) (actual_id db t) _ "issue-mirror:v1 parent"
                (was-IsStored old db (actual_id db p) s h) s)
        | inr h ↦ rw (h, mirror_parents) s
      ]
  mirror_parents-Keeps old db (some p) none s = s
  mirror_parents-Keeps old db none t s = s

  mirror_links-Keeps :
      (old db : Db) (doc : Document)
      → IsStored old doc.id
      → IsSound old db
      → Keeps old (mirror_links valid_date db doc)
  unfolding mirror_links
  mirror_links-Keeps old db doc given s = elim (Option-cases (Mirror.parse valid_date doc)) [
    | inl e ↦ rw (e, mirror_links) s
    | inr (o, e) ↦
        rw (e, mirror_links)
          (Keeps-bind old
            (record_link db doc.id (actual_id db o.id) (actual_id db o.id) "issue-mirror:v1")
            (λ d. mirror_parents valid_date d doc.parent_id o.parent_id)
            (record_link-Keeps old db doc.id (actual_id db o.id) (actual_id db o.id)
              "issue-mirror:v1" given s)
            (λ d k. mirror_parents-Keeps old d doc.parent_id o.parent_id k))
  ]

  observe_candidates-Keeps :
      (old db : Db) (doc : Document) (found : List Document)
      → IsStored old doc.id
      → IsSound old db
      → Keeps old (observe_candidates valid_date db doc found)
  unfolding observe_candidates
  observe_candidates-Keeps old db doc [] given s = s
  observe_candidates-Keeps old db doc (other ∷ []) given s =
      elim (Bool-cases (eqb (length (exact_candidates db other)) 1)) [
        | inl t ↦
            rw (t, observe_candidates)
              (record_link-Keeps old db doc.id other.id (exact_origin doc other) "exact-import:v1"
                given s)
        | inr f ↦ rw (f, observe_candidates) (invalidate_exact-IsSound old db other.id s)
      ]
  observe_candidates-Keeps old db doc (_ ∷ _ ∷ _) given s = invalidate_exact-IsSound old db doc.id s

  observe-Keeps :
      (old db : Db) (doc : Document)
      → IsStored old doc.id
      → IsSound old db
      → Keeps old (observe valid_date db doc)
  unfolding observe
  observe-Keeps old db doc given s =
      Keeps-bind old (mirror_links valid_date db doc)
        (λ d. observe_candidates valid_date d doc (exact_candidates d doc))
        (mirror_links-Keeps old db doc given s)
        (λ d k. observe_candidates-Keeps old d doc (exact_candidates d doc) given k)

  observe_all-Keeps :
      (old db : Db) (docs : List Document)
      → All (λ d. IsStored old d.id) docs
      → IsSound old db
      → Keeps old (observe_all valid_date db docs)
  unfolding observe_all
  observe_all-Keeps old db [] given s = s
  observe_all-Keeps old db (doc ∷ docs) (given, rest) s =
      Keeps-bind old (observe valid_date (repair_permalink_refs db doc) doc)
        (λ d. observe_all valid_date d docs)
        (observe-Keeps old (repair_permalink_refs db doc) doc given
          (repair_permalink_refs-IsSound old db doc s))
        (λ d k. observe_all-Keeps old d docs rest k)

  observe_ids-Keeps :
      (old db : Db) (ids : List String) → IsSound old db → Keeps old (observe_ids valid_date db ids)
  unfolding observe_ids
  observe_ids-Keeps old db [] s = s
  observe_ids-Keeps old db (id ∷ ids) s = elim (Option-cases (raw db id)) [
    | inl e ↦ rw (e, observe_ids) (observe_ids-Keeps old db ids s)
    | inr (doc, e) ↦
        rw (e, observe_ids)
          (Keeps-bind old (observe valid_date db doc) (λ d. observe_ids valid_date d ids)
            (observe-Keeps old db doc (named-IsStored old db id doc s e) s)
            (λ d k. observe_ids-Keeps old d ids k))
  ]

  settle-Keeps :
      (old db : Db) (doc : Document) → IsSound old db → Keeps old (settle valid_date db doc)
  unfolding settle
  settle-Keeps old db doc s = elim (Bool-cases (thread doc)) [
    | inl t ↦
        rw (t, settle)
          (Keeps-bind old (bind_links (resolve_refs db doc) (links_of (resolve_refs db doc) doc.id))
            (λ d. observe_ids valid_date d (child_ids d doc))
            (bind_links-Keeps old (resolve_refs db doc) _ (resolve_refs-IsSound old db doc s))
            (λ d k. observe_ids-Keeps old d (child_ids d doc) k))
    | inr f ↦ rw (f, settle) (bind_links-Keeps old db (links_of db doc.id) s)
  ]

  settle_all-Keeps :
      (old db : Db) (docs : List Document)
      → IsSound old db
      → Keeps old (settle_all valid_date db docs)
  unfolding settle_all
  settle_all-Keeps old db [] s = s
  settle_all-Keeps old db (doc ∷ docs) s =
      Keeps-bind old (settle valid_date db doc) (λ d. settle_all valid_date d docs)
        (settle-Keeps old db doc s) (λ d k. settle_all-Keeps old d docs k)

  pub reconcile-Keeps :
      (old db : Db) (docs : List Document)
      → All (λ d. IsStored old d.id) docs
      → IsSound old db
      → Keeps old (reconcile valid_date db docs)
  unfolding reconcile
  reconcile-Keeps old db docs given s =
      Keeps-bind old (observe_all valid_date db docs) (λ d. settle_all valid_date d docs)
        (observe_all-Keeps old db docs given s) (λ d k. settle_all-Keeps old d docs k)

pub IsSound-refl : (db : Db) → IsGrouped db → IsOneHost db → IsSound db db
IsSound-refl db g one = record {
  documents = refl;
  mentions = refl;
  change_log = refl;
  sync_states = refl;
  senders = refl;
  grouped = g;
  one_host = one;
}

-- Reconciling stored records succeeds. It changes no record, tag, change-log entry or sync state, and
-- leaves an alias table that describes groups with one thread of a host in each, if it described
-- such before.
pub reconcile-IsSound :
    (valid_date : String → Bool) (db : Db) (docs : List Document)
    → All (λ d. IsStored db d.id) docs
    → IsGrouped db
    → IsOneHost db
    → (db' : Db) × (reconcile valid_date db docs ≡ some db') × IsSound db db'
reconcile-IsSound valid_date db docs given g one =
    let start = IsSound-refl db g one in
    Keeps-some db (reconcile valid_date db docs) (reconcile-Keeps valid_date db db docs given start)
