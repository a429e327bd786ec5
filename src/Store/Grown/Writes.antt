-- ===== src/Store/Grown/Writes.antt =====
-- Every write of records, references and tags leaves groups (bkb-store/src/sqlite.rs).
use bitcoin_knowledge_base.Base.{
  String, ◌≡◌, refl, sym, ap, ◌∙◌, subst, inl, inr, ◌&&◌, Option, none, some, List, [], ◌∷◌,
  Bool-cases, Option-cases, option_eq, is_some, ◌>>=◌, >>=-eq-some, some_inj, any,
}
use bitcoin_knowledge_base.Model.Document.{Document, Reference, metadata_url, url}
use bitcoin_knowledge_base.Store.Tables.{has_slug, Db, Mention, find_doc}
use bitcoin_knowledge_base.Store.Writes.{
  put_document, log_change, clashes, write_document, repair_previous, put_reference,
  write_reference, write_references, upsert_concept_mention, upsert_mentions,
}
use bitcoin_knowledge_base.Store.Grown.{
  IsGrown, IsGrown-refl, update-IsGrown, append-IsGrown, append-IsStored,
}
use bitcoin_knowledge_base.Reconcile.Lookup.{raw, thread}
use bitcoin_knowledge_base.Reconcile.Target.{reference_target, repair_permalink_url, permalink_repo}
use bitcoin_knowledge_base.Reconcile.Bind.Merge.{IsStored, IsStored-of_raw}

-- An operation that succeeds has grown the database.
abbrev pub Grows : Db → Option Db → Type 0
Grows db none = Unit
Grows db (some db') = IsGrown db db'

pub IsGrown-trans : {db mid db' : Db} → IsGrown db mid → IsGrown mid db' → IsGrown db db'
IsGrown-trans {db} {mid} {db'} g h = record {
  aliases = h.aliases ∙ g.aliases;
  stored = λ j s. h.stored j (g.stored j s);
  kept = λ j d d' r r'. elim (Option-cases (raw mid j)) [
    | inl n ↦ cc (rw n at (g.stored j (IsStored-of_raw db j d r)))
    | inr (m, rm) ↦
        let (t, e) = g.kept j d m r rm in let (t', e') = h.kept j m d' rm r' in (t ∙ t', e ∙ e')
  ];
}

Grows-after : (db mid : Db) (m : Option Db) → IsGrown db mid → Grows mid m → Grows db m
Grows-after db mid none g h = tt
Grows-after db mid (some db') g h = IsGrown-trans g h

pub Grows-bind :
    (db : Db) (m : Option Db) (f : Db → Option Db)
    → Grows db m
    → ((mid : Db) → Grows mid (f mid))
    → Grows db (m >>= f)
Grows-bind db none f g k = tt
Grows-bind db (some mid) f g k = Grows-after db mid (f mid) g (k mid)

-- The records and the aliases are those of before.
pub same-IsGrown :
    (db db' : Db) → db'.documents ≡ db.documents → db'.aliases ≡ db.aliases → IsGrown db db'
unfolding raw
same-IsGrown db db' docs same = record {
  aliases = same;
  stored = λ j s. rw docs s;
  kept = λ j d d' r r'.
      let is : d ≡ d' = some_inj (sym r ∙ sym (ap (find_doc j) docs) ∙ r') in
      (ap thread is, ap (λ e. e.source_repo) is);
}

put_document-Grows : (doc : Document) (db : Db) → Grows db (put_document doc db)
unfolding put_document log_change
put_document-Grows doc db = elim (Option-cases (raw db doc.id)) [
  | inl n ↦ elim (Bool-cases (any (clashes doc) db.documents)) [
    | inl t ↦ rw (n, t, put_document) tt
    | inr f ↦ rw (n, f, put_document) (append-IsGrown db _ _ refl refl)
  ]
  | inr (old, r) ↦ rw (r, put_document) (update-IsGrown db _ doc refl refl)
]

repair_permalink_url-IsGrown : (db : Db) (link : String) → IsGrown db (repair_permalink_url db link)
unfolding repair_permalink_url
repair_permalink_url-IsGrown db link = elim (Option-cases (permalink_repo link)) [
  | inl n ↦ rw (n, repair_permalink_url) (IsGrown-refl db)
  | inr (repo, p) ↦ rw (p, repair_permalink_url) (same-IsGrown db _ refl refl)
]

pub repair_previous-IsGrown :
    (old : Option Document) (doc : Document) (db : Db) → IsGrown db (repair_previous old doc db)
unfolding repair_previous
repair_previous-IsGrown old doc db = elim (Option-cases (old >>= metadata_url)) [
  | inl n ↦ rw (n, repair_previous) (IsGrown-refl db)
  | inr (link, l) ↦ elim (Bool-cases (option_eq (url doc) (some link))) [
    | inl t ↦ rw (l, t, repair_previous) (IsGrown-refl db)
    | inr f ↦ rw (l, f, repair_previous) (repair_permalink_url-IsGrown db link)
  ]
]

pub write_document-Grows : (doc : Document) (db : Db) → Grows db (write_document doc db)
unfolding write_document
write_document-Grows doc db =
    Grows-bind db (put_document doc db) _ (put_document-Grows doc db)
      (λ mid. repair_previous-IsGrown (raw db doc.id) doc mid)

-- The record that was written is stored.
put_document-IsStored :
    (doc : Document) (db db' : Db) → put_document doc db ≡ some db' → IsStored db' doc.id
unfolding put_document log_change
put_document-IsStored doc db db' h = elim (Option-cases (raw db doc.id)) [
  | inl n ↦ elim (Bool-cases (any (clashes doc) db.documents)) [
    | inl t ↦ cc (rw (n, t, put_document) at h)
    | inr f ↦
        let is = some_inj (rw (n, f, put_document) at h) in
        subst (λ d. IsStored d doc.id) is (append-IsStored db _ _ refl)
  ]
  | inr (old, r) ↦
      let is = some_inj (rw (r, put_document) at h) in
      subst (λ d. IsStored d doc.id) is
        ((update-IsGrown db _ doc refl refl).stored doc.id (IsStored-of_raw db doc.id old r))
]

pub write_document-IsStored :
    (doc : Document) (db db' : Db) → write_document doc db ≡ some db' → IsStored db' doc.id
unfolding write_document
write_document-IsStored doc db db' h =
    let (mid, e, h1) = >>=-eq-some (put_document doc db) _ h in
    let is = some_inj h1 in
    subst (λ d. IsStored d doc.id) is
      ((repair_previous-IsGrown (raw db doc.id) doc mid).stored doc.id
        (put_document-IsStored doc db mid e))

pub put_reference-Grows :
    (r : Reference) (target : Option String) (db : Db) → Grows db (put_reference r target db)
unfolding put_reference
put_reference-Grows r target db = elim (Bool-cases (is_some (raw db r.from_doc_id))) [
  | inl t ↦ rw t (same-IsGrown db _ refl refl)
  | inr f ↦ rw f tt
]

pub write_references-Grows : (rs : List Reference) (db : Db) → Grows db (write_references rs db)
unfolding write_references write_reference
write_references-Grows [] db = IsGrown-refl db
write_references-Grows (r ∷ rs) db =
    Grows-bind db (write_reference r db) _ (put_reference-Grows r (reference_target db r) db)
      (λ mid. write_references-Grows rs mid)

pub upsert_concept_mention-Grows : (m : Mention) (db : Db) → Grows db (upsert_concept_mention m db)
unfolding upsert_concept_mention
upsert_concept_mention-Grows m db =
    elim (Bool-cases (is_some (raw db m.doc_id) && has_slug m.concept_slug db.concepts)) [
      | inl t ↦ rw t (same-IsGrown db _ refl refl)
      | inr f ↦ rw f tt
    ]

pub upsert_mentions-Grows : (ms : List Mention) (db : Db) → Grows db (upsert_mentions ms db)
unfolding upsert_mentions
upsert_mentions-Grows [] db = IsGrown-refl db
upsert_mentions-Grows (m ∷ ms) db =
    Grows-bind db (upsert_concept_mention m db) _ (upsert_concept_mention-Grows m db)
      (λ mid. upsert_mentions-Grows ms mid)
