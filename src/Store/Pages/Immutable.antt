-- ===== src/Store/Pages/Immutable.antt =====
-- A commit that is stored is not written again (bkb-store/src/sqlite.rs: commit_page).
pub mod Pages
use bitcoin_knowledge_base.Base.{
  ℕ, zero, suc, ◌+◌, ◌-◌, ◌*◌, ◌/◌, ◌%◌, ◌^◌, ◌≤◌, ◌<◌, min, max, String, ◌≡◌, refl, sym, ap, ◌∙◌,
  subst, ◌≢◌, ◌↔◌, ◌⊎◌, inl, inr, Bool, true, false, not, ◌&&◌, ◌||◌, Option, none, some, List, [],
  ◌∷◌, ◌++◌, map, append_assoc, append-nil, arith, ◌==◌, eq_iff, eq_refl, ltb, leb, eqb,
  if◌then◌else◌, Bool-cases, Option-cases, eqb_iff, option_eq, option_eq_iff, is_some, unwrap_or,
  or_else, ◌>>=◌, ◌>>◌, guard, >>=-eq-some, guard-eq-some, not-eq-true, some_inj, &&-eq-true,
  ||-eq-true, length, take, any, all, filter, find, last?, All, In, here, there, In-filter,
  In-of_filter, In-append_left, In-append_right, In-of_append, All-In, length-append, find-In,
  In-any, any-In, all-In, In-map, In-of_map, append, concat, char_eq, char_eq_iff, char_eq_refl,
  is_empty, all_chars, any_char, is_ascii_digit, is_ascii_alphanumeric, is_whitespace, strip_prefix,
  starts_with, strip_suffix, split_once, rsplit_once, last_segment, first_segment, replace_first,
  replace, trim_start, trim_end, trim, split_char, split_whitespace, strip_prefix-append,
  strip_prefix_sound,
}
use mathlib.Core.Option
use bitcoin_knowledge_base.Model.Document.{Document, Reference, SyncState, metadata_url, url}
use bitcoin_knowledge_base.Store.Tables.{Db, Row, Mention, find_doc}
use bitcoin_knowledge_base.Store.Writes.{
  put_document, updated, update_rows, next_rowid, log_change, clashes, write_document,
  repair_previous, put_reference, write_reference, write_references, upsert_concept_mention,
  upsert_mentions, delete_refs_from, delete_concept_mentions, write_sync_state,
}
use bitcoin_knowledge_base.Store.Pages.{
  retained, listed, replace_document, write_page, fresh_refs, fresh_mentions, commit_page,
}
use bitcoin_knowledge_base.Store.Grown.{
  IsConsistent, IsGrown, IsGrown-refl, IsConsistent-grown, raw_update, raw_append,
}
use bitcoin_knowledge_base.Store.Grown.Writes.{
  IsGrown-trans, write_references-Grows, upsert_mentions-Grows,
}
use bitcoin_knowledge_base.Store.Pages.Keeps.{
  retained-IsStored, write_page-IsGrown, consistent-reconcile, grown, All-map,
}
use bitcoin_knowledge_base.Reconcile.Lookup.{raw-id, raw}
use bitcoin_knowledge_base.Reconcile.Target.{repair_permalink_url, permalink_repo, reference_target}
use bitcoin_knowledge_base.Reconcile.Observe.{reconcile}
use bitcoin_knowledge_base.Reconcile.Sound.{IsSound}

-- The tags of a record.
abbrev pub tags : String → List Mention → List Mention
tags id ms = filter (λ m. m.doc_id == id) ms

-- The record and its tags are those of before.
abbrev pub Untouched : String → Db → Db → Type 0
Untouched id db db' = (raw db' id ≡ raw db id) × (tags id db'.mentions ≡ tags id db.mentions)

pub Untouched-trans :
    (id : String) (db mid db' : Db)
    → Untouched id db mid
    → Untouched id mid db'
    → Untouched id db db'
Untouched-trans id db mid db' (r, t) (r', t') = (r' ∙ r, t' ∙ t)

pub same-Untouched :
    (id : String) (db db' : Db)
    → db'.documents ≡ db.documents
    → db'.mentions ≡ db.mentions
    → Untouched id db db'
unfolding raw
same-Untouched id db db' e m = (ap (find_doc id) e, ap (tags id) m)

pub filter-append :
    (p : Mention → Bool) (xs ys : List Mention) → filter p (xs ++ ys) ≡ filter p xs ++ filter p ys
filter-append p [] ys = refl
filter-append p (x ∷ xs) ys = elim (Bool-cases (p x)) [
  | inl t ↦ rw t (ap (λ r. x ∷ r) (filter-append p xs ys))
  | inr f ↦ rw f (filter-append p xs ys)
]

-- A filter that keeps the tags of a record.
pub tags-filter :
    (id : String) (q : Mention → Bool) (ms : List Mention)
    → ((m : Mention) → (m.doc_id == id) ≡ true → q m ≡ true)
    → tags id (filter q ms) ≡ tags id ms
tags-filter id q [] k = refl
tags-filter id q (m ∷ ms) k = elim (Bool-cases (m.doc_id == id)) [
  | inl t ↦ rw (k m t) (rw t (ap (λ r. m ∷ r) (tags-filter id q ms k)))
  | inr f ↦ elim (Bool-cases (q m)) [
    | inl u ↦ rw u (rw f (tags-filter id q ms k))
    | inr u ↦ rw u (rw f (tags-filter id q ms k))
  ]
]

or_else-none : (o : Option Document) → or_else o none ≡ o
or_else-none none = refl
or_else-none (some d) = refl

-- A row under another id is not updated.
other_row :
    (doc : Document) (seq : ℕ) (id : String) (o : Option Document)
    → (doc.id == id) ≡ false
    → ((d : Document) → o ≡ some d → d.id ≡ id)
    → Option.map (λ d. if d.id == doc.id then updated doc seq d else d) o ≡ o
other_row doc seq id none other k = refl
other_row doc seq id (some d) other k = elim (Bool-cases (d.id == doc.id)) [
  | inl t ↦ cc (other, (eq_iff doc.id id).1 (sym ((eq_iff d.id doc.id).0 t) ∙ k d refl))
  | inr f ↦ rw f refl
]

put_document-Untouched :
    (id : String) (doc : Document) (db db' : Db)
    → (doc.id == id) ≡ false
    → put_document doc db ≡ some db'
    → Untouched id db db'
unfolding put_document log_change
put_document-Untouched id doc db db' other h = elim (Option-cases (raw db doc.id)) [
  | inl n ↦ elim (Bool-cases (any (clashes doc) db.documents)) [
    | inl t ↦ cc (rw (n, t, put_document) at h)
    | inr f ↦
        subst (Untouched id db) (some_inj (rw (n, f, put_document) at h))
          (raw_append db _ _ refl id ∙ rw other (or_else-none (raw db id)), refl)
  ]
  | inr (old, r) ↦ subst (Untouched id db) (some_inj (rw (r, put_document) at h)) (
    raw_update db _ doc refl id ∙ other_row doc db.next_seq id (raw db id) other (raw-id db id),
    refl,
  )
]

repair_previous-Untouched :
    (id : String) (old : Option Document) (doc : Document) (db : Db)
    → Untouched id db (repair_previous old doc db)
unfolding repair_previous repair_permalink_url
repair_previous-Untouched id old doc db = elim (Option-cases (old >>= metadata_url)) [
  | inl n ↦ rw (n, repair_previous) (refl, refl)
  | inr (link, l) ↦ elim (Bool-cases (option_eq (url doc) (some link))) [
    | inl t ↦ rw (l, t, repair_previous) (refl, refl)
    | inr f ↦
        rw (l, f, repair_previous)
          (elim (Option-cases (permalink_repo link)) [
            | inl n ↦ rw (n, repair_permalink_url) (refl, refl)
            | inr (repo, p) ↦ rw (p, repair_permalink_url) (same-Untouched id db _ refl refl)
          ])
  ]
]

pub not_same : (id k : String) → (k == id) ≡ false → not (id == k) ≡ true
not_same id k h = ground (arith, eq_iff id k, eq_iff k id)

pub replace_document-Untouched :
    (id : String) (doc : Document) (db db' : Db)
    → (doc.id == id) ≡ false
    → replace_document doc db ≡ some db'
    → Untouched id db db'
unfolding replace_document write_document delete_refs_from delete_concept_mentions raw
replace_document-Untouched id doc db db' other h =
    let (mid, e, h1) = >>=-eq-some (write_document doc db) _ h in
    let (mid0, e0, h0) = >>=-eq-some (put_document doc db) _ e in
    let before = put_document-Untouched id doc db mid0 other e0 in
    let repaired : Untouched id mid0 mid =
      subst (Untouched id mid0) (some_inj h0)
        (repair_previous-Untouched id (raw db doc.id) doc mid0) in
    let cleared : Untouched id mid db' = subst (Untouched id mid) (some_inj h1) (
      refl,
      tags-filter id _ mid.mentions
          (λ m t. rw (ap (λ i. i == doc.id) ((eq_iff m.doc_id id).0 t)) (not_same id doc.id other)),
    ) in
    Untouched-trans id db mid0 db' before (Untouched-trans id mid0 mid db' repaired cleared)

write_reference-Untouched :
    (id : String) (r : Reference) (db db' : Db)
    → write_reference r db ≡ some db'
    → Untouched id db db'
unfolding write_reference put_reference
write_reference-Untouched id r db db' h = elim (Bool-cases (is_some (raw db r.from_doc_id))) [
  | inl t ↦
      subst (Untouched id db) (some_inj (rw (t, put_reference) at h))
        (same-Untouched id db _ refl refl)
  | inr f ↦ cc (rw (f, put_reference) at h)
]

pub write_references-Untouched :
    (id : String) (rs : List Reference) (db db' : Db)
    → write_references rs db ≡ some db'
    → Untouched id db db'
unfolding write_references
write_references-Untouched id [] db db' h = subst (Untouched id db) (some_inj h) (refl, refl)
write_references-Untouched id (r ∷ rs) db db' h =
    let (mid, e, h1) = >>=-eq-some (write_reference r db) _ h in
    Untouched-trans id db mid db' (write_reference-Untouched id r db mid e)
      (write_references-Untouched id rs mid db' h1)
