-- ===== src/Reconcile/Bind/Merge.antt =====
-- What `bind` does: nothing, or one row for each record of the two groups.
use mathlib.Core.Bool.{false≢true}
use bitcoin_knowledge_base.Base.{
  String, ◌≡◌, refl, sym, ◌∙◌, ◌≢◌, ◌⊎◌, inl, inr, true, Option, some, List, [], ◌∷◌, arith, ◌==◌,
  eq_iff, eq_refl, if◌then◌else◌, Bool-cases, Option-cases, option_eq, option_eq_iff, is_some, any,
  In, here, there, In-of_filter, any-In, In-of_map,
}
use bitcoin_knowledge_base.Model.Document.{Document}
use bitcoin_knowledge_base.Store.Tables.{
  Db, Row, Alias, find_doc, alias_of, upsert_alias, alias_of-upsert_alias, IsKeyed,
  IsKeyed-upsert_alias,
}
use bitcoin_knowledge_base.Reconcile.Lookup.{raw, canonical_id}
use bitcoin_knowledge_base.Reconcile.Bind.{
  bind, bind_docs, kind_suffix, member_ids, distinct_hosts, put_alias, put_members, primary,
}

abbrev pub IsStored : Db → String → Type 0
IsStored db id = is_some (raw db id) ≡ true

pub IsStored-of_raw : (db : Db) (id : String) (d : Document) → raw db id ≡ some d → IsStored db id
IsStored-of_raw db id d h = rw h

abbrev pub member_row : String → String → String → String → Alias
member_row canonical origin evidence m = record {
  doc_id = m;
  canonical_id = canonical;
  origin_id = origin;
  evidence = evidence;
}

-- The alias table with a row for each member.
unfoldable pub upsert_members : String → String → String → List String → List Alias → List Alias
upsert_members canonical origin evidence [] rows = rows
upsert_members canonical origin evidence (m ∷ ms) rows =
    upsert_members canonical origin evidence ms
      (upsert_alias (member_row canonical origin evidence m) rows)

module _ (canonical origin evidence : String) where
  pub alias_of-upsert_members :
      (j : String) (ms : List String) (rows : List Alias)
      → alias_of j (upsert_members canonical origin evidence ms rows) ≡ (
          if any (λ m. m == j) ms
          then some (member_row canonical origin evidence j)
          else alias_of j rows)
  unfolding upsert_members
  alias_of-upsert_members j [] rows = refl
  alias_of-upsert_members j (m ∷ ms) rows = ground (
    arith,
    alias_of-upsert_members j ms (upsert_alias (member_row canonical origin evidence m) rows),
    alias_of-upsert_alias j (member_row canonical origin evidence m) rows,
    eq_iff m j,
  )

  pub IsKeyed-upsert_members :
      (ms : List String) (rows : List Alias)
      → IsKeyed rows
      → IsKeyed (upsert_members canonical origin evidence ms rows)
  unfolding upsert_members
  IsKeyed-upsert_members [] rows h = h
  IsKeyed-upsert_members (m ∷ ms) rows h =
      IsKeyed-upsert_members ms _
        (IsKeyed-upsert_alias (member_row canonical origin evidence m) rows h)

  -- With its records stored, the loop over the members meets no foreign key error.
  pub put_members_lem :
      (ms : List String) (db : Db)
      → ((m : String) → In m ms → IsStored db m)
      → IsStored db canonical
      → IsStored db origin
      → put_members canonical origin evidence ms db
        ≡ some (record db { aliases = upsert_members canonical origin evidence ms db.aliases })
  unfolding put_members put_alias upsert_members raw
  put_members_lem [] db h c o = refl
  put_members_lem (m ∷ ms) db h c o = rw (h m (here refl)) (
      rw c (
        rw o (
          put_members_lem ms
            (record db {
              aliases = upsert_alias (member_row canonical origin evidence m) db.aliases;
            })
            (λ k i. h k (there i)) c o)))

pub find_doc-In :
    (row : Row) (rows : List Row) → In row rows → is_some (find_doc row.doc.id rows) ≡ true
unfolding find_doc
find_doc-In row [] m = elim m [ ]
find_doc-In row (r ∷ rs) (here e) = rw (← e) (rw (eq_refl row.doc.id))
find_doc-In row (r ∷ rs) (there m) = ground (arith, find_doc-In row rs m)

-- Members are stored.
pub member_ids-IsStored :
    (a b ga gb : String) (db : Db) (m : String) → In m (member_ids a b ga gb db) → IsStored db m
unfolding member_ids raw
member_ids-IsStored a b ga gb db m i =
    let (row, kept, e) = In-of_map _ _ m i in
    let listed = (In-of_filter _ row db.documents kept).0 in
    rw e (find_doc-In row db.documents listed)

-- The conditions under which two groups are joined, and the database that this leaves.
pub record Merged (db db' : Db) (a b origin evidence : String) : Type 0 where
  pub a_doc : Document
  pub b_doc : Document
  pub a_raw : raw db a ≡ some a_doc
  pub b_raw : raw db b ≡ some b_doc
  pub alike : kind_suffix a_doc ≡ kind_suffix b_doc
  pub apart : canonical_id db a ≢ canonical_id db b
  pub hosts :
      distinct_hosts db [] (member_ids a b (canonical_id db a) (canonical_id db b) db) ≡ true
  pub listed :
      any
        (λ id. id == primary a_doc a b origin)
        (member_ids a b (canonical_id db a) (canonical_id db b) db)
      ≡ true
  pub originated : IsStored db origin
  pub after : db' ≡ record db {
    aliases =
        upsert_members
          (primary a_doc a b origin)
          origin
          evidence
          (member_ids a b (canonical_id db a) (canonical_id db b) db)
          db.aliases;
  }

-- Either nothing changes, or the two groups are joined; there is no error.
abbrev pub Outcome : Db → String → String → String → String → Option Db → Type 0
Outcome db a b origin evidence r =
    (r ≡ some db) ⊎ ((db' : Db) × (r ≡ some db') × Merged db db' a b origin evidence)

join_members :
    (db : Db) (a_doc b_doc : Document) (a b origin evidence : String)
    → raw db a ≡ some a_doc
    → raw db b ≡ some b_doc
    → kind_suffix a_doc ≡ kind_suffix b_doc
    → canonical_id db a ≢ canonical_id db b
    → distinct_hosts db [] (member_ids a b (canonical_id db a) (canonical_id db b) db) ≡ true
    → any
        (λ id. id == primary a_doc a b origin)
        (member_ids a b (canonical_id db a) (canonical_id db b) db)
      ≡ true
    → IsStored db origin
    → Outcome db a b origin evidence (
        put_members
          (primary a_doc a b origin)
          origin
          evidence
          (member_ids a b (canonical_id db a) (canonical_id db b) db)
          db)
join_members db a_doc b_doc a b origin evidence ra rb k n d l o =
    let canonical : String = primary a_doc a b origin in
    let ms : List String = member_ids a b (canonical_id db a) (canonical_id db b) db in
    let (c, i, e) = any-In (λ id. id == canonical) ms l in
    let same : c ≡ canonical = (eq_iff c canonical).0 e in
    let stored = member_ids-IsStored a b (canonical_id db a) (canonical_id db b) db in
    inr (
      _,
      put_members_lem canonical origin evidence ms db stored (rw (← same) (stored c i)) o,
      record {
        a_doc = a_doc;
        b_doc = b_doc;
        a_raw = ra;
        b_raw = rb;
        alike = k;
        apart = n;
        hosts = d;
        listed = l;
        originated = o;
        after = refl;
      },
    )

bind_docs-Outcome :
    (db : Db) (a_doc b_doc : Document) (a b origin evidence : String)
    → raw db a ≡ some a_doc
    → raw db b ≡ some b_doc
    → Outcome db a b origin evidence (bind_docs db a_doc b_doc a b origin evidence)
unfolding bind_docs
bind_docs-Outcome db a_doc b_doc a b origin evidence ra rb =
    elim (Bool-cases (option_eq (kind_suffix a_doc) (kind_suffix b_doc))) [
      | inr f ↦ inl (rw (f, bind_docs))
      | inl k ↦ elim (Bool-cases (canonical_id db a == canonical_id db b)) [
        | inl t ↦ inl (rw (k, t, bind_docs))
        | inr n ↦
            elim (Bool-cases
              (distinct_hosts db [] (member_ids a b (canonical_id db a) (canonical_id db b) db))) [
                | inr f ↦ inl (rw (k, n, f, bind_docs))
                | inl d ↦
                    elim (Bool-cases (
                      any (λ id. id == primary a_doc a b origin)
                        (member_ids a b (canonical_id db a) (canonical_id db b) db))) [
                          | inr f ↦ inl (rw (k, n, d, f, bind_docs))
                          | inl l ↦ elim (Bool-cases (is_some (raw db origin))) [
                            | inr f ↦ inl (rw (k, n, d, l, f, bind_docs))
                            | inl o ↦
                                rw (k, n, d, l, o, bind_docs)
                                  (join_members db a_doc b_doc a b origin evidence ra rb
                                    ((option_eq_iff _ _).0 k)
                                    (λ e. false≢true (sym n ∙ (eq_iff _ _).1 e)) d l o)
                          ]
                        ]
              ]
      ]
    ]

pub bind-Outcome :
    (db : Db) (a b origin evidence : String)
    → Outcome db a b origin evidence (bind db a b origin evidence)
unfolding bind
bind-Outcome db a b origin evidence = elim (Option-cases (raw db a)) [
  | inl e ↦ inl (rw (e, bind))
  | inr (a_doc, ra) ↦ elim (Option-cases (raw db b)) [
    | inl e ↦ inl (rw (ra, e, bind))
    | inr (b_doc, rb) ↦
        rw (ra, rb, bind) (bind_docs-Outcome db a_doc b_doc a b origin evidence ra rb)
  ]
]
