-- ===== src/Reconcile/View/Groups.antt =====
-- Who stands in a group, and what is shown for it (bkb-store/src/reconcile.rs: canonical_id, origins,
-- projected).
use bitcoin_knowledge_base.Base.{
  String, ◌≡◌, refl, sym, ap, ◌∙◌, subst, ◌≢◌, ◌↔◌, inl, inr, Bool, true, false, some, List, [],
  ◌∷◌, map, ◌==◌, eq_iff, Bool-cases, Option-cases, &&-eq-true, ||-eq-true, filter, In, here, there,
  In-filter, In-of_filter, In-any, any-In, In-map, In-of_map,
}
use bitcoin_knowledge_base.Base.Sorted.{In-sorted}
use bitcoin_knowledge_base.Model.Document.{Document}
use bitcoin_knowledge_base.Mirror.{parse}
use bitcoin_knowledge_base.Store.Tables.{Db, Row, Alias, alias_of, alias_of-doc_id}
use bitcoin_knowledge_base.Reconcile.Lookup.{
  raw, canonical_id, canonical_id_of_raw, raw-id, find_doc-id,
}
use bitcoin_knowledge_base.Reconcile.Bind.{in_group}
use bitcoin_knowledge_base.Reconcile.Bind.Merge.{IsStored, find_doc-In}
use bitcoin_knowledge_base.Reconcile.Bind.Group.{
  or_true, IsGrouped, stored_row, alias_of-In, alias_of-In-IsKeyed,
}
use bitcoin_knowledge_base.Reconcile.View.{
  with_parent, DocumentOrigin, of_group, group_members, origin_rows, origins, projected,
  with_origin, from_marker, from_origin,
}

module _ (db : Db) (g : IsGrouped db) where
  pub canonical-IsStored : (x : String) → IsStored db x → IsStored db (canonical_id db x)
  canonical-IsStored x s = elim (Option-cases (alias_of x db.aliases)) [
    | inl n ↦ rw (canonical_id_of_raw db x s) (rw n s)
    | inr (r, e) ↦
        rw (canonical_id_of_raw db x s) (rw e (g.stored r.canonical_id _ (g.rooted x r e)).0)
  ]

  -- A group's id is in the group.
  pub canonical_id-stored :
      (x : String) → IsStored db x → canonical_id db (canonical_id db x) ≡ canonical_id db x
  canonical_id-stored x s =
      canonical_id_of_raw db (canonical_id db x) (canonical-IsStored x s)
      ∙ elim (Option-cases (alias_of x db.aliases)) [
        | inl n ↦
            let same : canonical_id db x ≡ x = canonical_id_of_raw db x s ∙ rw n refl in
            rw same (rw n refl)
        | inr (r, e) ↦
            let same : canonical_id db x ≡ r.canonical_id =
              canonical_id_of_raw db x s ∙ rw e refl in
            rw same (rw (g.rooted x r e) refl)
      ]

  of_group-member :
      (x y : String)
      → IsStored db x
      → IsStored db y
      → of_group (canonical_id db x) db y ≡ true
      → canonical_id db y ≡ canonical_id db x
  unfolding in_group
  of_group-member x y sx sy h = elim (||-eq-true (y == canonical_id db x) _ h) [
    | inl e ↦ ap (canonical_id db) ((eq_iff y _).0 e) ∙ canonical_id-stored x sx
    | inr k ↦
        let (r, i, t) = any-In _ db.aliases k in
        let (named, same) = &&-eq-true (r.doc_id == y) (r.canonical_id == canonical_id db x) t in
        let row : alias_of y db.aliases ≡ some r =
          rw ((eq_iff r.doc_id y).0 named) at (alias_of-In-IsKeyed r db.aliases g.keyed i) in
        canonical_id_of_raw db y sy ∙ rw row ((eq_iff r.canonical_id _).0 same)
  ]

  member-of_group :
      (x y : String)
      → IsStored db y
      → canonical_id db y ≡ canonical_id db x
      → of_group (canonical_id db x) db y ≡ true
  unfolding in_group
  member-of_group x y sy h = elim (Option-cases (alias_of y db.aliases)) [
    | inl n ↦
        let same : y ≡ canonical_id db x = sym (canonical_id_of_raw db y sy ∙ rw n refl) ∙ h in
        rw ((eq_iff y (canonical_id db x)).1 same) refl
    | inr (r, e) ↦
        let same : r.canonical_id ≡ canonical_id db x =
          sym (canonical_id_of_raw db y sy ∙ rw e refl) ∙ h in
        let named : r.doc_id ≡ y = alias_of-doc_id y db.aliases r e in
        let found : in_group (λ k. k == canonical_id db x) y db.aliases ≡ true =
          In-any _ db.aliases r (alias_of-In y db.aliases r e) (
            rw ((eq_iff r.doc_id y).1 named)
              ((eq_iff r.canonical_id (canonical_id db x)).1 same)) in
        or_true (y == canonical_id db x) _ (inr found)
  ]

  abbrev listed : String → List String
  listed x =
      map (λ r. r.doc.id) (filter (λ r. of_group (canonical_id db x) db r.doc.id) db.documents)

  members-In :
      (x y : String)
      → IsStored db x
      → (In y (group_members (canonical_id db x) db)
          ↔ (IsStored db y × (canonical_id db y ≡ canonical_id db x)))
  unfolding group_members raw
  members-In x y sx = (
    λ i.
        let (row, kept, e) = In-of_map _ _ y ((In-sorted y (listed x)).0 i) in
        let (stands, t) = In-of_filter _ row db.documents kept in
        let sy : IsStored db y = rw e (find_doc-In row db.documents stands) in
        (sy, of_group-member x y sx sy (rw e t)),
    λ p.
        let (row, i, e) = stored_row y db.documents p.0 in
        (In-sorted y (listed x)).1 (
          subst (λ k. In k (listed x)) e
            (In-map (λ (r : Row). r.doc.id) _ row
              (In-filter (λ r. of_group (canonical_id db x) db r.doc.id) row db.documents i
                (rw e (member-of_group x y p.0 p.1))))),
  )

-- The ids of a record's provenance.
abbrev pub ids_of : List DocumentOrigin → List String
ids_of os = map (λ o. o.id) os

ids_of-origin_rows :
    (db : Db) (ms : List String)
    → ((m : String) → In m ms → IsStored db m)
    → ids_of (origin_rows db ms) ≡ ms
unfolding origin_rows raw
ids_of-origin_rows db [] h = refl
ids_of-origin_rows db (m ∷ ms) h = elim (Option-cases (raw db m)) [
  | inl n ↦ let s = h m (here refl) in cc (n, s)
  | inr (doc, r) ↦
      rw (r, origin_rows)
        (ap (λ k. k ∷ ids_of (origin_rows db ms)) (find_doc-id m db.documents doc r)
          ∙ ap (λ k. m ∷ k) (ids_of-origin_rows db ms (λ k i. h k (there i))))
]

pub ids_of-origins :
    (db : Db) (x : String)
    → IsGrouped db
    → IsStored db x
    → ids_of (origins db x) ≡ group_members (canonical_id db x) db
unfolding origins
ids_of-origins db x g sx =
    ids_of-origin_rows db (group_members (canonical_id db x) db)
      (λ m i. ((members-In db g x m sx).0 i).0)

-- Where the alias table describes groups, the provenance of a stored record lists exactly the stored
-- records of its group.
pub origins-members :
    (db : Db) (x y : String)
    → IsGrouped db
    → IsStored db x
    → (In y (ids_of (origins db x)) ↔ (IsStored db y × (canonical_id db y ≡ canonical_id db x)))
origins-members db x y g sx = rw (ids_of-origins db x g sx) (members-In db g x y sx)

id_from_marker :
    (valid_date : String → Bool) (doc : Document) → (from_marker valid_date doc).id ≡ doc.id
unfolding from_marker
id_from_marker valid_date doc = elim (Option-cases (parse valid_date doc)) [
  | inl n ↦ rw (n, from_marker) refl
  | inr (o, e) ↦ rw (e, from_marker) refl
]

id_with_origin :
    (valid_date : String → Bool) (db : Db) (c : String) (doc : Document)
    → (with_origin valid_date db c doc).id ≡ doc.id
unfolding with_origin from_origin
id_with_origin valid_date db c doc = elim (Option-cases (alias_of c db.aliases)) [
  | inl n ↦ rw (n, with_origin) (id_from_marker valid_date doc)
  | inr (a, e) ↦ elim (Bool-cases (a.origin_id == c)) [
    | inl t ↦ rw (e, t, with_origin) (id_from_marker valid_date doc)
    | inr f ↦ elim (Option-cases (raw db a.origin_id)) [
      | inl n ↦ rw (e, f, n, with_origin) refl
      | inr (o, r) ↦ rw (e, f, r, with_origin) refl
    ]
  ]
]

-- Where the alias table describes groups, the records of a group are shown as one record, which is
-- there and has the group's id.
pub projected-group :
    (valid_date : String → Bool) (db : Db) (x y : String)
    → IsGrouped db
    → IsStored db x
    → canonical_id db y ≡ canonical_id db x
    → (d : Document) × (projected valid_date db x ≡ some d)
      × ((projected valid_date db y ≡ some d) × (d.id ≡ canonical_id db x))
unfolding projected
projected-group valid_date db x y g sx same =
    let s = canonical-IsStored db g x sx in
    elim (Option-cases (raw db (canonical_id db x))) [
      | inl n ↦ cc (n, s)
      | inr (doc, r) ↦ (
        with_parent db (with_origin valid_date db (canonical_id db x) doc),
        rw r refl,
        (
          rw same (rw r refl),
          id_with_origin valid_date db (canonical_id db x) doc
              ∙ raw-id db (canonical_id db x) doc r,
        ),
      )
    ]

differ : (x y : String) → x ≢ y → (x == y) ≡ false
differ x y h = elim (Bool-cases (x == y)) [ inl t ↦ absurd (h ((eq_iff x y).0 t)) | inr f ↦ f ]

-- A group whose origin is another record than the one that is shown has the origin's title, text,
-- author and time.
pub projected-origin :
    (valid_date : String → Bool) (db : Db) (x : String) (r : Alias) (o : Document)
    → IsGrouped db
    → alias_of x db.aliases ≡ some r
    → raw db r.origin_id ≡ some o
    → r.origin_id ≢ r.canonical_id
    → (d : Document) × (projected valid_date db x ≡ some d)
      × ((d.title ≡ o.title)
          × ((d.body ≡ o.body) × ((d.author ≡ o.author) × (d.created_at ≡ o.created_at))))
unfolding projected with_origin from_origin
projected-origin valid_date db x r o g e ro apart =
    let same : canonical_id db x ≡ r.canonical_id =
      canonical_id_of_raw db x (g.stored x r e).0 ∙ rw e refl in
    let other : (r.origin_id == r.canonical_id) ≡ false = differ r.origin_id r.canonical_id apart in
    elim (Option-cases (raw db r.canonical_id)) [
      | inl n ↦ let s = (g.stored r.canonical_id _ (g.rooted x r e)).0 in cc (n, s)
      | inr (doc, rc) ↦ (
        with_parent db (from_origin o doc),
        rw same (rw rc (rw (g.rooted x r e, other, ro, with_origin) refl)),
        (refl, (refl, (refl, refl))),
      )
    ]
