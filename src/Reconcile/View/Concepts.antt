-- ===== src/Reconcile/View/Concepts.antt =====
-- The concepts of a group, which two functions compute (bkb-store/src/reconcile.rs: concepts,
-- context).
use bitcoin_knowledge_base.Base.{
  String, ◌≡◌, refl, sym, ap, ◌∙◌, ◌↔◌, inl, inr, Bool, true, some, List, [], ◌∷◌, map, ◌==◌,
  eq_iff, filter, All, In, here, there, In-filter, In-of_filter, In-append_left, In-append_right,
  In-of_append, All-In, In-map, In-of_map,
}
use bitcoin_knowledge_base.Base.Sorted.{distinct, In-sorted, In-distinct}
use bitcoin_knowledge_base.Store.Tables.{Db, Mention, alias_of}
use bitcoin_knowledge_base.Reconcile.Lookup.{canonical_id, canonical_id_of_raw, group_id}
use bitcoin_knowledge_base.Reconcile.Bind.Merge.{IsStored}
use bitcoin_knowledge_base.Reconcile.Bind.Group.{IsGrouped}
use bitcoin_knowledge_base.Reconcile.View.{
  DocumentContext, context, context_of, concepts, member_concepts, origins,
}
use bitcoin_knowledge_base.Reconcile.View.Groups.{
  ids_of, origins-members, projected-group, canonical_id-stored, canonical-IsStored,
}

-- A tag with the slug, of a record among the members.
abbrev Tagged : Db → List String → String → Type 0
Tagged db ms slug = (m : Mention) × In m db.mentions × (In m.doc_id ms × (slug ≡ m.concept_slug))

abbrev own : Db → String → List String
own db x = map (λ m. m.concept_slug) (filter (λ (m : Mention). m.doc_id == x) db.mentions)

member_concepts-Tagged :
    (db : Db) (ms : List String) (slug : String)
    → (In slug (member_concepts db ms) ↔ Tagged db ms slug)
unfolding member_concepts
member_concepts-Tagged db [] slug = (λ i. elim i [ ], λ (m, i, (j, e)). elim j [ ])
member_concepts-Tagged db (x ∷ ms) slug = (
  λ i. elim (In-of_append slug (own db x) (member_concepts db ms) i) [
    | inl k ↦
        let (m, kept, e) = In-of_map _ _ slug k in
        let (stands, t) = In-of_filter _ m db.mentions kept in
        (m, stands, (here ((eq_iff m.doc_id x).0 t), e))
    | inr k ↦
        let (m, stands, (j, e)) = (member_concepts-Tagged db ms slug).0 k in
        (m, stands, (there j, e))
  ],
  λ (m, i, (j, e)). elim j [
    | here k ↦ In-append_left slug (own db x) (member_concepts db ms) (
        rw e (
          In-map (λ (n : Mention). n.concept_slug)
            (filter (λ (n : Mention). n.doc_id == x) db.mentions) m
            (In-filter (λ (n : Mention). n.doc_id == x) m db.mentions i ((eq_iff m.doc_id x).1 k))))
    | there k ↦
        In-append_right slug (own db x) (member_concepts db ms)
          ((member_concepts-Tagged db ms slug).1 (m, i, (k, e)))
  ],
)

-- A tag with the slug, of a record of the group.
abbrev InGroup : Db → String → String → Type 0
InGroup db x slug =
    (m : Mention) × In m db.mentions
    × ((group_id m.doc_id (alias_of m.doc_id db.aliases) ≡ canonical_id db x)
        × (slug ≡ m.concept_slug))

abbrev joins : Db → String → Mention → Bool
joins db x m = group_id m.doc_id (alias_of m.doc_id db.aliases) == canonical_id db x

abbrev raw_slugs : Db → String → List String
raw_slugs db x = map (λ m. m.concept_slug) (filter (joins db x) db.mentions)

concepts-InGroup : (db : Db) (x slug : String) → (In slug (concepts db x) ↔ InGroup db x slug)
unfolding concepts
concepts-InGroup db x slug = (
  λ i.
      let (m, kept, e) = In-of_map _ _ slug (
        (In-distinct slug (raw_slugs db x)).0 ((In-sorted slug (distinct (raw_slugs db x))).0 i)) in
      let (stands, t) = In-of_filter (joins db x) m db.mentions kept in
      (m, stands, ((eq_iff _ (canonical_id db x)).0 t, e)),
  λ (m, i, (t, e)). (In-sorted slug (distinct (raw_slugs db x))).1 (
      (In-distinct slug (raw_slugs db x)).1 (
        rw e (
          In-map (λ (n : Mention). n.concept_slug) (filter (joins db x) db.mentions) m
            (In-filter (joins db x) m db.mentions i ((eq_iff _ (canonical_id db x)).1 t))))),
)

-- The context of a stored record is there, and its concepts, which are read record by record, are the
-- concepts of the group, which are read by one join: if the alias table describes groups and no tag
-- is of a record that is not stored.
pub context-concepts :
    (valid_date : String → Bool) (db : Db) (x slug : String)
    → IsGrouped db
    → All (λ m. IsStored db m.doc_id) db.mentions
    → IsStored db x
    → (ctx : DocumentContext) × (context valid_date db x true ≡ some ctx)
      × (In slug ctx.concepts ↔ In slug (concepts db x))
unfolding context context_of
context-concepts valid_date db x slug g tags sx =
    let (doc, e, (_, named)) = projected-group valid_date db x x g sx refl in
    let root : IsStored db doc.id = rw named (canonical-IsStored db g x sx) in
    let same : canonical_id db doc.id ≡ canonical_id db x =
      ap (canonical_id db) named ∙ canonical_id-stored db g x sx in
    let ms = ids_of (origins db doc.id) in
    (
      context_of db true doc,
      rw e refl,
      (
        λ i.
            let (m, stands, (j, k)) = (member_concepts-Tagged db ms slug).0 (
              (In-distinct slug (member_concepts db ms)).0
                ((In-sorted slug (distinct (member_concepts db ms))).0 i)) in
            let (s, own_group) = (origins-members db doc.id m.doc_id g root).0 j in
            (concepts-InGroup db x slug).1
              (m, stands, (sym (canonical_id_of_raw db m.doc_id s) ∙ own_group ∙ same, k)),
        λ i.
            let (m, stands, (t, k)) = (concepts-InGroup db x slug).0 i in
            let s = All-In (λ (n : Mention). IsStored db n.doc_id) db.mentions m tags stands in
            let j =
              (origins-members db doc.id m.doc_id g root).1
                (s, canonical_id_of_raw db m.doc_id s ∙ t ∙ sym same) in
            (In-sorted slug (distinct (member_concepts db ms))).1 (
              (In-distinct slug (member_concepts db ms)).1
                ((member_concepts-Tagged db ms slug).1 (m, stands, (j, k)))),
      ),
    )
