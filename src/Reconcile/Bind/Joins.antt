-- ===== src/Reconcile/Bind/Joins.antt =====
-- What joining two records does to the groups of all others (bkb-store/src/reconcile.rs: bind).
use bitcoin_knowledge_base.Base.{
  String, ◌≡◌, refl, sym, ap, ◌∙◌, subst, ◌↔◌, ◌⊎◌, inl, inr, true, none, some, Bool-cases,
  Option-cases, some_inj,
}
use bitcoin_knowledge_base.Store.Tables.{Db, alias_of}
use bitcoin_knowledge_base.Reconcile.Lookup.{canonical_id, canonical_id_of_raw}
use bitcoin_knowledge_base.Reconcile.Bind.{bind}
use bitcoin_knowledge_base.Reconcile.Bind.Merge.{IsStored, IsStored-of_raw, Merged, bind-Outcome}
use bitcoin_knowledge_base.Reconcile.Bind.Group.{IsGrouped, any-member_ids, member_ids-Belongs}
use bitcoin_knowledge_base.Reconcile.Bind.Keeps.{is_member, canonical_id_after, outside_apart}

-- The record is in the group of one of the two that are joined.
abbrev pub InEither : Db → String → String → String → Type 0
InEither db a b x =
    (canonical_id db x ≡ canonical_id db a) ⊎ (canonical_id db x ≡ canonical_id db b)

-- A record whose own id names the group of another stored record: it is that record, or it has a row.
own_group :
    (db : Db) (a j : String)
    → IsGrouped db
    → IsStored db a
    → alias_of j db.aliases ≡ none
    → j ≡ canonical_id db a
    → j ≡ a
own_group db a j g s alone e = elim (Option-cases (alias_of a db.aliases)) [
  | inl n ↦ e ∙ canonical_id_of_raw db a s ∙ rw n
  | inr (r, found) ↦
      let named : r.canonical_id ≡ j = sym (e ∙ canonical_id_of_raw db a s ∙ rw found) in
      cc (alone, rw named at (g.rooted a r found))
]

module _ {db db' : Db} {a b origin evidence : String} (m : Merged db db' a b origin evidence)
    (g : IsGrouped db) where
  member-InEither : (x : String) → IsStored db x → is_member m x ≡ true → InEither db a b x
  member-InEither x s t = elim (member_ids-Belongs db a b _ _ x g.keyed t) [
    | inl (inl e) ↦ inl (ap (canonical_id db) e)
    | inl (inr e) ↦ inr (ap (canonical_id db) e)
    | inr (r, found, inl e) ↦ inl (canonical_id_of_raw db x s ∙ rw found e)
    | inr (r, found, inr e) ↦ inr (canonical_id_of_raw db x s ∙ rw found e)
  ]

  InEither-member : (x : String) → IsStored db x → InEither db a b x → is_member m x ≡ true
  InEither-member x s h =
      let own = canonical_id_of_raw db x s in
      any-member_ids db a b _ _ x s (elim (Option-cases (alias_of x db.aliases)) [
        | inl alone ↦
            let itself : canonical_id db x ≡ x = own ∙ rw alone refl in
            elim h [
              | inl e ↦ inl (
                  inl (
                    own_group db a x g (IsStored-of_raw db a m.a_doc m.a_raw) alone
                      (sym itself ∙ e)))
              | inr e ↦ inl (
                  inr (
                    own_group db b x g (IsStored-of_raw db b m.b_doc m.b_raw) alone
                      (sym itself ∙ e)))
            ]
        | inr (r, found) ↦
            let row : canonical_id db x ≡ r.canonical_id = own ∙ rw found refl in
            elim h [
              | inl e ↦ inr (r, found, inl (sym row ∙ e))
              | inr e ↦ inr (r, found, inr (sym row ∙ e))
            ]
      ])

  together :
      (x y : String)
      → IsStored db x
      → IsStored db y
      → canonical_id db' x ≡ canonical_id db' y
      → (canonical_id db x ≡ canonical_id db y) ⊎ (InEither db a b x × InEither db a b y)
  together x y sx sy e = elim (Bool-cases (is_member m x)) [
    | inl t ↦ elim (Bool-cases (is_member m y)) [
      | inl u ↦ inr (member-InEither x sx t, member-InEither y sy u)
      | inr v ↦ absurd (
          outside_apart m g y sy v (
            sym (canonical_id_after m g y sy ∙ rw v refl)
            ∙ sym e
            ∙ canonical_id_after m g x sx
            ∙ rw t refl))
    ]
    | inr f ↦ elim (Bool-cases (is_member m y)) [
      | inl u ↦ absurd (
          outside_apart m g x sx f (
            sym (canonical_id_after m g x sx ∙ rw f refl)
            ∙ e
            ∙ canonical_id_after m g y sy
            ∙ rw u refl))
      | inr v ↦ inl (
          sym (canonical_id_after m g x sx ∙ rw f refl)
          ∙ e
          ∙ canonical_id_after m g y sy
          ∙ rw v refl)
    ]
  ]

  both_members :
      (x y : String)
      → IsStored db x
      → IsStored db y
      → is_member m x ≡ true
      → is_member m y ≡ true
      → canonical_id db' x ≡ canonical_id db' y
  both_members x y sx sy t u =
      canonical_id_after m g x sx ∙ rw t (sym (canonical_id_after m g y sy ∙ rw u refl))

  split_after :
      (x y : String)
      → IsStored db x
      → IsStored db y
      → canonical_id db x ≡ canonical_id db y
      → canonical_id db' x ≡ canonical_id db' y
  split_after x y sx sy e = elim (Bool-cases (is_member m x)) [
    | inl t ↦ both_members x y sx sy t (
        InEither-member y sy
          (elim (member-InEither x sx t) [ inl h ↦ inl (sym e ∙ h) | inr h ↦ inr (sym e ∙ h) ]))
    | inr f ↦ elim (Bool-cases (is_member m y)) [
      | inl u ↦
          let h : InEither db a b x = elim (member-InEither y sy u) [
            | inl k ↦ inl (e ∙ k)
            | inr k ↦ inr (e ∙ k)
          ] in
          cc (f, InEither-member x sx h)
      | inr v ↦
          canonical_id_after m g x sx ∙ rw f (e ∙ sym (canonical_id_after m g y sy ∙ rw v refl))
    ]
  ]

-- Joining two records either changes nothing, or joins exactly the groups of the two: two stored
-- records are in one group afterwards if and only if they were so before, or each was in one of
-- those two groups.
pub bind-canonical_id :
    (db db' : Db) (a b origin evidence : String) (x y : String)
    → IsGrouped db
    → IsStored db x
    → IsStored db y
    → bind db a b origin evidence ≡ some db'
    → (db' ≡ db)
      ⊎ ((canonical_id db' x ≡ canonical_id db' y)
          ↔ ((canonical_id db x ≡ canonical_id db y) ⊎ (InEither db a b x × InEither db a b y)))
bind-canonical_id db db' a b origin evidence x y g sx sy h =
    elim (bind-Outcome db a b origin evidence) [
      | inl e ↦ inl (some_inj (sym h ∙ e))
      | inr (d, e, m) ↦ inr (
          subst
            (λ k.
              (canonical_id k x ≡ canonical_id k y)
              ↔ ((canonical_id db x ≡ canonical_id db y) ⊎ (InEither db a b x × InEither db a b y)))
            (some_inj (sym e ∙ h))
            (
              together m g x y sx sy,
              λ p. elim p [
                | inl k ↦ split_after m g x y sx sy k
                | inr (j, k) ↦
                    both_members m g x y sx sy (InEither-member m g x sx j)
                      (InEither-member m g y sy k)
              ],
            ))
    ]
