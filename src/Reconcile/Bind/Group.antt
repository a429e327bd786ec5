-- ===== src/Reconcile/Bind/Group.antt =====
-- The groups of records that the alias table describes, and what joining two of them keeps.
use bitcoin_knowledge_base.Base.{
  String, ◌≡◌, refl, sym, ◌∙◌, ◌⊎◌, inl, inr, Bool, true, ◌&&◌, ◌||◌, some, List, [], ◌∷◌, arith,
  ◌==◌, eq_iff, eq_refl, Bool-cases, is_some, any, In, here, there, In-filter, In-of_filter, In-any,
  any-In, In-map, In-of_map,
}
use bitcoin_knowledge_base.Model.Document.{Document}
use bitcoin_knowledge_base.Store.Tables.{
  Db, Row, Alias, find_doc, alias_of, alias_of-doc_id, IsKeyed,
}
use bitcoin_knowledge_base.Reconcile.Lookup.{raw, canonical_id, thread}
use bitcoin_knowledge_base.Reconcile.Bind.{member_ids, in_group}
use bitcoin_knowledge_base.Reconcile.Bind.Merge.{IsStored}

-- A record has at most one row; the row's group has a row for the record that stands for it, with
-- the same origin and evidence; and the three records that a row names are stored.
pub record IsGrouped (db : Db) : Type 0 where
  pub keyed : IsKeyed db.aliases
  pub rooted :
      (j : String) (r : Alias)
      → alias_of j db.aliases ≡ some r
      → alias_of r.canonical_id db.aliases ≡ some (record r { doc_id = r.canonical_id })
  pub stored :
      (j : String) (r : Alias)
      → alias_of j db.aliases ≡ some r
      → IsStored db j × IsStored db r.origin_id

-- No two threads of one host stand in one group.
abbrev pub IsOneHost : Db → Type 0
IsOneHost db =
    (x y : String) (dx dy : Document)
    → raw db x ≡ some dx
    → raw db y ≡ some dy
    → thread dx ≡ true
    → thread dy ≡ true
    → dx.source_repo ≡ dy.source_repo
    → canonical_id db x ≡ canonical_id db y
    → x ≡ y

pub stored_row :
    (j : String) (rows : List Row)
    → is_some (find_doc j rows) ≡ true
    → (row : Row) × In row rows × (row.doc.id ≡ j)
unfolding find_doc
stored_row j [] h = cc
stored_row j (r ∷ rs) h = elim (Bool-cases (r.doc.id == j)) [
  | inl t ↦ (r, here refl, (eq_iff r.doc.id j).0 t)
  | inr f ↦ let (row, i, e) = stored_row j rs (rw (f, find_doc) at h) in (row, there i, e)
]

pub alias_of-In :
    (j : String) (rows : List Alias) (r : Alias) → alias_of j rows ≡ some r → In r rows
unfolding alias_of
alias_of-In j [] r h = cc
alias_of-In j (x ∷ xs) r h = elim (Bool-cases (x.doc_id == j)) [
  | inl t ↦ let e : some x ≡ some r = rw t at h in here (cc e)
  | inr f ↦ there (alias_of-In j xs r (rw f at h))
]

pub alias_of-In-IsKeyed :
    (r : Alias) (rows : List Alias) → IsKeyed rows → In r rows → alias_of r.doc_id rows ≡ some r
unfolding alias_of
alias_of-In-IsKeyed r [] k i = elim i [ ]
alias_of-In-IsKeyed r (x ∷ xs) k (here e) = rw e (rw (eq_refl x.doc_id))
alias_of-In-IsKeyed r (x ∷ xs) (k, ks) (there i) =
    ground (arith, alias_of-In-IsKeyed r xs ks i, eq_iff x.doc_id r.doc_id)

-- How a record comes to be a member: it is one of the two, or its row names one of their groups.
abbrev pub Belongs : String → String → String → String → Db → String → Type 0
Belongs a b ga gb db j =
    ((j ≡ a) ⊎ (j ≡ b))
    ⊎ ((r : Alias) × (alias_of j db.aliases ≡ some r)
        × ((r.canonical_id ≡ ga) ⊎ (r.canonical_id ≡ gb)))

either : (x y z : String) → (x ≡ y) ⊎ (x ≡ z) → (x == y || x == z) ≡ true
either x y z h = ground (arith, eq_iff x y, eq_iff x z)

of_either : (x y z : String) → (x == y || x == z) ≡ true → (x ≡ y) ⊎ (x ≡ z)
of_either x y z h = ground (arith, eq_iff x y, eq_iff x z)

pub or_true : (p q : Bool) → (p ≡ true) ⊎ (q ≡ true) → (p || q) ≡ true
or_true p q h = ground arith

of_or_true : (p q : Bool) → (p || q) ≡ true → (p ≡ true) ⊎ (q ≡ true)
of_or_true p q h = ground arith

of_and_true : (p q : Bool) → (p && q) ≡ true → (p ≡ true) × (q ≡ true)
of_and_true p q h = ground arith

Belongs-test :
    (a b ga gb j : String) (db : Db)
    → Belongs a b ga gb db j
    → ((j == a || j == b) || in_group (λ g. g == ga || g == gb) j db.aliases) ≡ true
unfolding in_group
Belongs-test a b ga gb j db (inl h) = or_true _ _ (inl (either j a b h))
Belongs-test a b ga gb j db (inr (r, found, h)) =
    let named : (r.doc_id == j) ≡ true =
      (eq_iff r.doc_id j).1 (alias_of-doc_id j db.aliases r found) in
    or_true _ _ (
      inr (
        In-any _ db.aliases r (alias_of-In j db.aliases r found)
          (rw named (either r.canonical_id ga gb h))))

-- A stored record that belongs is a member.
pub any-member_ids :
    (db : Db) (a b ga gb j : String)
    → IsStored db j
    → Belongs a b ga gb db j
    → any (λ m. m == j) (member_ids a b ga gb db) ≡ true
unfolding member_ids raw
any-member_ids db a b ga gb j s h =
    let (row, i, e) = stored_row j db.documents s in
    In-any _ _ row.doc.id
      (In-map _ _ row (In-filter _ row db.documents i (rw e (Belongs-test a b ga gb j db h))))
      ((eq_iff row.doc.id j).1 e)

-- A member belongs.
pub member_ids-Belongs :
    (db : Db) (a b ga gb j : String)
    → IsKeyed db.aliases
    → any (λ m. m == j) (member_ids a b ga gb db) ≡ true
    → Belongs a b ga gb db j
unfolding member_ids in_group
member_ids-Belongs db a b ga gb j k h =
    let (m, i, e) = any-In _ _ h in
    let (row, kept, e') = In-of_map _ _ m i in
    let same : row.doc.id ≡ j = sym e' ∙ (eq_iff m j).0 e in
    let (_, t) = In-of_filter _ row db.documents kept in
    elim (of_or_true (row.doc.id == a || row.doc.id == b) _ t) [
      | inl x ↦ inl (of_either j a b (rw same at x))
      | inr y ↦
          let (r, ir, both) =
            any-In (λ q. (q.doc_id == row.doc.id) && (q.canonical_id == ga || q.canonical_id == gb))
              db.aliases y in
          let (named, wanted) =
            of_and_true (r.doc_id == row.doc.id) (r.canonical_id == ga || r.canonical_id == gb)
              both in
          let at_j : r.doc_id ≡ j = (eq_iff r.doc_id row.doc.id).0 named ∙ same in
          inr (
            r,
            rw at_j at (alias_of-In-IsKeyed r db.aliases k ir),
            of_either r.canonical_id ga gb wanted,
          )
    ]
