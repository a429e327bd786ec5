-- ===== src/Reconcile/Bind/Keeps.antt =====
-- Joining two groups leaves groups, and no two threads of one host in one of them.
use bitcoin_knowledge_base.Base.{
  String, ◌≡◌, refl, sym, ap, ◌∙◌, subst, ◌≢◌, ◌⊎◌, inl, inr, Bool, true, false, Option, some, List,
  [], ◌∷◌, arith, ◌==◌, eq_iff, if◌then◌else◌, Bool-cases, Option-cases, option_eq, option_eq_iff,
  any, In, here, there, any-In,
}
use mathlib.Core.Bool.{false≢true}
use bitcoin_knowledge_base.Model.Document.{Document}
use bitcoin_knowledge_base.Store.Tables.{Db, Alias, alias_of}
use bitcoin_knowledge_base.Reconcile.Lookup.{
  raw, canonical_id, canonical_id_of_raw, group_id, thread,
}
use bitcoin_knowledge_base.Reconcile.Bind.{member_ids, distinct_hosts, primary, bind}
use bitcoin_knowledge_base.Reconcile.Bind.Merge.{
  IsStored, IsStored-of_raw, member_row, alias_of-upsert_members, IsKeyed-upsert_members, Merged,
  bind-Outcome, member_ids-IsStored,
}
use bitcoin_knowledge_base.Reconcile.Bind.Group.{
  IsGrouped, IsOneHost, any-member_ids, member_ids-Belongs,
}

module _ {db db' : Db} {a b origin evidence : String} (m : Merged db db' a b origin evidence) where
  abbrev pub members : List String
  members = member_ids a b (canonical_id db a) (canonical_id db b) db

  abbrev pub is_member : String → Bool
  is_member j = any (λ k. k == j) members

  abbrev pub canonical : String
  canonical = primary m.a_doc a b origin

  pub raw_kept : (j : String) → raw db' j ≡ raw db j
  unfolding raw
  raw_kept j = rw m.after

  pub alias_after :
      (j : String)
      → alias_of j db'.aliases ≡ (
          if is_member j
          then some (member_row canonical origin evidence j)
          else alias_of j db.aliases)
  alias_after j =
      rw m.after (alias_of-upsert_members canonical origin evidence j members db.aliases)

  pub canonical-is_member : is_member canonical ≡ true
  canonical-is_member = m.listed

  module _ (g : IsGrouped db) where
    group_a : canonical_id db a ≡ group_id a (alias_of a db.aliases)
    group_a = canonical_id_of_raw db a (IsStored-of_raw db a m.a_doc m.a_raw)

    group_b : canonical_id db b ≡ group_id b (alias_of b db.aliases)
    group_b = canonical_id_of_raw db b (IsStored-of_raw db b m.b_doc m.b_raw)

    -- If the record that stands for a row's group is a member, then that group is one of the two.
    root_belongs :
        (j : String) (r : Alias)
        → alias_of j db.aliases ≡ some r
        → is_member r.canonical_id ≡ true
        → (r.canonical_id ≡ canonical_id db a) ⊎ (r.canonical_id ≡ canonical_id db b)
    root_belongs j r found h =
        let root = g.rooted j r found in
        elim (member_ids-Belongs db a b _ _ r.canonical_id g.keyed h) [
          | inl (inl e) ↦
              inl (sym (group_a ∙ ap (λ k. group_id k (alias_of k db.aliases)) (sym e) ∙ rw root))
          | inl (inr e) ↦
              inr (sym (group_b ∙ ap (λ k. group_id k (alias_of k db.aliases)) (sym e) ∙ rw root))
          | inr (r', found', h') ↦
              let same : r'.canonical_id ≡ r.canonical_id = cc (found', root) in rw same at h'
        ]

    -- The record that stands for the group of a record outside is outside.
    pub root_outside :
        (j : String) (r : Alias)
        → alias_of j db.aliases ≡ some r
        → is_member j ≡ false
        → is_member r.canonical_id ≡ false
    root_outside j r found out = elim (Bool-cases (is_member r.canonical_id)) [
      | inr f ↦ f
      | inl t ↦
          let inside =
            any-member_ids db a b _ _ j (g.stored j r found).0
              (inr (r, found, root_belongs j r found t)) in
          absurd (false≢true (sym out ∙ inside))
    ]

    -- A row of the joined table is a member's new row, or an old row of a record outside.
    pub row_cases :
        (j : String) (r : Alias)
        → alias_of j db'.aliases ≡ some r
        → ((is_member j ≡ true) × (member_row canonical origin evidence j ≡ r))
          ⊎ ((is_member j ≡ false) × (alias_of j db.aliases ≡ some r))
    row_cases j r h = elim (Bool-cases (is_member j)) [
      | inl t ↦ inl (t, cc (rw t at (alias_after j), h))
      | inr f ↦ inr (f, cc (rw f at (alias_after j), h))
    ]

    is_member-IsStored : (j : String) → is_member j ≡ true → IsStored db j
    is_member-IsStored j t =
        let (k, i, e) = any-In (λ k. k == j) members t in
        rw (← (eq_iff k j).0 e)
          (member_ids-IsStored a b (canonical_id db a) (canonical_id db b) db k i)

    rooted_after :
        (j : String) (r : Alias)
        → alias_of j db'.aliases ≡ some r
        → alias_of r.canonical_id db'.aliases ≡ some (record r { doc_id = r.canonical_id })
    rooted_after j r h = elim (row_cases j r h) [
      | inl (t, e) ↦
          subst
            (λ (q : Alias).
              alias_of q.canonical_id db'.aliases ≡ some (record q { doc_id = q.canonical_id }))
            e (alias_after canonical ∙ rw canonical-is_member refl)
      | inr (f, old) ↦ alias_after r.canonical_id ∙ rw (root_outside j r old f) (g.rooted j r old)
    ]

    IsStored-after :
        (j : String) (r : Alias)
        → alias_of j db'.aliases ≡ some r
        → IsStored db' j × IsStored db' r.origin_id
    IsStored-after j r h = rw (raw_kept j) (
        rw (raw_kept r.origin_id) (elim (row_cases j r h) [
          | inl (t, e) ↦ (
            is_member-IsStored j t,
            subst (λ (q : Alias). IsStored db q.origin_id) e m.originated,
          )
          | inr (f, old) ↦ g.stored j r old
        ]))

    pub Merged-IsGrouped : IsGrouped db'
    Merged-IsGrouped = record {
      keyed =
          rw m.after (IsKeyed-upsert_members canonical origin evidence members db.aliases g.keyed);
      rooted = rooted_after;
      stored = IsStored-after;
    }

    -- The group of a stored record after the join.
    pub canonical_id_after :
        (j : String)
        → IsStored db j
        → canonical_id db' j ≡ (if is_member j then canonical else canonical_id db j)
    canonical_id_after j s = elim (Bool-cases (is_member j)) [
      | inl t ↦
          canonical_id_of_raw db' j (rw (raw_kept j) s) ∙ rw t (rw (alias_after j) (rw t refl))
      | inr f ↦
          canonical_id_of_raw db' j (rw (raw_kept j) s)
          ∙ rw f (rw (alias_after j) (rw f (sym (canonical_id_of_raw db j s))))
    ]

    -- A record outside is not in the joined group.
    pub outside_apart :
        (j : String) → IsStored db j → is_member j ≡ false → canonical_id db j ≢ canonical
    outside_apart j s out e = elim (Option-cases (alias_of j db.aliases)) [
      | inl alone ↦
          let own : canonical_id db j ≡ j = canonical_id_of_raw db j s ∙ rw alone in
          false≢true (sym out ∙ ap is_member (sym own ∙ e) ∙ canonical-is_member)
      | inr (r, found) ↦
          let own : canonical_id db j ≡ r.canonical_id = canonical_id_of_raw db j s ∙ rw found in
          false≢true
            (sym (root_outside j r found out) ∙ ap is_member (sym own ∙ e) ∙ canonical-is_member)
    ]

hosts_unseen :
    (db : Db) (hosts : List (Option String)) (ms : List String) (x : String) (dx : Document)
    → distinct_hosts db hosts ms ≡ true
    → In x ms
    → raw db x ≡ some dx
    → thread dx ≡ true
    → any (option_eq dx.source_repo) hosts ≡ false
unfolding distinct_hosts
hosts_unseen db hosts [] x dx h i rx tx = elim i [ ]
hosts_unseen db hosts (m ∷ ms) x dx h (here e) rx tx = ground (arith, rw e at rx)
hosts_unseen db hosts (m ∷ ms) x dx h (there i) rx tx = grind (
  arith,
  λ (hs : List (Option String)) (k : distinct_hosts db hs ms ≡ true).
      hosts_unseen db hs ms x dx k i rx tx,
)

head_apart :
    (db : Db) (hosts : List (Option String)) (ms : List String) (x y : String) (dx dy : Document)
    → distinct_hosts db hosts (x ∷ ms) ≡ true
    → In y ms
    → raw db x ≡ some dx
    → raw db y ≡ some dy
    → thread dx ≡ true
    → thread dy ≡ true
    → dx.source_repo ≢ dy.source_repo
unfolding distinct_hosts
head_apart db hosts ms x y dx dy h j rx ry tx ty e =
    let tail : distinct_hosts db (dx.source_repo ∷ hosts) ms ≡ true = ground arith in
    let fresh = hosts_unseen db (dx.source_repo ∷ hosts) ms y dy tail j ry ty in
    let hit = (option_eq_iff dy.source_repo dx.source_repo).1 (sym e) in ground arith

distinct_tail :
    (db : Db) (hosts : List (Option String)) (m : String) (ms : List String)
    → distinct_hosts db hosts (m ∷ ms) ≡ true
    → (hs : List (Option String)) × (distinct_hosts db hs ms ≡ true)
unfolding distinct_hosts
distinct_tail db hosts m ms h = elim (Option-cases (raw db m)) [
  | inl e ↦ (hosts, ground arith)
  | inr (d, e) ↦ elim (Bool-cases (thread d)) [
    | inl t ↦ (d.source_repo ∷ hosts, ground arith)
    | inr f ↦ (hosts, ground arith)
  ]
]

pub hosts_distinct :
    (db : Db) (hosts : List (Option String)) (ms : List String) (x y : String) (dx dy : Document)
    → distinct_hosts db hosts ms ≡ true
    → In x ms
    → In y ms
    → raw db x ≡ some dx
    → raw db y ≡ some dy
    → thread dx ≡ true
    → thread dy ≡ true
    → dx.source_repo ≡ dy.source_repo
    → x ≡ y
hosts_distinct db hosts [] x y dx dy h i j rx ry tx ty e = elim i [ ]
hosts_distinct db hosts (m ∷ ms) x y dx dy h (here p) (here q) rx ry tx ty e = p ∙ sym q
hosts_distinct db hosts (m ∷ ms) x y dx dy h (here p) (there j) rx ry tx ty e =
    absurd (head_apart db hosts ms x y dx dy (rw p h) j rx ry tx ty e)
hosts_distinct db hosts (m ∷ ms) x y dx dy h (there i) (here q) rx ry tx ty e =
    absurd (head_apart db hosts ms y x dy dx (rw q h) i ry rx ty tx (sym e))
hosts_distinct db hosts (m ∷ ms) x y dx dy h (there i) (there j) rx ry tx ty e =
    let (hs, k) = distinct_tail db hosts m ms h in
    hosts_distinct db hs ms x y dx dy k i j rx ry tx ty e

In-of_is_member : (xs : List String) (j : String) → any (λ k. k == j) xs ≡ true → In j xs
In-of_is_member xs j h =
    let (k, i, e) = any-In (λ k. k == j) xs h in subst (λ q. In q xs) ((eq_iff k j).0 e) i

-- Joining two groups of a database without two threads of one host in one group leaves it so.
pub Merged-IsOneHost :
    {db db' : Db} {a b origin evidence : String} (m : Merged db db' a b origin evidence)
    → IsGrouped db
    → IsOneHost db
    → IsOneHost db'
Merged-IsOneHost {db} {db'} {a} {b} m g one x y dx dy rx ry tx ty e c =
    let rx' = sym (raw_kept m x) ∙ rx in
    let ry' = sym (raw_kept m y) ∙ ry in
    let sx = IsStored-of_raw db x dx rx' in
    let sy = IsStored-of_raw db y dy ry' in
    let cx = canonical_id_after m g x sx in
    let cy = canonical_id_after m g y sy in
    elim (Bool-cases (is_member m x)) [
      | inl mx ↦ elim (Bool-cases (is_member m y)) [
        | inl my ↦
            hosts_distinct db [] (members m) x y dx dy m.hosts (In-of_is_member _ x mx)
              (In-of_is_member _ y my) rx' ry' tx ty e
        | inr oy ↦ absurd (outside_apart m g y sy oy (cc (rw mx at cx, rw oy at cy, c)))
      ]
      | inr ox ↦ elim (Bool-cases (is_member m y)) [
        | inl my ↦ absurd (outside_apart m g x sx ox (cc (rw ox at cx, rw my at cy, c)))
        | inr oy ↦ one x y dx dy rx' ry' tx ty e (cc (rw ox at cx, rw oy at cy, c))
      ]
    ]

-- Joining two records, whether it takes place or not, leaves an alias table that describes groups,
-- if it described groups before: one row to a record, a row for the record that stands for a
-- group, and only stored records.
pub bind-IsGrouped :
    (db db' : Db) (a b origin evidence : String)
    → IsGrouped db
    → bind db a b origin evidence ≡ some db'
    → IsGrouped db'
bind-IsGrouped db db' a b origin evidence g h = elim (bind-Outcome db a b origin evidence) [
  | inl e ↦ subst IsGrouped (cc (e, h)) g
  | inr (d, e, m) ↦ subst IsGrouped (cc (e, h)) (Merged-IsGrouped m g)
]

-- Where the alias table describes groups with no two threads of one host in one, joining two
-- records leaves no two threads of one host in one group.
pub bind-IsOneHost :
    (db db' : Db) (a b origin evidence : String)
    → IsGrouped db
    → IsOneHost db
    → bind db a b origin evidence ≡ some db'
    → IsOneHost db'
bind-IsOneHost db db' a b origin evidence g one h = elim (bind-Outcome db a b origin evidence) [
  | inl e ↦ subst IsOneHost (cc (e, h)) one
  | inr (d, e, m) ↦ subst IsOneHost (cc (e, h)) (Merged-IsOneHost m g one)
]
