-- ===== src/Store/Reset/Keeps.antt =====
-- A reset leaves groups, and no record of the type (bkb-store/src/sqlite.rs: reset_source_type).
use bitcoin_knowledge_base.Base.{
  String, ◌≡◌, refl, sym, ap, ◌∙◌, subst, inl, inr, Bool, true, false, not, ◌&&◌, Option, none,
  some, List, [], ◌∷◌, arith, ◌==◌, eq_iff, if◌then◌else◌, Bool-cases, Option-cases, not-eq-true,
  some_inj, &&-eq-true, filter,
}
use bitcoin_knowledge_base.Model.SourceType
use bitcoin_knowledge_base.Model.SourceType.{SourceType}
use bitcoin_knowledge_base.Model.Document.{Document}
use bitcoin_knowledge_base.Store.Tables.{
  Db, Row, Alias, find_doc, alias_of, alias_of-doc_id, IsKeyed, IsKeyed-filter, keep_if,
  alias_of-filter,
}
use bitcoin_knowledge_base.Store.Pages.{listed}
use bitcoin_knowledge_base.Store.Grown.{IsConsistent}
use bitcoin_knowledge_base.Store.Reset.{of_type, ids_of_type, cascade_aliases, reset_source_type}
use bitcoin_knowledge_base.Reconcile.Lookup.{raw, canonical_id, canonical_id_of_raw, group_id}
use bitcoin_knowledge_base.Reconcile.Bind.Merge.{IsStored, IsStored-of_raw}
use bitcoin_knowledge_base.Reconcile.Bind.Group.{IsGrouped, IsOneHost}
use bitcoin_knowledge_base.Reconcile.Sound.{cut-IsGrouped, cut-IsOneHost}

-- `id` is the primary key of the records.
abbrev pub IsKeyedRows : List Row → Type 0
IsKeyedRows [] = Unit
IsKeyedRows (r ∷ rs) = (find_doc r.doc.id rs ≡ none) × IsKeyedRows rs

-- A record, if it is not of the type.
abbrev pub if_kept : String → Option Document → Option Document
if_kept kind none = none
if_kept kind (some d) = if SourceType.as_str d.source_type == kind then none else some d

find_doc-filter :
    (kind j : String) (rows : List Row)
    → IsKeyedRows rows
    → find_doc j (filter (λ r. not (of_type kind r)) rows) ≡ if_kept kind (find_doc j rows)
unfolding find_doc of_type
find_doc-filter kind j [] h = refl
find_doc-filter kind j (r ∷ rs) (k, h) =
    ground (arith, find_doc-filter kind j rs h, eq_iff r.doc.id j)

find_doc-listed :
    (kind j : String) (rows : List Row) (d : Document)
    → find_doc j rows ≡ some d
    → (SourceType.as_str d.source_type == kind) ≡ true
    → listed j (ids_of_type kind rows) ≡ true
unfolding find_doc ids_of_type of_type
find_doc-listed kind j [] d h t = cc h
find_doc-listed kind j (r ∷ rs) d h t =
    ground (arith, find_doc-listed kind j rs d, eq_iff r.doc.id j)

listed-find_doc :
    (kind j : String) (rows : List Row)
    → IsKeyedRows rows
    → listed j (ids_of_type kind rows) ≡ true
    → (d : Document) × (find_doc j rows ≡ some d)
      × ((SourceType.as_str d.source_type == kind) ≡ true)
unfolding find_doc ids_of_type of_type
listed-find_doc kind j [] h l = cc l
listed-find_doc kind j (r ∷ rs) (k, h) l =
    elim (Bool-cases (SourceType.as_str r.doc.source_type == kind)) [
      | inl t ↦ elim (Bool-cases (r.doc.id == j)) [
        | inl same ↦ (r.doc, rw same refl, t)
        | inr other ↦
            let (d, e, u) =
              listed-find_doc kind j rs h (rw (t, other, ids_of_type, of_type) at l) in
            (d, rw other e, u)
      ]
      | inr f ↦
          let (d, e, u) = listed-find_doc kind j rs h (rw (f, ids_of_type, of_type) at l) in
          elim (Bool-cases (r.doc.id == j)) [
            | inl same ↦ cc (k, e, (eq_iff r.doc.id j).0 same)
            | inr other ↦ (d, rw other e, u)
          ]
    ]

keep_if-some :
    (p : Alias → Bool) (o : Option Alias) (r : Alias)
    → keep_if p o ≡ some r
    → (o ≡ some r) × (p r ≡ true)
keep_if-some p none r h = cc h
keep_if-some p (some q) r h = elim (Bool-cases (p q)) [
  | inl t ↦ let same : q ≡ r = some_inj (rw t at h) in (ap some same, ap p (sym same) ∙ t)
  | inr f ↦ cc (rw f at h)
]

if_kept-some :
    (kind : String) (o : Option Document) (d : Document)
    → if_kept kind o ≡ some d
    → (o ≡ some d) × ((SourceType.as_str d.source_type == kind) ≡ false)
if_kept-some kind none d h = cc h
if_kept-some kind (some e) d h = elim (Bool-cases (SourceType.as_str e.source_type == kind)) [
  | inl t ↦ cc (rw t at h)
  | inr f ↦
      let same : e ≡ d = some_inj (rw f at h) in
      (ap some same, ap (λ k. SourceType.as_str k.source_type == kind) (sym same) ∙ f)
]

module _ (kind : String) (db db' : Db)
    (documents : db'.documents ≡ filter (λ r. not (of_type kind r)) db.documents)
    (aliases : db'.aliases ≡ cascade_aliases (ids_of_type kind db.documents) db.aliases)
    (keyed : IsKeyedRows db.documents) (c : IsConsistent db) where
  abbrev ids : List String
  ids = ids_of_type kind db.documents

  abbrev apart : Alias → Bool
  apart r = not (listed r.canonical_id ids) && not (listed r.origin_id ids)

  -- The database without the rows that name a deleted representative or origin.
  abbrev mid : Db
  mid = record db { aliases = filter apart db.aliases }

  mid-IsGrouped : IsGrouped mid
  mid-IsGrouped = cut-IsGrouped db apart c.grouped (λ r k. refl)

  mid-IsOneHost : IsOneHost mid
  mid-IsOneHost = cut-IsOneHost db apart c.grouped (λ r k. refl) c.one_host

  raw_after : (x : String) → raw db' x ≡ if_kept kind (raw db x)
  unfolding raw
  raw_after x = ap (find_doc x) documents ∙ find_doc-filter kind x db.documents keyed

  raw_before :
      (x : String) (d : Document)
      → raw db' x ≡ some d
      → (raw mid x ≡ some d) × (listed x ids ≡ false)
  unfolding raw
  raw_before x d h =
      let (e, f) = if_kept-some kind (raw db x) d (sym (raw_after x) ∙ h) in
      (
        e,
        elim (Bool-cases (listed x ids)) [
          | inl t ↦
              let (k, found, u) = listed-find_doc kind x db.documents keyed t in
              let same : k ≡ d = some_inj (sym found ∙ e) in cc (f, u, same)
          | inr n ↦ n
        ],
      )

  pub IsStored-kept : (x : String) → listed x ids ≡ false → IsStored db x → IsStored db' x
  unfolding raw
  IsStored-kept x f s = elim (Option-cases (raw db x)) [
    | inl n ↦ cc (n, s)
    | inr (d, e) ↦ elim (Bool-cases (SourceType.as_str d.source_type == kind)) [
      | inl t ↦ cc (f, find_doc-listed kind x db.documents d e t)
      | inr n ↦ rw (raw_after x) (rw e (rw n refl))
    ]
  ]

  alias_kept : (x : String) → listed x ids ≡ false → alias_of x db'.aliases ≡ alias_of x mid.aliases
  unfolding cascade_aliases
  alias_kept x f =
      ap (alias_of x) aliases
      ∙ alias_of-filter _ x mid.aliases mid-IsGrouped.keyed
      ∙ elim (Option-cases (alias_of x mid.aliases)) [
        | inl n ↦ rw n refl
        | inr (r, e) ↦ rw e (rw (alias_of-doc_id x mid.aliases r e) (rw f refl))
      ]

  group_kept :
      (x : String) (d : Document) → raw db' x ≡ some d → canonical_id db' x ≡ canonical_id mid x
  group_kept x d h =
      let (e, f) = raw_before x d h in
      canonical_id_of_raw db' x (IsStored-of_raw db' x d h)
      ∙ ap (group_id x) (alias_kept x f)
      ∙ sym (canonical_id_of_raw mid x (IsStored-of_raw mid x d e))

  -- A row that is left names no deleted record.
  row_kept :
      (j : String) (r : Alias)
      → alias_of j db'.aliases ≡ some r
      → (alias_of j mid.aliases ≡ some r)
        × ((listed j ids ≡ false)
            × ((listed r.canonical_id ids ≡ false) × (listed r.origin_id ids ≡ false)))
  unfolding cascade_aliases
  row_kept j r h =
      let stays : Alias → Bool = λ q. not (listed q.doc_id ids) in
      let (e, t) = keep_if-some stays (alias_of j mid.aliases) r (
        sym (alias_of-filter stays j mid.aliases mid-IsGrouped.keyed)
        ∙ sym (ap (alias_of j) aliases)
        ∙ h) in
      let (_, u) =
        keep_if-some apart (alias_of j db.aliases) r
          (sym (alias_of-filter apart j db.aliases c.grouped.keyed) ∙ e) in
      let (fc, fo) =
        &&-eq-true (not (listed r.canonical_id ids)) (not (listed r.origin_id ids)) u in
      let named : r.doc_id ≡ j = alias_of-doc_id j mid.aliases r e in
      (
        e,
        (
          ap (λ k. listed k ids) (sym named) ∙ not-eq-true _ t,
          (not-eq-true _ fc, not-eq-true _ fo),
        ),
      )

  cascaded-IsConsistent : IsConsistent db'
  unfolding cascade_aliases raw
  cascaded-IsConsistent = record {
    grouped = record {
      keyed =
          subst IsKeyed (sym aliases)
            (IsKeyed-filter (λ r. not (listed r.doc_id ids)) mid.aliases mid-IsGrouped.keyed);
      rooted = λ j r h.
          let (old, (f, (fc, fo))) = row_kept j r h in
          alias_kept r.canonical_id fc ∙ mid-IsGrouped.rooted j r old;
      stored = λ j r h.
          let (old, (f, (fc, fo))) = row_kept j r h in
          let (s, t) = mid-IsGrouped.stored j r old in
          (IsStored-kept j f s, IsStored-kept r.origin_id fo t);
    };
    one_host = λ x y dx dy rx ry tx ty e same.
        mid-IsOneHost x y dx dy (raw_before x dx rx).0 (raw_before y dy ry).0 tx ty e
          (sym (group_kept x dx rx) ∙ same ∙ group_kept y dy ry);
  }

-- Deleting the records of a type from a database with unique ids, whose alias table describes groups
-- with one thread of a host in each, leaves such an alias table. A record is stored afterwards
-- exactly if it was stored before and is of another type.
pub reset_source_type-IsConsistent :
    (like : String → String → Bool) (kind : String) (patterns : List String) (db : Db) (id : String)
    → IsKeyedRows db.documents
    → IsConsistent db
    → IsConsistent (reset_source_type like kind patterns db).1
      × (raw (reset_source_type like kind patterns db).1 id ≡ if_kept kind (raw db id))
unfolding reset_source_type
reset_source_type-IsConsistent like kind patterns db id keyed c = (
  cascaded-IsConsistent kind db (reset_source_type like kind patterns db).1 refl refl keyed c,
  raw_after kind db (reset_source_type like kind patterns db).1 refl refl keyed c id,
)
