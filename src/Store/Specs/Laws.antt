-- ===== src/Store/Specs/Laws.antt =====
-- A specification that is stored is found by its number (bkb-store/src/sqlite.rs: lookup_spec).
use bitcoin_knowledge_base.Base.{
  ℕ, ◌^◌, ◌<◌, String, ◌≡◌, refl, sym, ap, ◌∙◌, ◌⊎◌, inl, inr, Bool, true, false, ◌||◌, some, List,
  [], ◌∷◌, arith, ◌==◌, eq_iff, ltb, Bool-cases, &&-eq-true, ||-eq-true, find, In, here, there,
  find-In, append,
}
use bitcoin_knowledge_base.Base.Decimal.{print, parse_below, parse_below-print, parse_below-zero}
use bitcoin_knowledge_base.Model.SourceType
use bitcoin_knowledge_base.Model.SourceType.{SourceType}
use bitcoin_knowledge_base.Store.Tables.{Db, Row}
use bitcoin_knowledge_base.Reconcile.View.{DocumentContext}
use bitcoin_knowledge_base.Store.Specs.{zero_if, padded, is_spec, spec_context, lookup_spec}

any_or : (b : Bool) → (b || true) ≡ true
any_or true = refl
any_or false = refl

-- A row that passes the test is found, or one before it.
find-some :
    (p : Row → Bool) (r : Row) (rs : List Row)
    → In r rs
    → p r ≡ true
    → (x : Row) × (find p rs ≡ some x)
find-some p r [] i h = elim i [ ]
find-some p r (x ∷ rs) (here e) h = (x, let t : p x ≡ true = rw (← e) h in rw t refl)
find-some p r (x ∷ rs) (there i) h = elim (Bool-cases (p x)) [
  | inl t ↦ (x, rw t refl)
  | inr f ↦ let (k, e) = find-some p r rs i h in (k, rw f e)
]

parse_below-zero_if :
    (limit n : ℕ) (b : Bool) (s : String)
    → parse_below limit s ≡ some n
    → parse_below limit (zero_if b s) ≡ some n
parse_below-zero_if limit n true s h = parse_below-zero limit s n h
parse_below-zero_if limit n false s h = h

pub parse_below-padded : (limit n : ℕ) → n < limit → parse_below limit (padded n) ≡ some n
unfolding padded
parse_below-padded limit n h =
    parse_below-zero_if limit n (ltb n 10) (print n) (parse_below-print limit n h)

padded-small : (n : ℕ) → n < 10 → padded n ≡ append "0" (print n)
unfolding padded
padded-small n small = let one_digit : ltb n 10 ≡ true = ground (arith, small) in rw one_digit refl

-- The test of the query, for the two ways to write a number.
is_spec-number :
    (kind : SourceType) (n : ℕ) (row : Row)
    → row.doc.source_type ≡ kind
    → (row.doc.source_id ≡ print n) ⊎ ((n < 10) × (row.doc.source_id ≡ append "0" (print n)))
    → is_spec kind n row ≡ true
is_spec-number kind n row e written =
    let same : (SourceType.as_str row.doc.source_type == SourceType.as_str kind) ≡ true =
      (eq_iff _ _).1 (ap SourceType.as_str e) in
    elim written [
      | inl plain ↦
          let found : (row.doc.source_id == print n) ≡ true = (eq_iff _ _).1 plain in
          rw same (rw found refl)
      | inr (small, zero_first) ↦
          let found : (row.doc.source_id == padded n) ≡ true =
            (eq_iff _ _).1 (zero_first ∙ sym (padded-small n small)) in
          rw same (rw found (any_or (row.doc.source_id == print n)))
    ]

-- Where a record of the kind has the number as its id, or, for a number of one digit, the number after
-- a zero, the lookup finds a record, which is of the kind and has the number.
pub lookup_spec_lem :
    (kind : SourceType) (n : ℕ) (db : Db) (row : Row)
    → n < 2 ^ 32
    → In row db.documents
    → row.doc.source_type ≡ kind
    → (row.doc.source_id ≡ print n) ⊎ ((n < 10) × (row.doc.source_id ≡ append "0" (print n)))
    → (ctx : DocumentContext) × (lookup_spec kind n db ≡ some ctx)
      × ((SourceType.as_str ctx.document.source_type ≡ SourceType.as_str kind)
          × (parse_below (2 ^ 32) ctx.document.source_id ≡ some n))
unfolding lookup_spec spec_context
lookup_spec_lem kind n db row h i same_kind written =
    let t = is_spec-number kind n row same_kind written in
    let (x, e) = find-some (is_spec kind n) row db.documents i t in
    let (_, found) = find-In (is_spec kind n) db.documents x e in
    let (same, number) =
      &&-eq-true (SourceType.as_str x.doc.source_type == SourceType.as_str kind) _ found in
    (
      spec_context kind n db x.doc,
      rw e refl,
      (
        (eq_iff _ _).0 same,
        elim (||-eq-true (x.doc.source_id == print n) _ number) [
          | inl plain ↦
              rw ((eq_iff x.doc.source_id (print n)).0 plain) (parse_below-print (2 ^ 32) n h)
          | inr zero_first ↦
              rw ((eq_iff x.doc.source_id (padded n)).0 zero_first)
                (parse_below-padded (2 ^ 32) n h)
        ],
      ),
    )
