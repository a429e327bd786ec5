-- ===== src/Ingest/Backfill/Laws.antt =====
-- The backfill comes to every record of a forge once, and ends (bkb-ingest/src/sources/reconcile.rs).
use bitcoin_knowledge_base.Base.{
  ℕ, zero, suc, ◌^◌, ◌≤◌, ◌<◌, String, ◌≡◌, refl, sym, ap, ◌∙◌, inl, inr, true, false, Option, none,
  some, List, ◌++◌, map, arith, eqb, Bool-cases, eqb_iff, ◌>>=◌, length, take, filter, last?,
  In-of_filter, strip_prefix,
}
use bitcoin_knowledge_base.Base.Decimal.{print, parse_below, parse_below-print, print-unsigned}
use bitcoin_knowledge_base.Model.Document.{Document}
use bitcoin_knowledge_base.Store.Tables.{Db, Row}
use bitcoin_knowledge_base.Ingest.StorePage.{SyncPage}
use bitcoin_knowledge_base.Ingest.Backfill.{
  Int64, plus, read_i64, print_i64, from_forge, reconciliation_page, last_rowid, page_after,
  parse_cursor, fetch_page,
}
use bitcoin_knowledge_base.Ingest.Backfill.Rows.{
  IsAscending, after_of, ahead, IsAscending-filter, drop, ahead-drop, sorted_rows, ahead-ahead,
  ahead-from_forge, take-short, take-drop, length-drop, length-take, last-cases, docs-append,
  In-take, ascending-In, above, length-ahead, all_ahead,
}

-- The pages one after the other, each by the cursor of the one before, within a number of pages.
unfoldable pub backfill : ℕ → Db → Option String → Option (List Document)
unfolding fetch_page
backfill zero db cursor = none
backfill (suc f) db cursor = do
  page ← fetch_page db cursor
  elim page.next_cursor [
    | none ↦ some page.documents
    | some next ↦ (do rest ← backfill f db (some next); some (page.documents ++ rest))
  ]

read_plus :
    (s : String) (n : ℕ)
    → strip_prefix s "-" ≡ none
    → strip_prefix s "+" ≡ none
    → parse_below (2 ^ 63) s ≡ some n
    → read_i64 s ≡ some (plus n)
unfolding read_i64
read_plus s n a b c = rw (a, b, read_i64) (rw c refl)

read-print : (n : ℕ) → n < 2 ^ 63 → read_i64 (print_i64 (plus n)) ≡ some (plus n)
unfolding print_i64
read-print n h =
    read_plus (print n) n (print-unsigned n).0 (print-unsigned n).1 (parse_below-print (2 ^ 63) n h)

-- A page, by the rows that are ahead.
page_rows :
    (db : Db) (a : ℕ)
    → IsAscending 1 db.documents
    → reconciliation_page (plus a) db ≡ take 200 (ahead a db.documents)
unfolding reconciliation_page
page_rows db a c = ap (λ rs. take 200 (ahead a rs)) (sorted_rows 1 db.documents c)

backfill-last :
    (f : ℕ) (db : Db) (cursor : Option String) (page : SyncPage)
    → fetch_page db cursor ≡ some page
    → page.next_cursor ≡ none
    → backfill (suc f) db cursor ≡ some page.documents
unfolding backfill
backfill-last f db cursor page e n = rw e (rw n refl)

backfill-more :
    (f : ℕ) (db : Db) (cursor : Option String) (page : SyncPage) (next : String)
    (rest : List Document)
    → fetch_page db cursor ≡ some page
    → page.next_cursor ≡ some next
    → backfill f db (some next) ≡ some rest
    → backfill (suc f) db cursor ≡ some (page.documents ++ rest)
unfolding backfill
backfill-more f db cursor page next rest e n h = rw e (rw n (rw h refl))

fetch_rows :
    (db : Db) (cursor : Option String) (a : ℕ)
    → IsAscending 1 db.documents
    → parse_cursor cursor ≡ some (plus a)
    → fetch_page db cursor ≡ some (page_after (plus a) (take 200 (ahead a db.documents)))
unfolding fetch_page
fetch_rows db cursor a c e = rw e (ap (λ rs. some (page_after (plus a) rs)) (page_rows db a c))

-- The cursor of a page, which ends the run or goes on after its last row.
next_none :
    (after : Int64) (rows : List Row)
    → eqb (length rows) 200 ≡ false
    → (page_after after rows).next_cursor ≡ none
unfolding page_after
next_none after rows h = rw h refl

last_lem :
    (after : Int64) (rows : List Row) (r : Row)
    → last? rows ≡ some r
    → last_rowid after rows ≡ plus r.rowid
unfolding last_rowid
last_lem after rows r e = ap (λ o. elim o [ none ↦ after | some x ↦ plus x.rowid ]) e

next_some :
    (after : Int64) (rows : List Row) (r : Row)
    → eqb (length rows) 200 ≡ true
    → last? rows ≡ some r
    → (page_after after rows).next_cursor ≡ some (print_i64 (plus r.rowid))
unfolding page_after
next_some after rows r h e = rw h (ap (λ k. some (print_i64 k)) (last_lem after rows r e))

docs_after :
    (after : Int64) (rows : List Row) → (page_after after rows).documents ≡ map (λ r. r.doc) rows
unfolding page_after
docs_after after rows = refl

backfill-ahead :
    (f a : ℕ) (db : Db) (cursor : Option String)
    → IsAscending 1 db.documents
    → length (ahead a db.documents) < f
    → parse_cursor cursor ≡ some (plus a)
    → backfill f db cursor ≡ some (map (λ r. r.doc) (ahead a db.documents))
unfolding parse_cursor page_after
backfill-ahead zero a db cursor c h e = absurd (omega (arith, h))
backfill-ahead (suc f) a db cursor c h e =
    let xs = ahead a db.documents in
    let rows = take 200 xs in
    let page = fetch_rows db cursor a c e in
    elim (Bool-cases (eqb (length rows) 200)) [
      | inl t ↦ elim (last-cases rows) [
        | inl none_there ↦ cc (rw none_there at t)
        | inr (r, l, i) ↦
            let i' = In-take 200 r xs i in
            let (i'', test) = In-of_filter (after_of a) r db.documents i' in
            let below = ascending-In 1 r db.documents c i'' in
            let over : a ≤ r.rowid = above a r test in
            let left : ahead r.rowid db.documents ≡ drop 200 xs =
              sym (ahead-ahead a r.rowid db.documents over)
              ∙ ahead-drop 200 1 xs r (IsAscending-filter (after_of a) 1 db.documents c)
                  (ahead-from_forge a db.documents) l in
            let fewer : length (ahead r.rowid db.documents) < f = omega (
              arith,
              h,
              ap length left,
              length-drop 200 xs,
              (eqb_iff (length rows) 200).0 t,
              length-take 200 xs,
            ) in
            backfill-more f db cursor (page_after (plus a) rows) (print_i64 (plus r.rowid)) _ page
              (next_some (plus a) rows r t l)
              (backfill-ahead f r.rowid db (some (print_i64 (plus r.rowid))) c fewer
                (read-print r.rowid below))
            ∙ ap some (
                ap (λ k. map (λ r. r.doc) rows ++ map (λ r. r.doc) k) left
                ∙ sym (docs-append rows (drop 200 xs))
                ∙ ap (map (λ r. r.doc)) (take-drop 200 xs))
      ]
      | inr g ↦
          backfill-last f db cursor (page_after (plus a) rows) page (next_none (plus a) rows g)
          ∙ ap (λ k. some (map (λ r. r.doc) k)) (take-short 200 xs g)
    ]

-- A backfill that starts without a cursor ends after at most as many pages as there are records, and
-- one more, and its pages hold every record of a forge, once and in the order of the row ids; if the
-- row ids are positive, go up, and are below 2^63.
pub backfill_lem :
    (fuel : ℕ) (db : Db)
    → IsAscending 1 db.documents
    → length db.documents < fuel
    → backfill fuel db none ≡ some (map (λ r. r.doc) (filter (λ r. from_forge r.doc) db.documents))
unfolding parse_cursor
backfill_lem fuel db c h =
    backfill-ahead fuel 0 db none c (omega (arith, h, length-ahead 0 db.documents)) refl
    ∙ ap (λ k. some (map (λ r. r.doc) k)) (all_ahead db.documents c)
