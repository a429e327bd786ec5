-- ===== src/Ingest/Backfill.antt =====
-- The backfill that reconciles the records of older databases, page by page
-- (bkb-ingest/src/sources/reconcile.rs; bkb-store/src/sqlite.rs: reconciliation_page). A row holds the
-- record that its id names, since ids are unique.
pub mod Rows
pub mod Laws
mod Tests
use bitcoin_knowledge_base.Base.{
  ℕ, zero, suc, ◌+◌, ◌-◌, ◌*◌, ◌/◌, ◌%◌, ◌^◌, ◌≤◌, ◌<◌, min, max, String, ◌≡◌, refl, sym, ap, ◌∙◌,
  subst, ◌≢◌, ◌↔◌, ◌⊎◌, inl, inr, Bool, true, false, not, ◌&&◌, ◌||◌, Option, none, some, List, [],
  ◌∷◌, ◌++◌, map, append_assoc, append-nil, arith, ◌==◌, eq_iff, eq_refl, ltb, leb, eqb,
  if◌then◌else◌, Bool-cases, Option-cases, eqb_iff, option_eq, option_eq_iff, is_some, unwrap_or,
  or_else, ◌>>=◌, ◌>>◌, guard, >>=-eq-some, guard-eq-some, not-eq-true, some_inj, &&-eq-true,
  ||-eq-true, length, take, any, all, filter, find, last?, All, In, here, there, In-filter,
  In-of_filter, In-append_left, In-append_right, In-of_append, All-In, length-append, find-In,
  In-any, any-In, all-In, In-map, In-of_map, append, concat, char_eq, char_eq_iff, char_eq_refl,
  is_empty, all_chars, any_char, is_ascii_digit, is_ascii_alphanumeric, is_whitespace, strip_prefix,
  starts_with, strip_suffix, split_once, rsplit_once, last_segment, first_segment, replace_first,
  replace, trim_start, trim_end, trim, split_char, split_whitespace, strip_prefix-append,
  strip_prefix_sound,
}
use bitcoin_knowledge_base.Base.Decimal.{print, parse_below}
use bitcoin_knowledge_base.Model.SourceType
use bitcoin_knowledge_base.Model.Document.{Document}
use bitcoin_knowledge_base.Store.Tables.{Db, Row}
use bitcoin_knowledge_base.Ingest.StorePage.{SyncPage}

-- An `i64`.
pub data Int64 : Type 0 where
  plus : ℕ → Int64
  minus : ℕ → Int64

-- `str::parse::<i64>`, with its signs and its bounds
unfoldable pub read_i64 : String → Option Int64
unfolding parse_below strip_prefix
read_i64 s = elim (strip_prefix s "-") [
  | some digits ↦ (do n ← parse_below (suc (2 ^ 63)) digits; some (minus n))
  | none ↦ (do n ← parse_below (2 ^ 63) (unwrap_or (strip_prefix s "+") s); some (plus n))
]

unfoldable pub print_i64 : Int64 → String
unfolding print
print_i64 (plus n) = print n
print_i64 (minus n) = if eqb n 0 then "0" else append "-" (print n)

-- `rowid > after`
unfoldable pub exceeds : ℕ → Int64 → Bool
exceeds rowid (plus n) = ltb n rowid
exceeds rowid (minus n) = ltb 0 (rowid + n)

-- `source_type GLOB 'github_*' OR source_type GLOB 'forgejo_*' OR source_type = 'commit'`
unfoldable pub from_forge : Document → Bool
unfolding SourceType.as_str starts_with
from_forge doc =
    let kind = SourceType.as_str doc.source_type in
    (starts_with kind "github_" || starts_with kind "forgejo_") || kind == "commit"

abbrev place_row : Row → List Row → List Row
place_row r [] = r ∷ []
place_row r (x ∷ xs) = if leb r.rowid x.rowid then r ∷ x ∷ xs else x ∷ place_row r xs

-- `ORDER BY rowid`
unfoldable pub by_rowid : List Row → List Row
by_rowid [] = []
by_rowid (r ∷ rs) = place_row r (by_rowid rs)

unfoldable pub reconciliation_page : Int64 → Db → List Row
unfolding exceeds from_forge by_rowid
reconciliation_page after db =
    take 200 (filter (λ r. exceeds r.rowid after && from_forge r.doc) (by_rowid db.documents))

unfoldable pub last_rowid : Int64 → List Row → Int64
last_rowid after rows = elim (last? rows) [ none ↦ after | some r ↦ plus r.rowid ]

abbrev pub when : Bool → String → Option String
when b s = if b then some s else none

unfoldable pub page_after : Int64 → List Row → SyncPage
unfolding last_rowid print_i64
page_after after rows =
    let next = print_i64 (last_rowid after rows) in
    let more = eqb (length rows) 200 in
    record {
      documents = map (λ r. r.doc) rows;
      references = [];
      next_cursor = when more next;
      checkpoint = when (not more) next;
    }

unfoldable pub parse_cursor : Option String → Option Int64
unfolding read_i64
parse_cursor none = some (plus 0)
parse_cursor (some text) = read_i64 text

-- `none` is the error of a cursor that is not a number.
unfoldable pub fetch_page : Db → Option String → Option SyncPage
unfolding reconciliation_page page_after parse_cursor
fetch_page db cursor = do
  after ← parse_cursor cursor
  some (page_after after (reconciliation_page after db))
