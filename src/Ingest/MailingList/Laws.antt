-- ===== src/Ingest/MailingList/Laws.antt =====
-- The cursor of a page of the archive (bkb-ingest/src/sources/mailing_list.rs: fetch_page,
-- parse_cursor).
use bitcoin_knowledge_base.Base.{
  ℕ, ◌+◌, ◌^◌, ◌<◌, String, ◌≡◌, refl, inl, inr, true, false, not, Option, none, some, List, [],
  arith, leb, eqb, if◌then◌else◌, Bool-cases, not-eq-true, &&-eq-true, length, append, strip_prefix,
  split_once,
}
use Prim.Native.Char.{Char, code}
use bitcoin_knowledge_base.Base.Split.{split_once-append}
use bitcoin_knowledge_base.Base.Decimal.{print, parse_below-print, print-digits}
use bitcoin_knowledge_base.Base.Text.Single.{IsWithout}
use bitcoin_knowledge_base.Model.Document.{Document}
use bitcoin_knowledge_base.Ingest.StorePage.{SyncPage}
use bitcoin_knowledge_base.Ingest.MailingList.{
  successor, year_and_month, parse_cursor, month_text, next_month, feed_url, cursor_after, precedes,
  messages, fetch_month,
}
use bitcoin_knowledge_base.Ingest.MailingList.Months.{month_text-IsWithout, read_number_lem}

split_once-without :
    (d : Char) (s : String) → IsWithout (code d) s → split_once s (String.◌∷◌ d "") ≡ none
unfolding split_once strip_prefix
split_once-without d String.[] h = refl
split_once-without d (String.◌∷◌ c s) h =
    let (own, rest) = &&-eq-true (not (eqb (code c) (code d))) _ h in
    rw (split_once-without d s rest) (rw (not-eq-true _ own) refl)

cursor_month : (month : String) → IsWithout 58 month → parse_cursor (some month) ≡ (month, 0)
unfolding parse_cursor
cursor_month month h = rw (split_once-without ":" month h, parse_cursor) refl

cursor_offset :
    (month : String) (o : ℕ)
    → IsWithout 58 month
    → o < 2 ^ 64
    → parse_cursor (some (append month (append ":" (print o)))) ≡ (month, o)
unfolding parse_cursor
cursor_offset month o h small =
    rw (split_once-append ":" month (print o) h, parse_cursor)
      (rw
        (read_number_lem (2 ^ 64) o (print o) (print-digits o) (parse_below-print (2 ^ 64) o small))
        refl)

next_month-IsWithout : (month : String) → IsWithout 58 (next_month month)
unfolding next_month
next_month-IsWithout month =
    let after = successor (year_and_month month) in month_text-IsWithout after.0 after.1

-- The cursor after a page of a past month.
cursor_after-past :
    (y m o count : ℕ) (current : String)
    → o + count < 2 ^ 64
    → precedes (month_text y m) current ≡ true
    → parse_cursor (cursor_after (month_text y m) o count current)
      ≡ (if leb 10 count then (month_text y m, o + count) else (next_month (month_text y m), 0))
unfolding cursor_after
cursor_after-past y m o count current small past =
    let moved =
      cursor_month (next_month (month_text y m)) (next_month-IsWithout (month_text y m)) in
    elim (Bool-cases (leb 10 count)) [
      | inl t ↦
          let some_there : eqb count 0 ≡ false = ground (arith, t) in
          rw (some_there, t, cursor_after)
            (cursor_offset (month_text y m) (o + count) (month_text-IsWithout y m) small)
      | inr f ↦ elim (Bool-cases (eqb count 0)) [
        | inl z ↦ rw (z, past, cursor_after) (rw f moved)
        | inr n ↦ rw (n, f, past, cursor_after) moved
      ]
    ]

-- In a past month, a page of ten entries or more is followed by what comes after it in the month, and
-- a shorter page by the next month from its start: the cursor that the page returns says so.
pub fetch_month-cursor :
    {Entry : Type 0} (base_url : String) (feed : String → Option (List Entry))
    (document : Entry → Option Document) (current : String) (cursor : Option String) (y m o : ℕ)
    (entries : List Entry)
    → o + length entries < 2 ^ 64
    → precedes (month_text y m) current ≡ true
    → parse_cursor cursor ≡ (month_text y m, o)
    → feed (feed_url base_url (month_text y m) o) ≡ some entries
    → (page : SyncPage) × (fetch_month base_url feed document current cursor ≡ some page)
      × (parse_cursor page.next_cursor ≡ (
          if leb 10 (length entries)
          then (month_text y m, o + length entries)
          else (next_month (month_text y m), 0)))
unfolding fetch_month
fetch_month-cursor base_url feed document current cursor y m o entries small past e found = (
  record {
    checkpoint = none;
    documents = messages document entries;
    references = [];
    next_cursor = cursor_after (month_text y m) o (length entries) current;
  },
  rw e (rw found refl),
  cursor_after-past y m o (length entries) current small past,
)
