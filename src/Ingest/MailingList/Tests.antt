-- ===== src/Ingest/MailingList/Tests.antt =====
-- A short page of December (bkb-ingest/src/sources/mailing_list.rs).
use bitcoin_knowledge_base.Base.{
  suc, ◌+◌, String, ◌≡◌, refl, true, Option, none, some, List, [], ◌∷◌, arith, leb, if◌then◌else◌,
  length, strip_prefix, split_once, split_char,
}
use bitcoin_knowledge_base.Base.Decimal.{print, parse_below}
use bitcoin_knowledge_base.Model.Document.{Document}
use bitcoin_knowledge_base.Store.Specs.{padded}
use bitcoin_knowledge_base.Ingest.StorePage.{SyncPage}
use bitcoin_knowledge_base.Ingest.MailingList.{
  parse_cursor, read_number, month_text, padded_year, year_and_month, next_month, month_date_range,
  feed_url, precedes, fetch_month,
}
use bitcoin_knowledge_base.Ingest.MailingList.Months.{next_month-month_text}
use bitcoin_knowledge_base.Ingest.MailingList.Laws.{fetch_month-cursor}

next_month-month_text_example :
    next_month (month_text 2024 12)
    ≡ (if leb 12 12 then month_text (suc 2024) 1 else month_text 2024 (suc 12))
next_month-month_text_example = next_month-month_text 2024 12 (omega arith) (omega arith)

-- What runs in the tests.
opened : Unit {0}
unfolding next_month month_text padded_year padded print year_and_month read_number parse_below
    split_char strip_prefix parse_cursor split_once month_date_range feed_url
opened = tt

months :
    (next_month "2024-12" ≡ "2025-01")
    × (next_month "2024-09" ≡ "2024-10")
    × (month_date_range "2024-12" ≡ ("2024-12-01", "2025-01-01"))
    × (parse_cursor (some "2024-12:15") ≡ ("2024-12", 15))
unfolding opened
months = (refl, refl, refl, refl)

abbrev two_entries : List String
two_entries = "a" ∷ "b" ∷ []

abbrev one_feed : String → Option (List String)
one_feed url = some two_entries

abbrev no_document : String → Option Document
no_document entry = none

cursor_read : parse_cursor (some "2024-12:15") ≡ (month_text 2024 12, 15)
unfolding opened
cursor_read = refl

december_is_past : precedes (month_text 2024 12) "2025-03" ≡ true
unfolding opened
december_is_past = refl

fetch_month-cursor_example :
    (page : SyncPage) × (fetch_month "https://gnusha.org/pi/bitcoindev" one_feed no_document
        "2025-03"
        (some "2024-12:15")
      ≡ some page)
    × (parse_cursor page.next_cursor ≡ (
        if leb 10 (length two_entries)
        then (month_text 2024 12, 15 + length two_entries)
        else (next_month (month_text 2024 12), 0)))
fetch_month-cursor_example =
    fetch_month-cursor "https://gnusha.org/pi/bitcoindev" one_feed no_document "2025-03"
      (some "2024-12:15") 2024 12 15 two_entries (omega arith) december_is_past cursor_read refl
