-- ===== src/Ingest/Headers/Tests.antt =====
-- Two answers (bkb-ingest/src/sources/http.rs: more_pages, retry_after).
use bitcoin_knowledge_base.Base.{
  ℕ, String, ◌≡◌, refl, true, false, Option, none, some, ◌==◌, if◌then◌else◌, strip_prefix,
  split_once, split_char,
}
use bitcoin_knowledge_base.Base.Decimal.{parse_below}
use bitcoin_knowledge_base.Ingest.MailingList.{read_number}
use bitcoin_knowledge_base.Ingest.Headers.{contains, more_pages, retry_after}

abbrev linked : String → Option String
linked name = if name == "link" then some "<a>; rel=\"prev\", <b>; rel=\"next\"" else none

abbrev counted : String → Option String
counted name = if name == "x-total-count" then some "75" else none

abbrev asked : String → Option String
asked name = if name == "retry-after" then some "120" else none

abbrev no_date : String → Option ℕ
no_date s = none

pages :
    (more_pages linked 1 50 0 ≡ true)
    × (more_pages counted 1 50 50 ≡ true)
    × (more_pages counted 2 50 25 ≡ false)
unfolding more_pages contains split_char split_once strip_prefix read_number parse_below
pages = (refl, refl, refl)

waits : (retry_after no_date 0 asked ≡ 120) × (retry_after no_date 0 linked ≡ 60)
unfolding retry_after read_number parse_below strip_prefix
waits = (refl, refl)
