-- ===== src/Store/FtsQuery/Tests.antt =====
-- Searches (bkb-store/src/sqlite.rs: build_fts_query).
use bitcoin_knowledge_base.Base.{
  ◌≡◌, refl, false, strip_prefix, starts_with, strip_suffix, replace, trim, split_whitespace,
}
use bitcoin_knowledge_base.Store.FtsQuery.{
  build_fts_query, query_of, quote_term, join_terms, ends_with,
}
use bitcoin_knowledge_base.Store.FtsQuery.Laws.{inside_after, build_fts_query-balanced}

build_fts_query-balanced_example :
    inside_after false (build_fts_query "lightning:\"channel close") ≡ false
build_fts_query-balanced_example = build_fts_query-balanced "lightning:\"channel close"

-- The column filter of the last search is not quoted.
queries :
    (build_fts_query "lightning:\"channel close" ≡ "\"lightning:channel\" close")
    × (build_fts_query "taproot" ≡ "taproot*")
    × (build_fts_query " \" " ≡ "\"\"")
    × (build_fts_query "title:x*" ≡ "title:x*")
unfolding build_fts_query query_of quote_term join_terms ends_with trim replace split_whitespace
    strip_suffix starts_with strip_prefix
queries = (refl, refl, refl, refl)
