-- ===== src/Ingest/Backfill/Tests.antt =====
-- A commit and an issue (bkb-ingest/src/sources/reconcile.rs).
use bitcoin_knowledge_base.Base.{◌≡◌, refl, none, some, [], ◌∷◌, map, arith, filter, starts_with}
use bitcoin_knowledge_base.Model.SourceType
use bitcoin_knowledge_base.Store.Tests.{after_page, commit_doc, issue_doc}
use bitcoin_knowledge_base.Ingest.Backfill.{from_forge}
use bitcoin_knowledge_base.Ingest.Backfill.Laws.{backfill, backfill_lem}
use bitcoin_knowledge_base.Ingest.Backfill.Rows.{IsAscending}

in_order : IsAscending 1 after_page.documents
in_order = (omega arith, (omega arith, (omega arith, (omega arith, tt))))

backfill_lem_example :
    backfill 3 after_page none
    ≡ some (map (λ r. r.doc) (filter (λ r. from_forge r.doc) after_page.documents))
backfill_lem_example = backfill_lem 3 after_page in_order (omega arith)

both_from_forge :
    map (λ r. r.doc) (filter (λ r. from_forge r.doc) after_page.documents)
    ≡ commit_doc (some 1) ∷ issue_doc (some 2) ∷ []
unfolding from_forge SourceType.as_str starts_with
both_from_forge = refl
