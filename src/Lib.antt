-- ===== src/Lib.antt =====
-- A model of the Bitcoin knowledge base: records of issues, pull requests, commits, posts and
-- specifications are fetched from many sources, stored in one SQLite database, and the records
-- that two forges hold of one conversation are joined into groups.
--
-- Base: shared names, Boolean tests, lists and texts (texts of the standard library by clauses),
--   decimal numbers and sorted lists.
-- Model (bkb-core/src/model.rs): SourceType, RefType and SyncStatus with their names, Document
--   with ids and links, Json for serde_json's values. Names and Ids hold their lemmas.
-- Repository (bkb-core/src/repository.rs): the repositories that moved to the Forgejo instance.
-- Mirror (bkb-core/src/mirror.rs): parse, which reads the text of a mirrored record. Whether a
--   date has its format (chrono) is the parameter `valid_date`.
-- Store.Tables (bkb-core/src/schema.rs): the tables as lists of rows. Store.Writes and
--   Store.Pages (bkb-store/src/sqlite.rs): the statements and the transactions. An SQL error is
--   `none`, on which the transaction rolls back. Store.Reset deletes a source type; how LIKE
--   matches is a parameter, and so is which entries of the change log are too old, since the
--   database sets their times. Store.Grown, Store.Pages.Keeps, Store.Pages.Upsert,
--   Store.Pages.Immutable and Store.Reset.Keeps hold their lemmas. Store.Valid states the
--   invariant of the database, and Store.Valid.Steps the calls of the store as a step relation.
--   Store.FtsQuery builds the query of a search, Store.Specs looks up
--   specifications, Store.Timeline orders the groups of a concept, Store.References finds the
--   references to a record (bkb-store/src/sqlite.rs).
-- Reconcile (bkb-store/src/reconcile.rs): Lookup reads records and groups, Bind joins groups,
--   Target resolves references, Observe finds evidence and runs the whole, Sound and Run
--   hold the lemmas on it. Reconcile.View reads a group as one record, with its references and concepts.
-- Model.Concepts (bkb-core/src/bitcoin.rs) is the vocabulary, Ingest.Enrichment
--   (bkb-ingest/src/enrichment.rs) tags texts by it. How an alias matches a text (a regular
--   expression) is a parameter, and so are the references of a text, whose search
--   (bkb-ingest/src/forge_refs.rs) is not modelled.
-- Ingest.RateLimiter (bkb-ingest/src/rate_limiter.rs), Ingest.Schedule, Ingest.StorePage and
--   Ingest.Execute (bkb-ingest/src/queue.rs): the limiter, the order of jobs, the storing of a
--   page and the run of a job. Ingest.Polling (bkb-ingest/src/sources/http.rs): the cursor of a
--   polled repository, with the texts of JSON and of times as parameters; Ingest.Headers reads
--   the headers of an answer. Ingest.Backfill (bkb-ingest/src/sources/reconcile.rs): the source
--   that reads the database itself, page by page. Ingest.MailingList
--   (bkb-ingest/src/sources/mailing_list.rs): the walk through an archive by months; the entries
--   of a feed, the raw messages and the formats of times are parameters. Ingest.Mail reads the
--   headers and the body of a message.
-- Ingest.Metrics (bkb-ingest/src/metrics.rs): the window of requests, the jobs, and the escaping
--   of texts for the two pages.
--
-- A queue's job calls store_page, which calls commit_page or reconcile_page of the store; these
-- write the tables and call reconcile on the records of the page, inside their transaction.
--
-- Every function is total: the loops of the code run over lists. The run of the backfill has a
-- number of pages as fuel, for which the number of records and one is enough. Times, counts and
-- confidences are natural numbers (a confidence is in hundredths); durations of the queue are
-- nanoseconds. The counters of the code stay far below the width of their types, so that no
-- wrap-around is modelled.
--
-- Not modelled: the other source adapters, the search for references in a text, the server and
-- the MCP bridge (HTTP, HTML and git), the upgrade of old databases, running a search and the
-- queries that are SQL text alone, the full-text index, file sizes and the text of the pages.
pub mod Base
pub mod Model
pub mod Repository
pub mod Mirror
pub mod Store
pub mod Reconcile
pub mod Ingest
