-- ===== src/Ingest.antt =====
-- bkb-ingest: the limiter of requests, the queue of sync jobs and the storing of fetched pages.
pub mod RateLimiter
pub mod Schedule
pub mod StorePage
pub mod Execute
pub mod Polling
pub mod Headers
pub mod Backfill
pub mod Mail
pub mod MailingList
pub mod Metrics
pub mod Enrichment
mod Tests
