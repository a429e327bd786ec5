-- ===== src/Ingest/Execute.antt =====
-- The run of one job and a turn of the queue's loop (bkb-ingest/src/queue.rs: add_job, run,
-- execute_job). What a source fetches and what enrichment finds are parameters; metrics are left out.
pub mod Laws
use bitcoin_knowledge_base.Base.{
  ℕ, zero, suc, ◌+◌, ◌-◌, ◌*◌, ◌/◌, ◌%◌, ◌^◌, ◌≤◌, ◌<◌, min, max, String, ◌≡◌, refl, sym, ap, ◌∙◌,
  subst, ◌≢◌, ◌↔◌, ◌⊎◌, inl, inr, Bool, true, false, not, ◌&&◌, ◌||◌, Option, none, some, List, [],
  ◌∷◌, ◌++◌, map, append_assoc, append-nil, arith, ◌==◌, eq_iff, eq_refl, ltb, leb, eqb,
  if◌then◌else◌, Bool-cases, Option-cases, eqb_iff, option_eq, option_eq_iff, is_some, unwrap_or,
  or_else, ◌>>=◌, ◌>>◌, guard, >>=-eq-some, guard-eq-some, not-eq-true, some_inj, &&-eq-true,
  ||-eq-true, length, take, any, all, filter, find, last?, All, In, here, there, In-filter,
  In-of_filter, In-append_left, In-append_right, In-of_append, All-In, length-append, find-In,
  In-any, any-In, all-In, In-map, In-of_map, append, concat, char_eq, char_eq_iff, char_eq_refl,
  is_empty, all_chars, any_char, is_ascii_digit, is_ascii_alphanumeric, is_whitespace, strip_prefix,
  starts_with, strip_suffix, split_once, rsplit_once, last_segment, first_segment, replace_first,
  replace, trim_start, trim_end, trim, split_char, split_whitespace, strip_prefix-append,
  strip_prefix_sound,
}
use mathlib.Core.Option
use bitcoin_knowledge_base.Model.Document.{Document, Reference, SyncState}
use bitcoin_knowledge_base.Store.Tables.{Db, Mention}
use bitcoin_knowledge_base.Store.Writes.{get_sync_state}
use bitcoin_knowledge_base.Ingest.Schedule.{
  SyncJob, peek, pop, adaptive_interval, backoff_secs, second,
}
use bitcoin_knowledge_base.Ingest.StorePage.{SyncPage, store_page}

-- What a source answers: a page, a wait in seconds, or another error.
pub data Fetch : Type 0 where
  fetched : SyncPage → Fetch
  deferred : ℕ → Fetch
  failed : Fetch

abbrev pub stored_cursor : Db → String → Option String
stored_cursor db id = get_sync_state id db.sync_states >>= (λ t. t.last_cursor)

-- `add_job`: a job without a cursor takes up the stored one.
unfoldable pub restore : Db → SyncJob → SyncJob
restore db job =
    if is_some job.cursor then job else record job { cursor = stored_cursor db job.source_id }

-- A job whose stored cursor is gone starts from scratch.
unfoldable pub refresh : Db → SyncJob → SyncJob
refresh db job =
    if is_some (stored_cursor db job.source_id) then job else record job { cursor = none }

unfoldable pub retry : ℕ → SyncJob → SyncJob
retry later job = record job {
  retry_count = suc job.retry_count;
  next_run = later + backoff_secs (suc job.retry_count) * second;
}

unfoldable pub committed : ℕ → SyncPage → Option String → SyncJob → SyncJob
committed later page cursor job = record job {
  cursor = cursor;
  next_run =
      later
      + (if is_some page.next_cursor
          then 0
          else adaptive_interval job.base_interval (length page.documents));
  retry_count = 0;
}

pub record World : Type 0 where
  pub jobs : List SyncJob
  pub db : Db

module _ (enrich : Document → List Reference × List Mention) (valid_date : String → Bool)
    (fetch : String → Option String → Fetch) where
  -- `utc` is the time that is stored, `later` the clock after the fetch.
  unfoldable pub execute_job : ℕ → ℕ → Db → SyncJob → SyncJob × Db
  execute_job utc later db job =
      let job' = refresh db job in
      elim (fetch job'.source_id job'.cursor) [
        | deferred secs ↦ (record job' { next_run = later + secs * second }, db)
        | failed ↦ (retry later job', db)
        | fetched page ↦
            elim (store_page enrich valid_date job'.source_id job'.cursor page utc db) [
              | none ↦ (retry later job', db)
              | some (db', cursor) ↦ (committed later page cursor job', db')
            ]
      ]

  -- A turn of the loop: the first job, if its time has come, runs and is queued again.
  unfoldable pub run_once : ℕ → ℕ → ℕ → World → World
  unfolding execute_job
  run_once utc now later w = elim (peek w.jobs) [
    | none ↦ w
    | some job ↦
        let (job', db') = execute_job utc later w.db job in
        if leb job.next_run now then record { jobs = job' ∷ pop w.jobs; db = db' } else w
  ]
