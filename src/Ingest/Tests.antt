-- ===== src/Ingest/Tests.antt =====
-- Runs of the queue and of the limiter (bkb-ingest/src/queue.rs, bkb-ingest/src/rate_limiter.rs).
use bitcoin_knowledge_base.Base.{
  ℕ, ◌+◌, ◌-◌, ◌^◌, ◌≤◌, ◌<◌, String, ◌≡◌, refl, ◌⊎◌, Bool, true, false, Option, none, some, List,
  [], ◌∷◌, arith, ◌==◌, leb, if◌then◌else◌, unwrap_or, All, concat, strip_prefix, starts_with,
  first_segment, split_char,
}
use bitcoin_knowledge_base.Base.Decimal.{print, parse_below}
use bitcoin_knowledge_base.Model.SyncStatus.{ok}
use bitcoin_knowledge_base.Model.Document.{Document, Reference, SyncState}
use bitcoin_knowledge_base.Store.Tables.{Db, Mention}
use bitcoin_knowledge_base.Store.Writes.{
  write_references, upsert_mentions, upsert_sync_state, write_sync_state,
}
use bitcoin_knowledge_base.Store.Pages.{
  retained, write_page, fresh_refs, fresh_mentions, commit_page,
}
use bitcoin_knowledge_base.Reconcile.Observe.{observe_all, settle_all, reconcile}
use bitcoin_knowledge_base.Ingest.RateLimiter.{RateLimiter, acquire, acquire-after_wait, margin}
use bitcoin_knowledge_base.Ingest.Schedule.{
  SyncJob, low, rank, less, pop_from, peek, pop, backoff_secs, Precedes,
}
use bitcoin_knowledge_base.Ingest.Schedule.Laws.{jobs_of, pop-peek, backoff_secs-bounds}
use bitcoin_knowledge_base.Ingest.StorePage.{
  SyncPage, page_cursor, page_state, adapter_refs, page_refs, page_mentions, store_page,
}
use bitcoin_knowledge_base.Ingest.StorePage.Laws.{HasCursor, store_page-HasCursor}
use bitcoin_knowledge_base.Ingest.Execute.{Fetch, fetched, execute_job, run_once}
use bitcoin_knowledge_base.Ingest.Polling.{PollCursor, resume, page_of, resume-page_of}
use bitcoin_knowledge_base.Ingest.Execute.Laws.{
  start_cursor, execute_job-HasCursor, run_once-jobs_of,
}

abbrev low_quota : RateLimiter
low_quota = record { limit = 60; remaining = 3; reset_at = 1000; safety_margin = 100 }

told_to_wait : acquire low_quota 990 ≡ (some 11, low_quota)
unfolding acquire
told_to_wait = refl

acquire-after_wait_example :
    (acquire low_quota (990 + 11) ≡ (none, record low_quota { remaining = 60 }))
    × ((3 ≤ margin low_quota) × (990 < 1000))
acquire-after_wait_example = acquire-after_wait low_quota low_quota 990 11 told_to_wait

abbrev job_at : String → ℕ → SyncJob
job_at id next_run = record {
  source_id = id;
  priority = low;
  cursor = none;
  next_run = next_run;
  retry_count = 0;
  base_interval = 600;
}

abbrev two_jobs : List SyncJob
two_jobs = job_at "irc:bitcoin" 50 ∷ job_at "bips" 20 ∷ []

first_job : peek two_jobs ≡ some (job_at "bips" 20)
unfolding peek pop_from less rank
first_job = refl

pop-peek_example :
    All (Precedes (job_at "bips" 20)) two_jobs
    × ((id : String) → jobs_of id (job_at "bips" 20 ∷ pop two_jobs) ≡ jobs_of id two_jobs)
pop-peek_example = pop-peek two_jobs (job_at "bips" 20) first_job

backoff_secs-bounds_example :
    ((60 ≤ backoff_secs 7) × (backoff_secs 7 ≤ 1920)) × ((7 < 6) ⊎ (backoff_secs 7 ≡ 1920))
backoff_secs-bounds_example = backoff_secs-bounds 7 (omega arith)

abbrev empty : Db
empty = record {
  documents = [];
  links = [];
  aliases = [];
  refs = [];
  next_ref = 1;
  concepts = [];
  mentions = [];
  change_log = [];
  next_seq = 1;
  sync_states = [];
}

abbrev no_evidence : Document → List Reference × List Mention
no_evidence doc = ([], [])

abbrev any_date : String → Bool
any_date s = true

abbrev last_page : SyncPage
last_page = record {
  checkpoint = some "2024-01-01";
  documents = [];
  references = [];
  next_cursor = none;
}

abbrev bips_state : SyncState
bips_state = record {
  source_id = "bips";
  source_type = "bips";
  source_repo = none;
  last_cursor = some "2024-01-01";
  last_synced_at = some 7;
  next_run_at = none;
  status = ok;
  error_message = none;
  retry_count = 0;
  items_found = 0;
}

stored_page :
    store_page no_evidence any_date "bips" none last_page 7 empty
    ≡ some (record empty { sync_states = bips_state ∷ [] }, some "2024-01-01")
unfolding store_page page_state page_cursor adapter_refs page_refs page_mentions first_segment
    commit_page retained write_page fresh_refs fresh_mentions write_references upsert_mentions
    reconcile observe_all settle_all write_sync_state upsert_sync_state
stored_page = refl

store_page-HasCursor_example :
    (some "2024-01-01" ≡ page_cursor last_page none)
    × HasCursor "bips" (some "2024-01-01") (record empty { sync_states = bips_state ∷ [] })
store_page-HasCursor_example =
    store_page-HasCursor no_evidence any_date "bips" none last_page 7 empty
      (record empty { sync_states = bips_state ∷ [] }) (some "2024-01-01") stored_page

abbrev answer : String → Option String → Fetch
answer id cursor = fetched last_page

abbrev ran : SyncJob × Db
ran = execute_job no_evidence any_date answer 7 30 empty (job_at "bips" 20)

execute_job-HasCursor_example :
    (ran.0.source_id ≡ "bips")
    × (((ran.1 ≡ empty) × (ran.0.cursor ≡ start_cursor empty (job_at "bips" 20)))
        ⊎ ((page : SyncPage) × (answer "bips" (start_cursor empty (job_at "bips" 20))
              ≡ fetched page)
            × HasCursor "bips" ran.0.cursor ran.1))
execute_job-HasCursor_example =
    execute_job-HasCursor no_evidence any_date answer 7 30 empty (job_at "bips" 20)

run_once-jobs_of_example :
    jobs_of "bips"
      (run_once no_evidence any_date answer 7 25 30 (record { jobs = two_jobs; db = empty })).jobs
    ≡ 1
run_once-jobs_of_example =
    run_once-jobs_of no_evidence any_date answer 7 25 30 (record { jobs = two_jobs; db = empty })
      "bips"

abbrev first_page : PollCursor
first_page = record {
  version = 1;
  since = none;
  until = 900000000000000;
  page = 3;
  complete = false;
  last_full = 900000000000000;
  pending = [];
  child_page = 1;
  more_parents = true;
  review_ids = [];
}

abbrev print_time : ℕ → String
unfolding print
print_time t = print t

abbrev read_time : String → Option ℕ
unfolding parse_below
read_time s = parse_below (2 ^ 64) s

-- A codec for the cursors that have read no reviews.
unfoldable encode : PollCursor → String
unfolding print
encode c = concat (
    "{"
    ∷ print c.version
    ∷ ","
    ∷ print c.until
    ∷ ","
    ∷ print c.page
    ∷ ","
    ∷ print c.last_full
    ∷ (if c.complete then ",1" else ",0")
    ∷ [])

abbrev number : String → ℕ
unfolding parse_below
number s = unwrap_or (parse_below (2 ^ 64) s) 0

unfoldable decode : String → Option PollCursor
unfolding split_char strip_prefix number
decode s = elim (split_char 44 (unwrap_or (strip_prefix s "{") "")) [
  | version ∷ until ∷ page ∷ last_full ∷ complete ∷ [] ↦ some (record first_page {
    version = number version;
    until = number until;
    page = number page;
    last_full = number last_full;
    complete = complete == "1";
  })
  | _ ↦ none
]

read_back :
    decode (encode (record first_page { complete = true }))
    ≡ some (record first_page { complete = true })
unfolding encode decode number print parse_below split_char strip_prefix
read_back = refl

object : starts_with (encode (record first_page { complete = true })) "{" ≡ true
unfolding encode print starts_with strip_prefix
object = refl

resume-page_of_example :
    resume print_time decode read_time
      (page_cursor (page_of encode first_page [] false) (some "2023-12-31T00:00:00Z"))
      900000000000001
    ≡ some (
        if false then record first_page { complete = false } else record {
          version = 1;
          since =
              if leb 604800000000000 (900000000000001 - first_page.last_full)
              then none
              else some (print_time (first_page.until - 300000000000));
          until = 900000000000001;
          page = 1;
          complete = false;
          last_full =
              if leb 604800000000000 (900000000000001 - first_page.last_full)
              then 900000000000001
              else first_page.last_full;
          pending = [];
          child_page = 1;
          more_parents = true;
          review_ids = [];
        })
resume-page_of_example =
    resume-page_of print_time encode decode read_time first_page [] false
      (some "2023-12-31T00:00:00Z") 900000000000001 read_back object refl
