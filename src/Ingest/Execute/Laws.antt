-- ===== src/Ingest/Execute/Laws.antt =====
-- A turn of the loop loses no job, and a job's cursor does not run ahead of the stored one
-- (bkb-ingest/src/queue.rs: run, execute_job).
use bitcoin_knowledge_base.Base.{
  ℕ, String, ◌≡◌, refl, sym, ◌∙◌, subst, ◌⊎◌, inl, inr, Bool, Option, none, some, List, leb,
  if◌then◌else◌, Bool-cases, Option-cases, is_some, ◌>>=◌,
}
use bitcoin_knowledge_base.Model.Document.{Document, Reference}
use bitcoin_knowledge_base.Store.Tables.{Db, Mention}
use bitcoin_knowledge_base.Store.Writes.{get_sync_state}
use bitcoin_knowledge_base.Ingest.Schedule.{SyncJob, peek}
use bitcoin_knowledge_base.Ingest.Schedule.Laws.{jobs_of, pop-peek}
use bitcoin_knowledge_base.Ingest.StorePage.{SyncPage, store_page}
use bitcoin_knowledge_base.Ingest.StorePage.Laws.{HasCursor, store_page-HasCursor}
use bitcoin_knowledge_base.Ingest.Execute.{
  Fetch, fetched, deferred, failed, World, refresh, retry, committed, execute_job, run_once,
  stored_cursor,
}

-- The cursor that a run starts from.
abbrev pub start_cursor : Db → SyncJob → Option String
start_cursor db job =
    if is_some (get_sync_state job.source_id db.sync_states >>= (λ t. t.last_cursor))
    then job.cursor
    else none

refresh-cursor : (db : Db) (job : SyncJob) → (refresh db job).cursor ≡ start_cursor db job
unfolding refresh
refresh-cursor db job = elim (Bool-cases (is_some (stored_cursor db job.source_id))) [
  | inl t ↦ rw (t, refresh) refl
  | inr f ↦ rw (f, refresh) refl
]

refresh-source_id : (db : Db) (job : SyncJob) → (refresh db job).source_id ≡ job.source_id
unfolding refresh
refresh-source_id db job = elim (Bool-cases (is_some (stored_cursor db job.source_id))) [
  | inl t ↦ rw (t, refresh) refl
  | inr f ↦ rw (f, refresh) refl
]

Fetch-cases :
    (f : Fetch)
    → ((secs : ℕ) × (f ≡ deferred secs)) ⊎ ((f ≡ failed) ⊎ ((page : SyncPage) × (f ≡ fetched page)))
Fetch-cases (fetched page) = inr (inr (page, refl))
Fetch-cases (deferred secs) = inl (secs, refl)
Fetch-cases failed = inr (inl refl)

module _ (enrich : Document → List Reference × List Mention) (valid_date : String → Bool)
    (fetch : String → Option String → Fetch) where
  -- What a run does to the cursor: nothing and the store is as before, or it is stored.
  abbrev Ran : Db → SyncJob → SyncJob × Db → Type 0
  Ran db job (job', db') =
      (job'.source_id ≡ job.source_id)
      × (((db' ≡ db) × (job'.cursor ≡ job.cursor))
          ⊎ ((page : SyncPage) × (fetch job.source_id job.cursor ≡ fetched page)
              × HasCursor job.source_id job'.cursor db'))

  Ran-page :
      (utc later : ℕ) (db : Db) (job : SyncJob) (page : SyncPage)
      → fetch job.source_id job.cursor ≡ fetched page
      → Ran db job (elim (store_page enrich valid_date job.source_id job.cursor page utc db) [
        | none ↦ (retry later job, db)
        | some (db', cursor) ↦ (committed later page cursor job, db')
      ])
  unfolding retry committed
  Ran-page utc later db job page answered =
      elim (Option-cases (store_page enrich valid_date job.source_id job.cursor page utc db)) [
        | inl n ↦ rw n (refl, inl (refl, refl))
        | inr ((db', cursor), e) ↦ rw e (
          refl,
          inr (
            page,
            answered,
            (store_page-HasCursor enrich valid_date job.source_id job.cursor page utc db db' cursor
                e).1,
          ),
        )
      ]

  -- A run ends with a job of the same source. It starts from the job's cursor, or from none if the
  -- store has no cursor for the source. Either the store is as before and the job ends with the cursor
  -- that the run started from; or the source answered with a page for that cursor, and the cursor that
  -- the job ends with is the one that is stored.
  pub execute_job-HasCursor :
      (utc later : ℕ) (db : Db) (job : SyncJob)
      → ((execute_job enrich valid_date fetch utc later db job).0.source_id ≡ job.source_id)
        × ((((execute_job enrich valid_date fetch utc later db job).1 ≡ db)
              × ((execute_job enrich valid_date fetch utc later db job).0.cursor
                  ≡ start_cursor db job))
            ⊎ ((page : SyncPage) × (fetch job.source_id (start_cursor db job) ≡ fetched page)
                × HasCursor job.source_id
                    (execute_job enrich valid_date fetch utc later db job).0.cursor
                    (execute_job enrich valid_date fetch utc later db job).1))
  unfolding execute_job retry
  execute_job-HasCursor utc later db job =
      let job' = refresh db job in
      let same = refresh-source_id db job in
      let all : Ran db job' (execute_job enrich valid_date fetch utc later db job) =
        elim (Fetch-cases (fetch job'.source_id job'.cursor)) [
          | inl (secs, e) ↦ rw (e, execute_job) (refl, inl (refl, refl))
          | inr (inl e) ↦ rw (e, execute_job) (refl, inl (refl, refl))
          | inr (inr (page, e)) ↦
              let outcome : execute_job enrich valid_date fetch utc later db job
                  ≡ elim (store_page enrich valid_date job'.source_id job'.cursor page utc db) [
                    | none ↦ (retry later job', db)
                    | some (db', cursor) ↦ (committed later page cursor job', db')
                  ] =
                rw (e, execute_job) refl in
              subst (Ran db job') (sym outcome) (Ran-page utc later db job' page e)
        ] in
      (all.0 ∙ same, rw (refresh-cursor db job) at (rw same at all.1))

  -- A turn of the loop keeps the number of jobs of every source.
  pub run_once-jobs_of :
      (utc now later : ℕ) (w : World) (id : String)
      → jobs_of id (run_once enrich valid_date fetch utc now later w).jobs ≡ jobs_of id w.jobs
  unfolding run_once
  run_once-jobs_of utc now later w id = elim (Option-cases (peek w.jobs)) [
    | inl n ↦ rw (n, run_once) refl
    | inr (job, e) ↦
        let (_, kept) = pop-peek w.jobs job e in
        let same = (execute_job-HasCursor utc later w.db job).0 in
        elim (Bool-cases (leb job.next_run now)) [
          | inl t ↦ rw (e, t, run_once) (rw same (kept id))
          | inr f ↦ rw (e, f, run_once) refl
        ]
  ]
