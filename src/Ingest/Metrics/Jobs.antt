-- ===== src/Ingest/Metrics/Jobs.antt =====
-- The jobs that are registered and those that have run (bkb-ingest/src/metrics.rs: register_job,
-- record_job_run, pending_jobs, render_dashboard_html).
use bitcoin_knowledge_base.Base.{
  suc, ◌+◌, String, ◌≡◌, refl, sym, ap, ◌∙◌, inl, inr, Bool, true, false, not, ◌&&◌, ◌||◌, List, [],
  ◌∷◌, ◌++◌, arith, ◌==◌, eq_iff, eq_refl, if◌then◌else◌, Bool-cases, is_some, ||-eq-true, length,
  any, filter, length-append,
}
use bitcoin_knowledge_base.Ingest.Metrics.{
  Metrics, JobRunStats, empty, register_job, record_job_run, contains_key, insert_stats,
  pending_jobs, job_stats_snapshot, place_stats, num_ok, num_paging, num_err, num_pending,
}
use bitcoin_knowledge_base.Base.Sorted.{before}

abbrev member : String → List String → Bool
member id ids = any (λ k. k == id) ids

-- A job is registered once, before it runs, and runs any number of times.
pub data Reached : Metrics → Type 0 where
  fresh : Reached empty
  registered :
      {m : Metrics} (id : String)
      → Reached m
      → member id m.registered_jobs ≡ false
      → Reached (register_job id m)
  ran :
      {m : Metrics} (id : String) (s : JobRunStats)
      → Reached m
      → member id m.registered_jobs ≡ true
      → Reached (record_job_run id s m)

insert-contains :
    (id j : String) (s : JobRunStats) (ss : List (String × JobRunStats))
    → contains_key (insert_stats id s ss) j ≡ (id == j || contains_key ss j)
unfolding contains_key insert_stats
insert-contains id j s [] = refl
insert-contains id j s ((k, t) ∷ ss) =
    ground (arith, insert-contains id j s ss, eq_iff k id, eq_iff id j, eq_iff k j)

insert-length :
    (id : String) (s : JobRunStats) (ss : List (String × JobRunStats))
    → length (insert_stats id s ss) ≡ (if contains_key ss id then length ss else suc (length ss))
unfolding contains_key insert_stats
insert-length id s [] = refl
insert-length id s ((k, t) ∷ ss) = ground (arith, insert-length id s ss)

-- A job leaves the pending ones with its first run, and no other does.
pending-ran :
    (id : String) (s : JobRunStats) (m : Metrics) (ids : List String)
    → filter (λ j. not (contains_key (insert_stats id s m.job_stats) j)) ids
      ≡ filter (λ j. not (id == j)) (filter (λ j. not (contains_key m.job_stats j)) ids)
pending-ran id s m [] = refl
pending-ran id s m (x ∷ xs) = rw (insert-contains id x s m.job_stats) (elim (Bool-cases (id == x)) [
  | inl t ↦ elim (Bool-cases (contains_key m.job_stats x)) [
    | inl u ↦ rw t (rw u (pending-ran id s m xs))
    | inr v ↦ rw t (rw v (rw t (pending-ran id s m xs)))
  ]
  | inr f ↦ elim (Bool-cases (contains_key m.job_stats x)) [
    | inl u ↦ rw f (rw u (pending-ran id s m xs))
    | inr v ↦ rw f (rw v (rw f (ap (λ k. x ∷ k) (pending-ran id s m xs))))
  ]
])

pub pending_jobs-record_job_run :
    (id : String) (s : JobRunStats) (m : Metrics)
    → pending_jobs (record_job_run id s m) ≡ filter (λ j. not (id == j)) (pending_jobs m)
unfolding pending_jobs record_job_run
pending_jobs-record_job_run id s m = pending-ran id s m m.registered_jobs

abbrev IsOnce : List String → Type 0
IsOnce [] = Unit
IsOnce (x ∷ xs) = (member x xs ≡ false) × IsOnce xs

-- Taking out an id that is not there, and one that is there once.
without-absent :
    (id : String) (ids : List String)
    → member id ids ≡ false
    → filter (λ j. not (id == j)) ids ≡ ids
without-absent id [] h = refl
without-absent id (x ∷ xs) h = ground (arith, without-absent id xs, eq_iff id x, eq_iff x id)

length-without :
    (id : String) (ids : List String)
    → IsOnce ids
    → member id ids ≡ true
    → suc (length (filter (λ j. not (id == j)) ids)) ≡ length ids
length-without id [] o h = cc h
length-without id (x ∷ xs) (n, o) h = elim (Bool-cases (id == x)) [
  | inl t ↦ rw t (ap (λ k. suc (length k)) (without-absent id xs (rw ((eq_iff id x).0 t) n)))
  | inr f ↦ rw f (ap suc (length-without id xs o (ground (arith, h, f, eq_iff id x, eq_iff x id))))
]

member-filter :
    (p : String → Bool) (id : String) (ids : List String)
    → member id (filter p ids) ≡ (member id ids && p id)
member-filter p id [] = refl
member-filter p id (x ∷ xs) = elim (Bool-cases (x == id)) [
  | inl t ↦
      let same : x ≡ id = (eq_iff x id).0 t in
      rw same (ground (arith, member-filter p id xs, eq_refl id))
  | inr f ↦ ground (arith, member-filter p id xs, f)
]

IsOnce-filter : (p : String → Bool) (ids : List String) → IsOnce ids → IsOnce (filter p ids)
IsOnce-filter p [] o = tt
IsOnce-filter p (x ∷ xs) (n, o) = elim (Bool-cases (p x)) [
  | inl t ↦ rw t (member-filter p x xs ∙ rw n refl, IsOnce-filter p xs o)
  | inr f ↦ rw f (IsOnce-filter p xs o)
]

member-append :
    (j id : String) (ids : List String) → member j (ids ++ id ∷ []) ≡ (member j ids || id == j)
member-append j id [] = ground arith
member-append j id (x ∷ xs) = ground (arith, member-append j id xs)

IsOnce-append :
    (id : String) (ids : List String) → IsOnce ids → member id ids ≡ false → IsOnce (ids ++ id ∷ [])
IsOnce-append id [] o h = (refl, tt)
IsOnce-append id (x ∷ xs) (n, o) h = (
  member-append x id xs ∙ ground (arith, n, h, eq_iff x id, eq_iff id x),
  IsOnce-append id xs o (ground (arith, h)),
)

filter-append :
    (p : String → Bool) (id : String) (ids : List String)
    → p id ≡ true
    → filter p (ids ++ id ∷ []) ≡ filter p ids ++ id ∷ []
filter-append p id [] h = rw h refl
filter-append p id (x ∷ xs) h = elim (Bool-cases (p x)) [
  | inl t ↦ rw t (ap (λ k. x ∷ k) (filter-append p id xs h))
  | inr f ↦ rw f (filter-append p id xs h)
]

-- The ids that are registered are different, only they have run, and each is pending or has run.
record IsTallied (m : Metrics) : Type 0 where
  once : IsOnce m.registered_jobs
  known : (j : String) → contains_key m.job_stats j ≡ true → member j m.registered_jobs ≡ true
  tally : num_pending m + length m.job_stats ≡ length m.registered_jobs

registered-IsTallied :
    (id : String) (m : Metrics)
    → IsTallied m
    → member id m.registered_jobs ≡ false
    → IsTallied (register_job id m)
unfolding register_job num_pending pending_jobs
registered-IsTallied id m t h = record {
  once = IsOnce-append id m.registered_jobs t.once h;
  known = λ j c. member-append j id m.registered_jobs ∙ rw (t.known j c) refl;
  tally =
      let idle : contains_key m.job_stats id ≡ false =
        elim (Bool-cases (contains_key m.job_stats id)) [
          | inl c ↦ cc (h, t.known id c)
          | inr f ↦ f
        ] in
      rw (filter-append (λ j. not (contains_key m.job_stats j)) id m.registered_jobs (rw idle refl))
        (omega (
          arith,
          length-append (filter (λ j. not (contains_key m.job_stats j)) m.registered_jobs)
              (id ∷ []),
          length-append m.registered_jobs (id ∷ []),
          t.tally,
        ));
}

-- The run of a job that has run before, and the first run of a job.
ran_tally :
    (id : String) (s : JobRunStats) (m : Metrics)
    → IsTallied m
    → member id m.registered_jobs ≡ true
    → length (filter (λ j. not (id == j)) (pending_jobs m)) + length (insert_stats id s m.job_stats)
      ≡ length m.registered_jobs
unfolding num_pending pending_jobs
ran_tally id s m t h =
    let idle : String → Bool = λ j. not (contains_key m.job_stats j) in
    let listed = member-filter idle id m.registered_jobs in
    elim (Bool-cases (contains_key m.job_stats id)) [
      | inl c ↦
          let absent : member id (pending_jobs m) ≡ false = listed ∙ rw h (rw c refl) in
          rw (without-absent id (pending_jobs m) absent)
            (omega (arith, t.tally, rw c at (insert-length id s m.job_stats)))
      | inr f ↦
          let there : member id (pending_jobs m) ≡ true = listed ∙ rw h (rw f refl) in
          omega (
            arith,
            t.tally,
            rw f at (insert-length id s m.job_stats),
            length-without id (pending_jobs m) (IsOnce-filter idle m.registered_jobs t.once) there,
          )
    ]

ran-IsTallied :
    (id : String) (s : JobRunStats) (m : Metrics)
    → IsTallied m
    → member id m.registered_jobs ≡ true
    → IsTallied (record_job_run id s m)
unfolding record_job_run num_pending
ran-IsTallied id s m t h = record {
  once = t.once;
  known = λ j c. elim (||-eq-true (id == j) _ (sym (insert-contains id j s m.job_stats) ∙ c)) [
    | inl e ↦ rw (← (eq_iff id j).0 e) h
    | inr k ↦ t.known j k
  ];
  tally = rw (pending_jobs-record_job_run id s m) (ran_tally id s m t h);
}

empty-IsTallied : IsTallied empty
unfolding contains_key num_pending pending_jobs
empty-IsTallied = record { once = tt; known = λ j c. cc c; tally = refl }

Reached-IsTallied : (m : Metrics) → Reached m → IsTallied m
Reached-IsTallied _ fresh = empty-IsTallied
Reached-IsTallied _ (registered {m = m} id r h) =
    registered-IsTallied id m (Reached-IsTallied m r) h
Reached-IsTallied _ (ran {m = m} id s r h) = ran-IsTallied id s m (Reached-IsTallied m r) h

length-place_stats :
    (e : String × JobRunStats) (es : List (String × JobRunStats))
    → length (place_stats e es) ≡ suc (length es)
length-place_stats e [] = refl
length-place_stats e (f ∷ fs) = elim (Bool-cases (before e.0 f.0)) [
  | inl t ↦ rw t refl
  | inr n ↦ rw n (ap suc (length-place_stats e fs))
]

length-snapshot : (es : List (String × JobRunStats)) → length (job_stats_snapshot es) ≡ length es
unfolding job_stats_snapshot
length-snapshot [] = refl
length-snapshot (e ∷ es) =
    length-place_stats e (job_stats_snapshot es) ∙ ap suc (length-snapshot es)

-- Three tests of which one holds at a time.
length-split :
    (p q : String × JobRunStats → Bool) (es : List (String × JobRunStats))
    → length (filter (λ e. not (p e) && not (q e)) es)
        + (length (filter (λ e. not (p e) && q e) es) + length (filter p es))
      ≡ length es
length-split p q [] = omega arith
length-split p q (e ∷ es) = ground (arith, length-split p q es)

-- When each job is registered once, before it runs, the jobs that the progress bar counts as caught
-- up, paginating, failed and pending are together the registered jobs.
pub progress-total :
    (m : Metrics)
    → Reached m
    → num_ok m + (num_paging m + (num_err m + num_pending m)) ≡ length m.registered_jobs
unfolding num_ok num_paging num_err
progress-total m r =
    let t = Reached-IsTallied m r in
    omega (
      arith,
      t.tally,
      length-snapshot m.job_stats,
      length-split (λ e. is_some e.1.last_error) (λ e. e.1.paginating)
          (job_stats_snapshot m.job_stats),
    )
