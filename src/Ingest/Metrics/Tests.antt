-- ===== src/Ingest/Metrics/Tests.antt =====
-- Requests of two weeks, and two jobs of which one has run (bkb-ingest/src/metrics.rs).
use bitcoin_knowledge_base.Base.{
  ℕ, ◌+◌, ◌-◌, ◌≤◌, ◌≡◌, refl, true, false, not, none, some, List, [], ◌∷◌, arith, ◌==◌, length,
  any, filter, All, append,
}
use bitcoin_knowledge_base.Ingest.Metrics.{
  Metrics, JobRunStats, empty, register_job, record_job_run, record_request, record_minute,
  bump_last, prune, requests_last_day, requests_last_week, pending_jobs, num_ok, num_paging,
  num_err, num_pending,
}
use bitcoin_knowledge_base.Ingest.Metrics.Requests.{
  record_all, count_since, IsOrdered, requests-counted, requests-bounded,
}
use bitcoin_knowledge_base.Ingest.Metrics.Jobs.{
  Reached, fresh, registered, ran, progress-total, pending_jobs-record_job_run,
}
use bitcoin_knowledge_base.Base.Text.Single.{IsWithout}
use bitcoin_knowledge_base.Ingest.Metrics.Escapes.{
  prom_escape, html_escape, html_unescape, read_label, read_label-prom_escape,
  html_escape-IsWithout,
}

abbrev minutes : List ℕ
minutes = 5 ∷ 11000 ∷ 19990 ∷ 19990 ∷ []

minutes_before : All (λ t. t ≤ 20000) minutes
minutes_before = (omega arith, (omega arith, (omega arith, (omega arith, tt))))

in_order : IsOrdered 0 minutes
in_order = (omega arith, (omega arith, (omega arith, (omega arith, tt))))

requests-counted_example :
    (requests_last_day 20000 (record_all minutes empty) ≡ count_since (20000 - 1440) minutes)
    × (requests_last_week 20000 (record_all minutes empty) ≡ count_since (20000 - 10080) minutes)
requests-counted_example = requests-counted 20000 minutes minutes_before

-- The first minute is pruned, the last one is counted twice.
minutes_held : (record_all minutes empty).request_minutes ≡ (11000, 1) ∷ (19990, 2) ∷ []
unfolding record_request record_minute bump_last prune
minutes_held = refl

requests-bounded_example : length (record_all minutes empty).request_minutes ≤ 10081
requests-bounded_example = requests-bounded minutes in_order

abbrev one_run : JobRunStats
one_run = record {
  last_duration = 5;
  last_docs = 42;
  base_interval = 3600;
  last_completed = 100;
  last_error = none;
  paginating = true;
}

abbrev two_jobs : Metrics
two_jobs = register_job "irc" (register_job "bips" empty)

two_jobs-Reached : Reached two_jobs
unfolding register_job
two_jobs-Reached = registered "irc" (registered "bips" fresh refl) refl

bips_registered : any (λ k. k == "bips") two_jobs.registered_jobs ≡ true
unfolding register_job
bips_registered = refl

progress-total_example :
    num_ok (record_job_run "bips" one_run two_jobs)
      + (num_paging (record_job_run "bips" one_run two_jobs)
          + (num_err (record_job_run "bips" one_run two_jobs)
              + num_pending (record_job_run "bips" one_run two_jobs)))
    ≡ length (record_job_run "bips" one_run two_jobs).registered_jobs
progress-total_example =
    progress-total (record_job_run "bips" one_run two_jobs)
      (ran "bips" one_run two_jobs-Reached bips_registered)

pending_jobs-record_job_run_example :
    pending_jobs (record_job_run "bips" one_run two_jobs)
    ≡ filter (λ j. not ("bips" == j)) (pending_jobs two_jobs)
pending_jobs-record_job_run_example = pending_jobs-record_job_run "bips" one_run two_jobs

read_label-prom_escape_example :
    read_label false (append (prom_escape "a\"b\\") (append "\"" "} 1")) ≡ some ("a\"b\\", "} 1")
read_label-prom_escape_example = read_label-prom_escape "a\"b\\" "} 1"

html_escape-IsWithout_example :
    IsWithout 60 (html_escape "<b>\"")
    × (IsWithout 62 (html_escape "<b>\"") × IsWithout 34 (html_escape "<b>\""))
html_escape-IsWithout_example = html_escape-IsWithout "<b>\""

-- What is escaped once is unescaped twice.
html_unescape_example : (html_escape "&lt;" ≡ "&amp;lt;") × (html_unescape "&amp;lt;" ≡ "<")
unfolding html_escape html_unescape
html_unescape_example = (refl, refl)
