-- ===== src/Ingest/Metrics.antt =====
-- Counters of requests and job runs (bkb-ingest/src/metrics.rs: Metrics). Each function takes the
-- minute that the clock shows; the counters are taken not to pass 64 bits. Files and their sizes are
-- left out.
pub mod Requests
pub mod Jobs
pub mod Escapes
mod Tests
use bitcoin_knowledge_base.Base.{
  ℕ, zero, suc, ◌+◌, ◌-◌, ◌*◌, ◌/◌, ◌%◌, ◌^◌, ◌≤◌, ◌<◌, min, max, String, ◌≡◌, refl, sym, ap, ◌∙◌,
  subst, ◌≢◌, ◌↔◌, ◌⊎◌, inl, inr, Bool, true, false, not, ◌&&◌, ◌||◌, Option, none, some, List, [],
  ◌∷◌, ◌++◌, map, append_assoc, append-nil, arith, ◌==◌, eq_iff, eq_refl, ltb, leb, eqb,
  if◌then◌else◌, Bool-cases, Option-cases, eqb_iff, option_eq, option_eq_iff, is_some, unwrap_or,
  or_else, ◌>>=◌, ◌>>◌, guard, >>=-eq-some, guard-eq-some, not-eq-true, some_inj, &&-eq-true,
  ||-eq-true, length, take, any, all, filter, find, last?, All, In, here, there, In-filter,
  In-of_filter, In-append_left, In-append_right, In-of_append, All-In, length-append, find-In,
  In-any, any-In, all-In, In-map, In-of_map, append, concat, char_eq, char_eq_iff, char_eq_refl,
  is_empty, all_chars, any_char, is_ascii_digit, is_ascii_alphanumeric, is_whitespace, strip_prefix,
  starts_with, strip_suffix, split_once, rsplit_once, last_segment, first_segment, replace_first,
  replace, trim_start, trim_end, trim, split_char, split_whitespace, strip_prefix-append,
  strip_prefix_sound,
}
use mathlib.Core.Option
use bitcoin_knowledge_base.Base.Sorted.{before}

pub record JobRunStats : Type 0 where
  pub last_duration : ℕ
  pub last_docs : ℕ
  pub base_interval : ℕ
  pub last_completed : ℕ
  pub last_error : Option String
  pub paginating : Bool

-- The minutes with their counts, the oldest first.
pub record Metrics : Type 0 where
  pub request_minutes : List (ℕ × ℕ)
  pub registered_jobs : List String
  pub job_stats : List (String × JobRunStats)

abbrev pub empty : Metrics
empty = record { request_minutes = []; registered_jobs = []; job_stats = [] }

abbrev pub onto : (ℕ × ℕ) → Option (List (ℕ × ℕ)) → Option (List (ℕ × ℕ))
onto x none = none
onto x (some ms) = some (x ∷ ms)

-- The count of the last minute goes up, if that minute is the current one.
unfoldable pub bump_last : ℕ → List (ℕ × ℕ) → Option (List (ℕ × ℕ))
bump_last now [] = none
bump_last now ((m, c) ∷ []) = if eqb m now then some ((m, suc c) ∷ []) else none
bump_last now (x ∷ y ∷ ys) = onto x (bump_last now (y ∷ ys))

unfoldable pub prune : ℕ → List (ℕ × ℕ) → List (ℕ × ℕ)
prune cutoff [] = []
prune cutoff ((m, c) ∷ ms) =
    let rest = prune cutoff ms in if ltb m cutoff then rest else (m, c) ∷ ms

unfoldable pub record_minute : ℕ → List (ℕ × ℕ) → List (ℕ × ℕ)
unfolding bump_last prune
record_minute now ms = elim (bump_last now ms) [
  | some bumped ↦ bumped
  | none ↦ prune (now - 10080) (ms ++ (now, 1) ∷ [])
]

unfoldable pub record_request : ℕ → Metrics → Metrics
unfolding record_minute
record_request now m = record m { request_minutes = record_minute now m.request_minutes }

unfoldable pub requests_since : ℕ → List (ℕ × ℕ) → ℕ
requests_since cutoff [] = 0
requests_since cutoff ((m, c) ∷ ms) =
    let rest = requests_since cutoff ms in if leb cutoff m then c + rest else rest

unfoldable pub requests_last_day : ℕ → Metrics → ℕ
unfolding requests_since
requests_last_day now m = requests_since (now - 1440) m.request_minutes

unfoldable pub requests_last_week : ℕ → Metrics → ℕ
unfolding requests_since
requests_last_week now m = requests_since (now - 10080) m.request_minutes

unfoldable pub register_job : String → Metrics → Metrics
register_job id m = record m { registered_jobs = m.registered_jobs ++ id ∷ [] }

unfoldable pub contains_key : List (String × JobRunStats) → String → Bool
contains_key [] id = false
contains_key ((k, s) ∷ ss) id = k == id || contains_key ss id

unfoldable pub insert_stats :
    String → JobRunStats → List (String × JobRunStats) → List (String × JobRunStats)
insert_stats id s [] = (id, s) ∷ []
insert_stats id s ((k, t) ∷ ss) =
    let rest = insert_stats id s ss in if k == id then (k, s) ∷ ss else (k, t) ∷ rest

unfoldable pub record_job_run : String → JobRunStats → Metrics → Metrics
unfolding insert_stats
record_job_run id s m = record m { job_stats = insert_stats id s m.job_stats }

unfoldable pub pending_jobs : Metrics → List String
unfolding contains_key
pending_jobs m = filter (λ id. not (contains_key m.job_stats id)) m.registered_jobs

abbrev place_stats :
    String × JobRunStats → List (String × JobRunStats) → List (String × JobRunStats)
place_stats e [] = e ∷ []
place_stats e (f ∷ fs) = if before e.0 f.0 then e ∷ f ∷ fs else f ∷ place_stats e fs

-- Sorted by the id.
unfoldable pub job_stats_snapshot : List (String × JobRunStats) → List (String × JobRunStats)
job_stats_snapshot [] = []
job_stats_snapshot (e ∷ es) = place_stats e (job_stats_snapshot es)

-- The numbers of the progress bar.
unfoldable pub num_ok : Metrics → ℕ
unfolding job_stats_snapshot
num_ok m = length (
    filter (λ e. not (is_some e.1.last_error) && not e.1.paginating)
      (job_stats_snapshot m.job_stats))

unfoldable pub num_paging : Metrics → ℕ
unfolding job_stats_snapshot
num_paging m =
    length (
      filter (λ e. not (is_some e.1.last_error) && e.1.paginating) (job_stats_snapshot m.job_stats))

unfoldable pub num_err : Metrics → ℕ
unfolding job_stats_snapshot
num_err m = length (filter (λ e. is_some e.1.last_error) (job_stats_snapshot m.job_stats))

unfoldable pub num_pending : Metrics → ℕ
unfolding pending_jobs
num_pending m = length (pending_jobs m)
