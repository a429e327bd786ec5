-- ===== src/Ingest/Schedule.antt =====
-- When jobs run (bkb-ingest/src/queue.rs: Priority, SyncJob, adaptive_interval and the back-off of
-- execute_job). Times and durations are nanoseconds. A heap is the list of its jobs; which of
-- several equal jobs it gives first is left open by the source, here it is the one listed first.
pub mod Laws
use bitcoin_knowledge_base.Base.{
  ℕ, zero, suc, ◌+◌, ◌-◌, ◌*◌, ◌/◌, ◌%◌, ◌^◌, ◌≤◌, ◌<◌, min, max, String, ◌≡◌, refl, sym, ap, ◌∙◌,
  subst, ◌≢◌, ◌↔◌, ◌⊎◌, inl, inr, Bool, true, false, not, ◌&&◌, ◌||◌, Option, none, some, List, [],
  ◌∷◌, ◌++◌, map, append_assoc, append-nil, arith, ◌==◌, eq_iff, eq_refl, ltb, leb, eqb,
  if◌then◌else◌, Bool-cases, Option-cases, eqb_iff, option_eq, option_eq_iff, is_some, unwrap_or,
  or_else, ◌>>=◌, ◌>>◌, guard, >>=-eq-some, guard-eq-some, not-eq-true, some_inj, &&-eq-true,
  ||-eq-true, length, take, any, all, filter, find, last?, All, In, here, there, In-filter,
  In-of_filter, In-append_left, In-append_right, In-of_append, All-In, length-append, find-In,
  In-any, any-In, all-In, In-map, In-of_map, append, concat, char_eq, char_eq_iff, char_eq_refl,
  is_empty, all_chars, any_char, is_ascii_digit, is_ascii_alphanumeric, is_whitespace, strip_prefix,
  starts_with, strip_suffix, split_once, rsplit_once, last_segment, first_segment, replace_first,
  replace, trim_start, trim_end, trim, split_char, split_whitespace, strip_prefix-append,
  strip_prefix_sound,
}

pub data Priority : Type 0 where
  high medium low : Priority

unfoldable pub rank : Priority → ℕ
rank high = 3
rank medium = 2
rank low = 1

pub record SyncJob : Type 0 where
  pub source_id : String
  pub priority : Priority
  pub cursor : Option String
  pub next_run : ℕ
  pub retry_count : ℕ
  pub base_interval : ℕ

-- The first job is less than the second one in the heap's order: it runs later, or at the same
-- time with less priority.
unfoldable pub less : SyncJob → SyncJob → Bool
unfolding rank
less a b =
    ltb b.next_run a.next_run
    || (eqb b.next_run a.next_run && ltb (rank a.priority) (rank b.priority))

-- The greatest job and the rest.
unfoldable pub pop_from : SyncJob → List SyncJob → SyncJob × List SyncJob
pop_from job [] = (job, [])
pop_from job (j ∷ js) =
    let keep = pop_from job js in
    let take = pop_from j js in if less job j then (take.0, job ∷ take.1) else (keep.0, j ∷ keep.1)

unfoldable pub peek : List SyncJob → Option SyncJob
unfolding pop_from
peek [] = none
peek (j ∷ js) = some (pop_from j js).0

unfoldable pub pop : List SyncJob → List SyncJob
unfolding pop_from
pop [] = []
pop (j ∷ js) = (pop_from j js).1

abbrev pub second : ℕ
second = 1000000000

unfoldable pub adaptive_interval : ℕ → ℕ → ℕ
adaptive_interval base zero = min (base * 2) (base * 4)
adaptive_interval base (suc n) = if leb (suc n) 5 then base else base / 2

unfoldable pub backoff_secs : ℕ → ℕ
backoff_secs retries = min (30 * 2 ^ min retries 6) 3600

-- `job` runs before `j`, or at the same time with no less priority.
abbrev pub Precedes : SyncJob → SyncJob → Type 0
Precedes job j =
    (job.next_run < j.next_run)
    ⊎ ((job.next_run ≡ j.next_run) × (rank j.priority ≤ rank job.priority))

pub Precedes-refl : (a : SyncJob) → Precedes a a
Precedes-refl a = inr (refl, omega arith)

pub Precedes-less : (a b c : SyncJob) → Precedes a b → less c b ≡ true → Precedes a c
unfolding less
Precedes-less a b c p h = ground arith

pub Precedes-not_less : (a b c : SyncJob) → Precedes a b → less b c ≡ false → Precedes a c
unfolding less
Precedes-not_less a b c p h = ground arith
