-- ===== src/Ingest/Schedule/Laws.antt =====
-- The heap gives the most urgent job and loses none; the back-off stays in its bounds
-- (bkb-ingest/src/queue.rs).
use bitcoin_knowledge_base.Base.{
  ℕ, zero, suc, ◌*◌, ◌^◌, ◌≤◌, ◌<◌, min, String, ◌≡◌, refl, sym, subst, ◌⊎◌, inl, inr, some, List,
  [], ◌∷◌, arith, ◌==◌, ltb, if◌then◌else◌, Bool-cases, some_inj, all, All,
}
use bitcoin_knowledge_base.Ingest.Schedule.{
  SyncJob, Precedes, Precedes-less, Precedes-not_less, Precedes-refl, less, pop_from, peek, pop,
  backoff_secs,
}

-- The number of jobs of a source.
abbrev pub jobs_of : String → List SyncJob → ℕ
jobs_of id [] = 0
jobs_of id (j ∷ js) = if j.source_id == id then suc (jobs_of id js) else jobs_of id js

pop_from-Precedes :
    (job : SyncJob) (js : List SyncJob)
    → Precedes (pop_from job js).0 job × All (Precedes (pop_from job js).0) js
unfolding pop_from
pop_from-Precedes job [] = (Precedes-refl job, tt)
pop_from-Precedes job (j ∷ js) = elim (Bool-cases (less job j)) [
  | inl t ↦
      let (p, all) = pop_from-Precedes j js in
      let e : (pop_from job (j ∷ js)).0 ≡ (pop_from j js).0 = rw (t, pop_from) refl in
      subst (λ k. Precedes k job × All (Precedes k) (j ∷ js)) (sym e)
        (Precedes-less (pop_from j js).0 j job p t, (p, all))
  | inr f ↦
      let (p, all) = pop_from-Precedes job js in
      let e : (pop_from job (j ∷ js)).0 ≡ (pop_from job js).0 = rw (f, pop_from) refl in
      subst (λ k. Precedes k job × All (Precedes k) (j ∷ js)) (sym e)
        (p, (Precedes-not_less (pop_from job js).0 job j p f, all))
]

pop_from-jobs_of :
    (id : String) (job : SyncJob) (js : List SyncJob)
    → jobs_of id ((pop_from job js).0 ∷ (pop_from job js).1) ≡ jobs_of id (job ∷ js)
unfolding pop_from
pop_from-jobs_of id job [] = refl
pop_from-jobs_of id job (j ∷ js) = elim (Bool-cases (less job j)) [
  | inl t ↦ rw (t, pop_from) (ground (arith, pop_from-jobs_of id j js))
  | inr f ↦ rw (f, pop_from) (ground (arith, pop_from-jobs_of id job js))
]

-- The job that is taken runs before every other one, or at the same time with no less priority;
-- it and those that are left are the jobs that were there, source by source.
pub pop-peek :
    (jobs : List SyncJob) (job : SyncJob)
    → peek jobs ≡ some job
    → All (Precedes job) jobs × ((id : String) → jobs_of id (job ∷ pop jobs) ≡ jobs_of id jobs)
unfolding peek pop
pop-peek [] job h = cc h
pop-peek (j ∷ js) job h =
    subst
      (λ k.
        All (Precedes k) (j ∷ js)
        × ((id : String) → jobs_of id (k ∷ pop (j ∷ js)) ≡ jobs_of id (j ∷ js)))
      (some_inj h) (pop_from-Precedes j js, λ id. pop_from-jobs_of id j js)

capped : (n : ℕ) → n ≤ 6 → (n ≡ 0) ⊎ ((60 ≤ min (30 * 2 ^ n) 3600) × (min (30 * 2 ^ n) 3600 ≤ 1920))
capped zero h = inl refl
capped (suc zero) h = inr (omega arith, omega arith)
capped (suc (suc zero)) h = inr (omega arith, omega arith)
capped (suc (suc (suc zero))) h = inr (omega arith, omega arith)
capped (suc (suc (suc (suc zero)))) h = inr (omega arith, omega arith)
capped (suc (suc (suc (suc (suc zero))))) h = inr (omega arith, omega arith)
capped (suc (suc (suc (suc (suc (suc zero)))))) h = inr (omega arith, omega arith)
capped (suc (suc (suc (suc (suc (suc (suc n))))))) h = omega (arith, h)

-- From the first failure on the back-off is at least a minute and at most 32 minutes; from the
-- sixth failure on it is those 32 minutes.
pub backoff_secs-bounds :
    (n : ℕ)
    → 1 ≤ n
    → ((60 ≤ backoff_secs n) × (backoff_secs n ≤ 1920)) × ((n < 6) ⊎ (backoff_secs n ≡ 1920))
unfolding backoff_secs
backoff_secs-bounds n h = (
  elim (capped (min n 6) (omega arith)) [ inl e ↦ omega (arith, e, h) | inr b ↦ b ],
  elim (Bool-cases (ltb n 6)) [
    | inl t ↦ inl (ground arith)
    | inr f ↦ let six : min n 6 ≡ 6 = ground arith in inr (rw six refl)
  ],
)
