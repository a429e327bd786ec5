-- ===== src/Ingest/Metrics/Requests.antt =====
-- The counts of requests, against a list of the minutes in which they came
-- (bkb-ingest/src/metrics.rs: record_request, requests_last_day, requests_last_week).
use bitcoin_knowledge_base.Base.{
  ℕ, suc, ◌+◌, ◌-◌, ◌≤◌, max, ◌≡◌, refl, sym, ◌∙◌, ◌≢◌, inl, inr, Bool, Option, none, some, List,
  [], ◌∷◌, ◌++◌, arith, ltb, leb, eqb, if◌then◌else◌, Bool-cases, Option-cases, eqb_iff, some_inj,
  length, filter, All,
}
use bitcoin_knowledge_base.Ingest.Metrics.{
  Metrics, empty, onto, bump_last, prune, record_minute, record_request, requests_since,
  requests_last_day, requests_last_week,
}

-- Requests in the given minutes, one after the other.
abbrev pub record_all : List ℕ → Metrics → Metrics
record_all [] m = m
record_all (t ∷ ts) m = record_all ts (record_request t m)

-- How many of the minutes are not before the cutoff.
abbrev pub count_since : ℕ → List ℕ → ℕ
count_since k ts = length (filter (λ t. leb k t) ts)

abbrev one_if : Bool → ℕ
one_if b = if b then 1 else 0

since-append :
    (k t : ℕ) (ms : List (ℕ × ℕ))
    → requests_since k (ms ++ (t, 1) ∷ []) ≡ requests_since k ms + one_if (leb k t)
unfolding requests_since
since-append k t [] = ground arith
since-append k t ((m, c) ∷ ms) = ground (arith, since-append k t ms)

since-prune :
    (k cutoff : ℕ) (ms : List (ℕ × ℕ))
    → cutoff ≤ k
    → requests_since k (prune cutoff ms) ≡ requests_since k ms
unfolding requests_since prune
since-prune k cutoff [] h = refl
since-prune k cutoff ((m, c) ∷ ms) h = ground (arith, since-prune k cutoff ms h)

onto-some :
    (x : ℕ × ℕ) (o : Option (List (ℕ × ℕ))) (ms : List (ℕ × ℕ))
    → onto x o ≡ some ms
    → (rest : List (ℕ × ℕ)) × (o ≡ some rest) × (ms ≡ x ∷ rest)
onto-some x none ms h = cc h
onto-some x (some rest) ms h = (rest, refl, sym (some_inj h))

onto-none : (x : ℕ × ℕ) (o : Option (List (ℕ × ℕ))) → onto x o ≡ none → o ≡ none
onto-none x none h = refl
onto-none x (some rest) h = cc h

-- The list that a bump returns, for a list of one and of more.
bump-one :
    (t m c : ℕ) (bumped : List (ℕ × ℕ))
    → bump_last t ((m, c) ∷ []) ≡ some bumped
    → (m ≡ t) × (bumped ≡ (m, suc c) ∷ [])
unfolding bump_last
bump-one t m c bumped h = elim (Bool-cases (eqb m t)) [
  | inl e ↦ ((eqb_iff m t).0 e, sym (some_inj (rw (e, bump_last) at h)))
  | inr f ↦ cc (rw (f, bump_last) at h)
]

bump-more :
    (t : ℕ) (x y : ℕ × ℕ) (ys bumped : List (ℕ × ℕ))
    → bump_last t (x ∷ y ∷ ys) ≡ some bumped
    → (rest : List (ℕ × ℕ)) × (bump_last t (y ∷ ys) ≡ some rest) × (bumped ≡ x ∷ rest)
unfolding bump_last
bump-more t x y ys bumped h = onto-some x (bump_last t (y ∷ ys)) bumped h

since-bump :
    (k t : ℕ) (ms bumped : List (ℕ × ℕ))
    → bump_last t ms ≡ some bumped
    → requests_since k bumped ≡ requests_since k ms + one_if (leb k t)
unfolding requests_since bump_last
since-bump k t [] bumped h = cc h
since-bump k t ((m, c) ∷ []) bumped h =
    let (e, is) = bump-one t m c bumped h in rw is (ground (arith, e))
since-bump k t ((m, c) ∷ y ∷ ys) bumped h =
    let (rest, e, is) = bump-more t (m, c) y ys bumped h in
    rw is (ground (arith, since-bump k t (y ∷ ys) rest e))

since-record :
    (k t : ℕ) (ms : List (ℕ × ℕ))
    → t - 10080 ≤ k
    → requests_since k (record_minute t ms) ≡ requests_since k ms + one_if (leb k t)
unfolding record_minute
since-record k t ms h = elim (Option-cases (bump_last t ms)) [
  | inl n ↦
      rw (n, record_minute) (since-prune k (t - 10080) (ms ++ (t, 1) ∷ []) h ∙ since-append k t ms)
  | inr (bumped, e) ↦ rw (e, record_minute) (since-bump k t ms bumped e)
]

since-record_all :
    (k now : ℕ) (ts : List ℕ) (m : Metrics)
    → now - 10080 ≤ k
    → All (λ t. t ≤ now) ts
    → requests_since k (record_all ts m).request_minutes
      ≡ requests_since k m.request_minutes + count_since k ts
unfolding record_request
since-record_all k now [] m h late = omega arith
since-record_all k now (t ∷ ts) m h (l, late) = ground (
  arith,
  since-record_all k now ts (record_request t m) h late,
  since-record k t m.request_minutes (omega (arith, h, l)),
)

-- Of requests that came at or before the minute that the clock shows, in any order, those of the last
-- day and those of the last week are counted, each once.
pub requests-counted :
    (now : ℕ) (ts : List ℕ)
    → All (λ t. t ≤ now) ts
    → (requests_last_day now (record_all ts empty) ≡ count_since (now - 1440) ts)
      × (requests_last_week now (record_all ts empty) ≡ count_since (now - 10080) ts)
unfolding requests_last_day requests_last_week requests_since
requests-counted now ts late = (
  omega (arith, since-record_all (now - 1440) now ts empty (omega arith) late),
  omega (arith, since-record_all (now - 10080) now ts empty (omega arith) late),
)

-- The minutes go up, between the two bounds.
abbrev IsRising : ℕ → ℕ → List (ℕ × ℕ) → Type 0
IsRising lo hi [] = Unit
IsRising lo hi ((m, c) ∷ ms) = (lo ≤ m) × ((m ≤ hi) × IsRising (suc m) hi ms)

length-IsRising : (lo hi : ℕ) (ms : List (ℕ × ℕ)) → IsRising lo hi ms → length ms ≤ suc hi - lo
length-IsRising lo hi [] h = omega arith
length-IsRising lo hi ((m, c) ∷ ms) (a, (b, h)) =
    omega (arith, length-IsRising (suc m) hi ms h, a, b)

-- The bounds may be wider.
IsRising-wider :
    (lo lo' hi hi' : ℕ) (ms : List (ℕ × ℕ))
    → lo' ≤ lo
    → hi ≤ hi'
    → IsRising lo hi ms
    → IsRising lo' hi' ms
IsRising-wider lo lo' hi hi' [] l h r = tt
IsRising-wider lo lo' hi hi' ((m, c) ∷ ms) l h (a, (b, r)) = (
  omega (arith, a, l),
  (omega (arith, b, h), IsRising-wider (suc m) (suc m) hi hi' ms (omega arith) h r),
)

IsRising-bump :
    (lo t : ℕ) (ms bumped : List (ℕ × ℕ))
    → bump_last t ms ≡ some bumped
    → IsRising lo t ms
    → IsRising lo t bumped
unfolding bump_last
IsRising-bump lo t [] bumped h r = cc h
IsRising-bump lo t ((m, c) ∷ []) bumped h (a, (b, r)) =
    let (e, is) = bump-one t m c bumped h in rw is (a, (b, tt))
IsRising-bump lo t ((m, c) ∷ y ∷ ys) bumped h (a, (b, r)) =
    let (rest, e, is) = bump-more t (m, c) y ys bumped h in
    rw is (a, (b, IsRising-bump (suc m) t (y ∷ ys) rest e r))

-- A minute that does not bump the last one, and is not before it, is after it.
IsRising-append :
    (lo last t : ℕ) (ms : List (ℕ × ℕ))
    → last ≤ t
    → lo ≤ t
    → bump_last t ms ≡ none
    → IsRising lo last ms
    → IsRising lo t (ms ++ (t, 1) ∷ [])
unfolding bump_last
IsRising-append lo last t [] h l n r = (l, (omega arith, tt))
IsRising-append lo last t ((m, c) ∷ []) h l n (a, (b, r)) =
    let other : m ≢ t = λ e. cc (rw ((eqb_iff m t).1 e) at n) in
    (a, (omega (arith, b, h), (omega (arith, b, h, other), (omega arith, tt))))
IsRising-append lo last t ((m, c) ∷ (k, d) ∷ ys) h l n (a, (b, r)) = (
  a,
  (
    omega (arith, b, h),
    IsRising-append (suc m) last t ((k, d) ∷ ys) h (omega (arith, r.0, r.1.0, h))
        (onto-none (m, c) (bump_last t ((k, d) ∷ ys)) n) r,
  ),
)

-- What pruning leaves is not before the cutoff.
IsRising-prune :
    (lo hi cutoff : ℕ) (ms : List (ℕ × ℕ))
    → IsRising lo hi ms
    → IsRising (max lo cutoff) hi (prune cutoff ms)
unfolding prune
IsRising-prune lo hi cutoff [] r = tt
IsRising-prune lo hi cutoff ((m, c) ∷ ms) (a, (b, r)) = elim (Bool-cases (ltb m cutoff)) [
  | inl t ↦ rw t (
      IsRising-wider (max (suc m) cutoff) (max lo cutoff) hi hi (prune cutoff ms) (omega (arith, a))
        (omega arith) (IsRising-prune (suc m) hi cutoff ms r))
  | inr f ↦ rw f (ground (arith, a, f), (b, r))
]

-- A bump finds its minute among those that are there.
bump-late :
    (lo last t : ℕ) (ms bumped : List (ℕ × ℕ))
    → bump_last t ms ≡ some bumped
    → IsRising lo last ms
    → t ≤ last
unfolding bump_last
bump-late lo last t [] bumped h r = cc h
bump-late lo last t ((m, c) ∷ []) bumped h (a, (b, r)) =
    let (e, is) = bump-one t m c bumped h in omega (arith, e, b)
bump-late lo last t ((m, c) ∷ y ∷ ys) bumped h (a, (b, r)) =
    let (rest, e, is) = bump-more t (m, c) y ys bumped h in
    bump-late (suc m) last t (y ∷ ys) rest e r

IsRising-record :
    (last t : ℕ) (ms : List (ℕ × ℕ))
    → last ≤ t
    → IsRising (last - 10080) last ms
    → IsRising (t - 10080) t (record_minute t ms)
unfolding record_minute
IsRising-record last t ms h r = elim (Option-cases (bump_last t ms)) [
  | inl n ↦
      rw (n, record_minute)
        (IsRising-wider (max (last - 10080) (t - 10080)) (t - 10080) t t _ (omega arith)
          (omega arith)
          (IsRising-prune (last - 10080) t (t - 10080) (ms ++ (t, 1) ∷ [])
            (IsRising-append (last - 10080) last t ms h (omega (arith, h)) n r)))
  | inr (bumped, e) ↦
      let late = bump-late (last - 10080) last t ms bumped e r in
      rw (e, record_minute)
        (IsRising-bump (t - 10080) t ms bumped e
          (IsRising-wider (last - 10080) (t - 10080) last t ms (omega (arith, h, late)) h r))
]

-- Each minute is at or after the one before it.
abbrev pub IsOrdered : ℕ → List ℕ → Type 0
IsOrdered last [] = Unit
IsOrdered last (t ∷ ts) = (last ≤ t) × IsOrdered t ts

IsRising-all :
    (last : ℕ) (ts : List ℕ) (m : Metrics)
    → IsOrdered last ts
    → IsRising (last - 10080) last m.request_minutes
    → length (record_all ts m).request_minutes ≤ 10081
unfolding record_request
IsRising-all last [] m o r = omega (arith, length-IsRising (last - 10080) last m.request_minutes r)
IsRising-all last (t ∷ ts) m (h, o) r =
    IsRising-all t ts (record_request t m) o (IsRising-record last t m.request_minutes h r)

-- However many requests come, if the clock does not go back, the collector holds at most one count
-- for each of the 10081 minutes of a week and the current one.
pub requests-bounded :
    (ts : List ℕ) → IsOrdered 0 ts → length (record_all ts empty).request_minutes ≤ 10081
requests-bounded ts o = IsRising-all 0 ts empty o tt
