-- ===== src/Ingest/Backfill/Rows.antt =====
-- Rows in the order of their ids, and pages of them (bkb-store/src/sqlite.rs: reconciliation_page).
use bitcoin_knowledge_base.Base.{
  ℕ, zero, suc, ◌-◌, ◌^◌, ◌≤◌, ◌<◌, ◌≡◌, refl, ap, ◌∙◌, subst, ◌⊎◌, inl, inr, Bool, true, false,
  ◌&&◌, some, List, [], ◌∷◌, ◌++◌, map, arith, ltb, leb, eqb, Bool-cases, some_inj, &&-eq-true,
  length, take, filter, last?, All, In, here, there,
}
use bitcoin_knowledge_base.Store.Tables.{Row}
use bitcoin_knowledge_base.Ingest.Backfill.{plus, exceeds, from_forge, by_rowid}

-- The rowids go up, from the bound, and are below the other.
abbrev pub IsAscending : ℕ → List Row → Type 0
IsAscending lo [] = Unit
IsAscending lo (r ∷ rs) = (lo ≤ r.rowid) × ((r.rowid < 2 ^ 63) × IsAscending (suc r.rowid) rs)

abbrev pub after_of : ℕ → Row → Bool
after_of a r = exceeds r.rowid (plus a) && from_forge r.doc

-- The rows that a cursor has before it.
abbrev pub ahead : ℕ → List Row → List Row
ahead a rows = filter (after_of a) rows

pub IsAscending-wider :
    (lo lo' : ℕ) (rs : List Row) → lo' ≤ lo → IsAscending lo rs → IsAscending lo' rs
IsAscending-wider lo lo' [] h a = tt
IsAscending-wider lo lo' (r ∷ rs) h (a, (b, c)) = (omega (arith, a, h), (b, c))

pub IsAscending-filter :
    (p : Row → Bool) (lo : ℕ) (rs : List Row) → IsAscending lo rs → IsAscending lo (filter p rs)
IsAscending-filter p lo [] a = tt
IsAscending-filter p lo (r ∷ rs) (a, (b, c)) = elim (Bool-cases (p r)) [
  | inl t ↦ rw t (a, (b, IsAscending-filter p (suc r.rowid) rs c))
  | inr f ↦ rw f (
      IsAscending-wider (suc r.rowid) lo _ (omega (arith, a))
        (IsAscending-filter p (suc r.rowid) rs c))
]

-- What is ahead of the last row of a page is what the page leaves.
abbrev pub drop : ℕ → List Row → List Row
drop zero rs = rs
drop (suc n) [] = []
drop (suc n) (r ∷ rs) = drop n rs

pub ahead_whole :
    (a lo : ℕ) (rs : List Row)
    → a < lo
    → IsAscending lo rs
    → All (λ r. from_forge r.doc ≡ true) rs
    → ahead a rs ≡ rs
unfolding exceeds
ahead_whole a lo [] h c f = refl
ahead_whole a lo (r ∷ rs) h (x, (y, c)) (f, fs) =
    let over : ltb a r.rowid ≡ true = ground (arith, h, x) in
    rw over (rw f (ap (λ k. r ∷ k) (ahead_whole a (suc r.rowid) rs (omega (arith, h, x)) c fs)))

-- A row is not ahead of a row at or after it.
pub passed : (k : ℕ) (x : Row) (rs : List Row) → x.rowid ≤ k → ahead k (x ∷ rs) ≡ ahead k rs
unfolding exceeds
passed k x rs h = let no : ltb k x.rowid ≡ false = ground (arith, h) in rw no refl

pub last-from :
    (n lo : ℕ) (rs : List Row) (r : Row)
    → IsAscending lo rs
    → last? (take n rs) ≡ some r
    → lo ≤ r.rowid
last-from zero lo rs r c h = cc h
last-from (suc n) lo [] r c h = cc h
last-from (suc zero) lo (x ∷ rs) r (a, c) h = let same : x ≡ r = some_inj h in rw (← same) a
last-from (suc (suc n)) lo (x ∷ []) r (a, c) h = let same : x ≡ r = some_inj h in rw (← same) a
last-from (suc (suc n)) lo (x ∷ y ∷ rs) r (a, (b, c)) h =
    omega (arith, a, last-from (suc n) (suc x.rowid) (y ∷ rs) r c h)

pub ahead-drop :
    (n lo : ℕ) (rs : List Row) (r : Row)
    → IsAscending lo rs
    → All (λ r. from_forge r.doc ≡ true) rs
    → last? (take n rs) ≡ some r
    → ahead r.rowid rs ≡ drop n rs
ahead-drop zero lo rs r c f h = cc h
ahead-drop (suc n) lo [] r c f h = cc h
ahead-drop (suc zero) lo (x ∷ rs) r (a, (b, c)) (f, fs) h =
    let same : x ≡ r = some_inj h in
    subst (λ k. ahead k.rowid (x ∷ rs) ≡ rs) same
      (passed x.rowid x rs (omega arith) ∙ ahead_whole x.rowid (suc x.rowid) rs (omega arith) c fs)
ahead-drop (suc (suc n)) lo (x ∷ []) r (a, (b, c)) (f, fs) h =
    let same : x ≡ r = some_inj h in
    subst (λ k. ahead k.rowid (x ∷ []) ≡ []) same (passed x.rowid x [] (omega arith))
ahead-drop (suc (suc n)) lo (x ∷ y ∷ rs) r (a, (b, c)) (f, fs) h =
    passed r.rowid x (y ∷ rs) (omega (arith, last-from (suc n) (suc x.rowid) (y ∷ rs) r c h))
    ∙ ahead-drop (suc n) (suc x.rowid) (y ∷ rs) r c fs h

-- Rows in the order of their ids stay in it.
pub sorted_rows : (lo : ℕ) (rs : List Row) → IsAscending lo rs → by_rowid rs ≡ rs
unfolding by_rowid
sorted_rows lo [] c = refl
sorted_rows lo (r ∷ []) c = refl
sorted_rows lo (r ∷ x ∷ rs) (a, (b, (d, c))) =
    rw (sorted_rows (suc r.rowid) (x ∷ rs) (d, c))
      (let first : leb r.rowid x.rowid ≡ true = ground (arith, d) in rw first refl)

-- A narrower test after a wider one.
pub ahead-ahead : (a b : ℕ) (rs : List Row) → a ≤ b → ahead b (ahead a rs) ≡ ahead b rs
unfolding exceeds
ahead-ahead a b [] h = refl
ahead-ahead a b (r ∷ rs) h = ground (arith, ahead-ahead a b rs h)

pub ahead-from_forge : (a : ℕ) (rs : List Row) → All (λ r. from_forge r.doc ≡ true) (ahead a rs)
ahead-from_forge a [] = tt
ahead-from_forge a (r ∷ rs) = elim (Bool-cases (after_of a r)) [
  | inl t ↦ rw t ((&&-eq-true _ _ t).1, ahead-from_forge a rs)
  | inr f ↦ rw f (ahead-from_forge a rs)
]

pub take-short : (n : ℕ) (rs : List Row) → eqb (length (take n rs)) n ≡ false → take n rs ≡ rs
take-short zero rs h = cc h
take-short (suc n) [] h = refl
take-short (suc n) (r ∷ rs) h = ap (λ k. r ∷ k) (take-short n rs (ground (arith, h)))

pub take-drop : (n : ℕ) (rs : List Row) → take n rs ++ drop n rs ≡ rs
take-drop zero rs = refl
take-drop (suc n) [] = refl
take-drop (suc n) (r ∷ rs) = ap (λ k. r ∷ k) (take-drop n rs)

pub length-drop : (n : ℕ) (rs : List Row) → length (drop n rs) ≡ length rs - n
length-drop zero rs = omega arith
length-drop (suc n) [] = omega arith
length-drop (suc n) (r ∷ rs) = omega (arith, length-drop n rs)

pub length-take : (n : ℕ) (rs : List Row) → length (take n rs) ≤ length rs
length-take zero rs = omega arith
length-take (suc n) [] = omega arith
length-take (suc n) (r ∷ rs) = omega (arith, length-take n rs)

pub last-cases : (rs : List Row) → (rs ≡ []) ⊎ ((r : Row) × (last? rs ≡ some r) × In r rs)
last-cases [] = inl refl
last-cases (r ∷ []) = inr (r, refl, here refl)
last-cases (r ∷ x ∷ rs) = elim (last-cases (x ∷ rs)) [
  | inl e ↦ cc e
  | inr (k, e, i) ↦ inr (k, e, there i)
]

pub docs-append :
    (xs ys : List Row) → map (λ r. r.doc) (xs ++ ys) ≡ map (λ r. r.doc) xs ++ map (λ r. r.doc) ys
docs-append [] ys = refl
docs-append (x ∷ xs) ys = ap (λ k. x.doc ∷ k) (docs-append xs ys)

pub In-take : (n : ℕ) (r : Row) (rs : List Row) → In r (take n rs) → In r rs
In-take zero r rs i = elim i [ ]
In-take (suc n) r [] i = elim i [ ]
In-take (suc n) r (x ∷ rs) (here e) = here e
In-take (suc n) r (x ∷ rs) (there i) = there (In-take n r rs i)

pub ascending-In :
    (lo : ℕ) (r : Row) (rs : List Row) → IsAscending lo rs → In r rs → r.rowid < 2 ^ 63
ascending-In lo r [] c i = elim i [ ]
ascending-In lo r (x ∷ rs) (a, (b, c)) (here e) = rw e b
ascending-In lo r (x ∷ rs) (a, (b, c)) (there i) = ascending-In (suc x.rowid) r rs c i

pub above : (a : ℕ) (r : Row) → after_of a r ≡ true → a ≤ r.rowid
unfolding exceeds
above a r h = let (over, f) = &&-eq-true (ltb a r.rowid) _ h in ground (arith, over)

pub length-ahead : (a : ℕ) (rs : List Row) → length (ahead a rs) ≤ length rs
length-ahead a [] = omega arith
length-ahead a (r ∷ rs) = ground (arith, length-ahead a rs)

pub all_ahead : (rs : List Row) → IsAscending 1 rs → ahead 0 rs ≡ filter (λ r. from_forge r.doc) rs
unfolding exceeds
all_ahead [] c = refl
all_ahead (r ∷ rs) (a, (b, c)) =
    let over : ltb 0 r.rowid ≡ true = ground (arith, a) in
    rw over (elim (Bool-cases (from_forge r.doc)) [
      | inl t ↦
          rw t
            (ap (λ k. r ∷ k) (all_ahead rs (IsAscending-wider (suc r.rowid) 1 rs (omega arith) c)))
      | inr f ↦ rw f (all_ahead rs (IsAscending-wider (suc r.rowid) 1 rs (omega arith) c))
    ])
