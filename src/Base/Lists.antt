-- ===== src/Base/Lists.antt =====
-- Lists over the native numbers, Boolean searches in them, and their laws.
use Prim.Native.Nat.{ℕ, zero, suc, ◌+◌}
use mathlib.Core.Path.{◌≡◌, sym, ap, refl}
use mathlib.Core.Logic.{◌⊎◌, inl, inr}
use mathlib.Core.Bool.{Bool, true, false, ◌&&◌, ◌||◌}
use mathlib.Core.Option.{Option, none, some}
use mathlib.Core.List.{List, [], ◌∷◌, ◌++◌, map}
use native.Mathlib.Omega.{arith}
use bitcoin_knowledge_base.Base.Tests.{if◌then◌else◌, Bool-cases}

module _ {ℓ} {A : Type ℓ} where
  abbrev pub length : List A → ℕ
  length [] = 0
  length (x ∷ xs) = suc (length xs)

  abbrev pub take : ℕ → List A → List A
  take zero xs = []
  take (suc n) [] = []
  take (suc n) (x ∷ xs) = x ∷ take n xs

  abbrev pub any : (A → Bool) → List A → Bool
  any p [] = false
  any p (x ∷ xs) = p x || any p xs

  abbrev pub all : (A → Bool) → List A → Bool
  all p [] = true
  all p (x ∷ xs) = p x && all p xs

  -- `retain` and `WHERE`
  abbrev pub filter : (A → Bool) → List A → List A
  filter p [] = []
  filter p (x ∷ xs) = let rest = filter p xs in if p x then x ∷ rest else rest

  -- the first element that passes the test
  abbrev pub find : (A → Bool) → List A → Option A
  find p [] = none
  find p (x ∷ xs) = if p x then some x else find p xs

  abbrev pub last? : List A → Option A
  last? [] = none
  last? (x ∷ []) = some x
  last? (x ∷ y ∷ ys) = last? (y ∷ ys)

module _ {ℓ κ} {A : Type ℓ} where
  abbrev pub All : (A → Type κ) → List A → Type κ
  All P [] = Unit
  All P (x ∷ xs) = P x × All P xs

-- Membership with its position, into which the proofs may match.
pub data In {ℓ} {A : Type ℓ} (a : A) : List A → Type ℓ where
  here : {x : A} {xs : List A} → a ≡ x → In a (x ∷ xs)
  there : {x : A} {xs : List A} → In a xs → In a (x ∷ xs)

module _ {ℓ} {A : Type ℓ} where
  pub In-filter : (p : A → Bool) (a : A) (xs : List A) → In a xs → p a ≡ true → In a (filter p xs)
  In-filter p a [] m h = elim m [ ]
  In-filter p a (x ∷ xs) (here e) h = let h' : p x ≡ true = rw (← e) h in rw h' (here e)
  In-filter p a (x ∷ xs) (there m) h = elim (Bool-cases (p x)) [
    | inl t ↦ rw t (there (In-filter p a xs m h))
    | inr f ↦ rw f (In-filter p a xs m h)
  ]

  In-kept :
      (p : A → Bool) (a x : A) (xs ys : List A)
      → p x ≡ true
      → (In a ys → In a xs × (p a ≡ true))
      → In a (x ∷ ys)
      → In a (x ∷ xs) × (p a ≡ true)
  In-kept p a x xs ys t ih (here e) = (here e, rw e t)
  In-kept p a x xs ys t ih (there m) = (there (ih m).0, (ih m).1)

  pub In-of_filter :
      (p : A → Bool) (a : A) (xs : List A) → In a (filter p xs) → In a xs × (p a ≡ true)
  In-of_filter p a [] m = elim m [ ]
  In-of_filter p a (x ∷ xs) m = elim (Bool-cases (p x)) [
    | inl t ↦ In-kept p a x xs (filter p xs) t (In-of_filter p a xs) (rw t at m)
    | inr f ↦ let r = In-of_filter p a xs (rw f at m) in (there r.0, r.1)
  ]

  pub In-append_left : (a : A) (xs ys : List A) → In a xs → In a (xs ++ ys)
  In-append_left a [] ys m = elim m [ ]
  In-append_left a (x ∷ xs) ys (here e) = here e
  In-append_left a (x ∷ xs) ys (there m) = there (In-append_left a xs ys m)

  pub In-append_right : (a : A) (xs ys : List A) → In a ys → In a (xs ++ ys)
  In-append_right a [] ys m = m
  In-append_right a (x ∷ xs) ys m = there (In-append_right a xs ys m)

  pub In-of_append : (a : A) (xs ys : List A) → In a (xs ++ ys) → In a xs ⊎ In a ys
  In-of_append a [] ys m = inr m
  In-of_append a (x ∷ xs) ys (here e) = inl (here e)
  In-of_append a (x ∷ xs) ys (there m) = elim (In-of_append a xs ys m) [
    | inl l ↦ inl (there l)
    | inr r ↦ inr r
  ]

  pub All-In {κ} : (P : A → Type κ) (xs : List A) (a : A) → All P xs → In a xs → P a
  All-In P [] a h m = elim m [ ]
  All-In P (x ∷ xs) a h (here e) = rw e h.0
  All-In P (x ∷ xs) a h (there m) = All-In P xs a h.1 m

  pub All-of_In {κ} : (P : A → Type κ) (xs : List A) → ((a : A) → In a xs → P a) → All P xs
  All-of_In P [] h = tt
  All-of_In P (x ∷ xs) h = (h x (here refl), All-of_In P xs (λ a i. h a (there i)))

  pub length-append : (xs ys : List A) → length (xs ++ ys) ≡ length xs + length ys
  length-append [] ys = omega arith
  length-append (x ∷ xs) ys = omega (arith, length-append xs ys)

  -- What `find` returns stands in the list and passes the test.
  pub find-In : (p : A → Bool) (xs : List A) (a : A) → find p xs ≡ some a → In a xs × (p a ≡ true)
  find-In p [] a h = cc
  find-In p (x ∷ xs) a h = elim (Bool-cases (p x)) [
    | inl t ↦ let e : x ≡ a = ground (arith, h, t) in (here (sym e), rw (← e) t)
    | inr f ↦ let r = find-In p xs a (rw f at h) in (there r.0, r.1)
  ]

  pub In-any : (p : A → Bool) (xs : List A) (a : A) → In a xs → p a ≡ true → any p xs ≡ true
  In-any p [] a m h = elim m [ ]
  In-any p (x ∷ xs) a (here e) h = let h' : p x ≡ true = rw (← e) h in rw h'
  In-any p (x ∷ xs) a (there m) h = ground (arith, In-any p xs a m h)

  pub any-In : (p : A → Bool) (xs : List A) → any p xs ≡ true → (a : A) × In a xs × (p a ≡ true)
  any-In p [] h = cc
  any-In p (x ∷ xs) h = elim (Bool-cases (p x)) [
    | inl t ↦ (x, here refl, t)
    | inr f ↦ let (a, m, t) = any-In p xs (rw f at h) in (a, there m, t)
  ]

module _ {ℓ κ} {A : Type ℓ} {B : Type κ} where
  pub In-map : (f : A → B) (xs : List A) (a : A) → In a xs → In (f a) (map f xs)
  In-map f [] a m = elim m [ ]
  In-map f (x ∷ xs) a (here e) = here (ap f e)
  In-map f (x ∷ xs) a (there m) = there (In-map f xs a m)

  pub In-of_map :
      (f : A → B) (xs : List A) (b : B) → In b (map f xs) → (a : A) × In a xs × (b ≡ f a)
  In-of_map f [] b m = elim m [ ]
  In-of_map f (x ∷ xs) b (here e) = (x, here refl, e)
  In-of_map f (x ∷ xs) b (there m) = let (a, m', e) = In-of_map f xs b m in (a, there m', e)

module _ {ℓ} {A : Type ℓ} where
  pub all-In : (p : A → Bool) (xs : List A) (a : A) → all p xs ≡ true → In a xs → p a ≡ true
  all-In p [] a h i = elim i [ ]
  all-In p (x ∷ xs) a h (here e) = let t : p x ≡ true = ground arith in rw e t
  all-In p (x ∷ xs) a h (there i) = all-In p xs a (ground arith) i
