-- ===== src/Base/Sorted.antt =====
-- Lists of texts in the order of the database, and without repetitions.
use bitcoin_knowledge_base.Base.{
  String, refl, ◌↔◌, inl, inr, Bool, true, false, not, List, [], ◌∷◌, ◌==◌, eq_iff, if◌then◌else◌,
  Bool-cases, filter, In, here, there, In-filter, In-of_filter,
}
use Prim.Native.Nat.{Ordering}
use Prim.Native.String.{compare}

-- The order of the texts' characters, which is the one of their bytes.
abbrev pub before : String → String → Bool
before x y = elim (compare x y) [ Ordering.gt ↦ false | _ ↦ true ]

abbrev place : String → List String → List String
place x [] = x ∷ []
place x (y ∷ ys) = if before x y then x ∷ y ∷ ys else y ∷ place x ys

-- `ORDER BY`
abbrev pub sorted : List String → List String
sorted [] = []
sorted (x ∷ xs) = place x (sorted xs)

-- `DISTINCT`
abbrev pub distinct : List String → List String
distinct [] = []
distinct (x ∷ xs) = x ∷ filter (λ y. not (y == x)) (distinct xs)

In-place : (a x : String) (xs : List String) → (In a (place x xs) ↔ In a (x ∷ xs))
In-place a x [] = (λ i. i, λ i. i)
In-place a x (y ∷ ys) = elim (Bool-cases (before x y)) [
  | inl t ↦ rw t (λ i. i, λ i. i)
  | inr f ↦ rw f (
    λ i. elim i [
      | here e ↦ there (here e)
      | there m ↦ elim ((In-place a x ys).0 m) [ here e ↦ here e | there k ↦ there (there k) ]
    ],
    λ i. elim i [
      | here e ↦ there ((In-place a x ys).1 (here e))
      | there m ↦ elim m [ here e ↦ here e | there k ↦ there ((In-place a x ys).1 (there k)) ]
    ],
  )
]

pub In-sorted : (a : String) (xs : List String) → (In a (sorted xs) ↔ In a xs)
In-sorted a [] = (λ i. i, λ i. i)
In-sorted a (x ∷ xs) = (
  λ i. elim ((In-place a x (sorted xs)).0 i) [
    | here e ↦ here e
    | there m ↦ there ((In-sorted a xs).0 m)
  ],
  λ i.
      (In-place a x (sorted xs)).1
        (elim i [ here e ↦ here e | there m ↦ there ((In-sorted a xs).1 m) ]),
)

pub In-distinct : (a : String) (xs : List String) → (In a (distinct xs) ↔ In a xs)
In-distinct a [] = (λ i. i, λ i. i)
In-distinct a (x ∷ xs) = (
  λ i. elim i [
    | here e ↦ here e
    | there m ↦ there ((In-distinct a xs).0 (In-of_filter (λ y. not (y == x)) a (distinct xs) m).0)
  ],
  λ i. elim i [
    | here e ↦ here e
    | there m ↦ elim (Bool-cases (a == x)) [
      | inl t ↦ here ((eq_iff a x).0 t)
      | inr f ↦
          there (In-filter (λ y. not (y == x)) a (distinct xs) ((In-distinct a xs).1 m) (rw f refl))
    ]
  ],
)
