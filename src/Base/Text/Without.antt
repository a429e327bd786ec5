-- ===== src/Base/Text/Without.antt =====
-- A character that a text does not have, its parts do not have either.
use Prim.Native.Nat.{ℕ}
use Prim.Native.Char.{Char, code}
use Prim.Native.String.{String}
use mathlib.Core.Path.{◌≡◌, refl}
use mathlib.Core.Logic.{inl, inr}
use mathlib.Core.Bool.{true, not, ◌&&◌}
use mathlib.Core.List.{List, [], ◌∷◌}
use bitcoin_knowledge_base.Base.Tests.{eqb, Bool-cases, &&-eq-true}
use bitcoin_knowledge_base.Base.Lists.{All}
use bitcoin_knowledge_base.Base.Text.{
  is_empty, is_whitespace, trim, trim_start, trim_end, push_front_trimmed, onto_first, drop_empty,
  split_blank, split_whitespace,
}
use bitcoin_knowledge_base.Base.Text.Single.{IsWithout, both_true}

IsWithout-trim_start : (k : ℕ) (s : String) → IsWithout k s → IsWithout k (trim_start s)
unfolding trim_start
IsWithout-trim_start k String.[] h = refl
IsWithout-trim_start k (String.◌∷◌ c s) h =
    let (own, rest) = &&-eq-true (not (eqb (code c) k)) _ h in
    elim (Bool-cases (is_whitespace (code c))) [
      | inl t ↦ rw t (IsWithout-trim_start k s rest)
      | inr f ↦ rw f h
    ]

IsWithout-front :
    (k : ℕ) (c : Char) (r : String)
    → not (eqb (code c) k) ≡ true
    → IsWithout k r
    → IsWithout k (push_front_trimmed c r)
IsWithout-front k c r own h = elim (Bool-cases (is_empty r && is_whitespace (code c))) [
  | inl t ↦ rw t refl
  | inr f ↦ rw f (both_true _ _ own h)
]

IsWithout-trim_end : (k : ℕ) (s : String) → IsWithout k s → IsWithout k (trim_end s)
unfolding trim_end
IsWithout-trim_end k String.[] h = refl
IsWithout-trim_end k (String.◌∷◌ c s) h =
    let (own, rest) = &&-eq-true (not (eqb (code c) k)) _ h in
    IsWithout-front k c (trim_end s) own (IsWithout-trim_end k s rest)

pub IsWithout-trim : (k : ℕ) (s : String) → IsWithout k s → IsWithout k (trim s)
unfolding trim
IsWithout-trim k s h = IsWithout-trim_end k (trim_start s) (IsWithout-trim_start k s h)

IsWithout-first :
    (k : ℕ) (c : Char) (ws : List String)
    → not (eqb (code c) k) ≡ true
    → All (IsWithout k) ws
    → All (IsWithout k) (onto_first c ws)
IsWithout-first k c [] own h = (both_true _ _ own refl, tt)
IsWithout-first k c (w ∷ ws) own (h, hs) = (both_true _ _ own h, hs)

IsWithout-split_blank : (k : ℕ) (s : String) → IsWithout k s → All (IsWithout k) (split_blank s)
unfolding split_blank
IsWithout-split_blank k String.[] h = (refl, tt)
IsWithout-split_blank k (String.◌∷◌ c s) h =
    let (own, rest) = &&-eq-true (not (eqb (code c) k)) _ h in
    elim (Bool-cases (is_whitespace (code c))) [
      | inl t ↦ rw t (refl, IsWithout-split_blank k s rest)
      | inr f ↦ rw f (IsWithout-first k c (split_blank s) own (IsWithout-split_blank k s rest))
    ]

IsWithout-drop_empty :
    (k : ℕ) (ws : List String) → All (IsWithout k) ws → All (IsWithout k) (drop_empty ws)
IsWithout-drop_empty k [] h = tt
IsWithout-drop_empty k (w ∷ ws) (h, hs) = elim (Bool-cases (is_empty w)) [
  | inl t ↦ rw t (IsWithout-drop_empty k ws hs)
  | inr f ↦ rw f (h, IsWithout-drop_empty k ws hs)
]

pub IsWithout-split_whitespace :
    (k : ℕ) (s : String) → IsWithout k s → All (IsWithout k) (split_whitespace s)
unfolding split_whitespace
IsWithout-split_whitespace k s h =
    IsWithout-drop_empty k (split_blank s) (IsWithout-split_blank k s h)
