-- ===== src/Base/Text/Single.antt =====
-- Replacing one character.
use Prim.Native.Nat.{ℕ, ◌-◌}
use bitcoin_knowledge_base.Base.Tests.{&&-eq-true, eqb}
use Prim.Native.Char.{code, Char}
use Prim.Native.String
use Prim.Native.String.{String}
use mathlib.Core.Path.{◌≡◌, refl, sym, ap, ◌∙◌}
use mathlib.Core.Logic.{inl, inr}
use mathlib.Core.Bool.{not, true, Bool, ◌&&◌}
use native.Mathlib.Omega.{arith}
use text.Mathlib.TextLemmas.{length-cons, length-nil, append_assoc, nil-append, cons-append}
use bitcoin_knowledge_base.Base.Tests.{if◌then◌else◌, Bool-cases}
use bitcoin_knowledge_base.Base.Text.{
  append, char_eq, replace, replace_from, strip_prefix, all_chars,
}

-- Each occurrence of the character gives way to the text.
abbrev pub subst_char : Char → String → String → String
subst_char d to String.[] = ""
subst_char d to (String.◌∷◌ c s) =
    let rest = subst_char d to s in if char_eq c d then append to rest else String.◌∷◌ c rest

one_char : (d : Char) → String.count (String.◌∷◌ d "") - 1 ≡ 0
one_char d = rw (length-cons d "") (rw length-nil (omega arith))

replace_from-char :
    (d : Char) (to s : String) → replace_from (String.◌∷◌ d "") to 0 s ≡ subst_char d to s
unfolding replace_from strip_prefix
replace_from-char d to String.[] = refl
replace_from-char d to (String.◌∷◌ c s) = elim (Bool-cases (char_eq c d)) [
  | inl t ↦
      rw t (rw (t, replace_from) (rw (one_char d) (ap (append to) (replace_from-char d to s))))
  | inr f ↦ rw f (rw (f, replace_from) (ap (λ k. String.◌∷◌ c k) (replace_from-char d to s)))
]

pub replace-char : (d : Char) (to s : String) → replace s (String.◌∷◌ d "") to ≡ subst_char d to s
unfolding replace
replace-char d to s = replace_from-char d to s

pub subst_char-append :
    (d : Char) (to s t : String)
    → subst_char d to (append s t) ≡ append (subst_char d to s) (subst_char d to t)
subst_char-append d to String.[] t = rw (nil-append t) (rw (nil-append (subst_char d to t)) refl)
subst_char-append d to (String.◌∷◌ c s) t = rw cons-append (elim (Bool-cases (char_eq c d)) [
  | inl e ↦ rw e (
      ap (append to) (subst_char-append d to s t)
      ∙ sym (append_assoc to (subst_char d to s) (subst_char d to t)))
  | inr f ↦ rw f (rw cons-append (ap (λ k. String.◌∷◌ c k) (subst_char-append d to s t)))
])

-- The character is gone, if the text that is put in has none; other characters stay away.
pub all_chars-append :
    (p : ℕ → Bool) (s t : String) → all_chars p (append s t) ≡ (all_chars p s && all_chars p t)
all_chars-append p String.[] t = rw nil-append refl
all_chars-append p (String.◌∷◌ c s) t = rw cons-append (ground (arith, all_chars-append p s t))

abbrev pub IsWithout : ℕ → String → Type 0
IsWithout k s = all_chars (λ c. not (eqb c k)) s ≡ true

pub both_true : (p q : Bool) → p ≡ true → q ≡ true → (p && q) ≡ true
both_true p q h g = rw h g

-- Replacing a character by a text without it takes it away, and brings no other one.
pub IsWithout-subst :
    (d : Char) (to s : String) → IsWithout (code d) to → IsWithout (code d) (subst_char d to s)
IsWithout-subst d to String.[] h = refl
IsWithout-subst d to (String.◌∷◌ c s) h = elim (Bool-cases (char_eq c d)) [
  | inl t ↦ rw t (
      all_chars-append (λ c. not (eqb c (code d))) to (subst_char d to s)
      ∙ both_true _ _ h (IsWithout-subst d to s h))
  | inr f ↦ rw f (rw f (IsWithout-subst d to s h))
]

pub IsWithout-kept :
    (k : ℕ) (d : Char) (to s : String)
    → IsWithout k to
    → IsWithout k s
    → IsWithout k (subst_char d to s)
IsWithout-kept k d to String.[] h g = refl
IsWithout-kept k d to (String.◌∷◌ c s) h g =
    let (own, rest) = &&-eq-true (not (eqb (code c) k)) _ g in
    elim (Bool-cases (char_eq c d)) [
      | inl t ↦ rw t (
          all_chars-append (λ c. not (eqb c k)) to (subst_char d to s)
          ∙ both_true _ _ h (IsWithout-kept k d to s h rest))
      | inr f ↦ rw f (rw own (IsWithout-kept k d to s h rest))
    ]
