-- ===== src/Base/Decimal.antt =====
-- Numbers in decimal: `to_string` and `parse`.
use bitcoin_knowledge_base.Base.{
  true, all_chars, ℕ, zero, suc, ◌+◌, ◌-◌, ◌*◌, ◌/◌, ◌%◌, ◌<◌, String, ◌≡◌, refl, ap, ◌∙◌, inl, inr,
  false, not, Option, none, some, arith, ltb, if◌then◌else◌, Bool-cases, ◌>>=◌, ◌>>◌, guard,
  >>=-eq-some, some_inj, append, char_eq, char_eq_iff, is_empty, is_ascii_digit, strip_prefix,
}
use Prim.Native.Char.{Char, code}
use text.Mathlib.TextLemmas.{nil-append, cons-append}

abbrev digit : ℕ → Char
digit zero = "0"
digit (suc zero) = "1"
digit (suc (suc zero)) = "2"
digit (suc (suc (suc zero))) = "3"
digit (suc (suc (suc (suc zero)))) = "4"
digit (suc (suc (suc (suc (suc zero))))) = "5"
digit (suc (suc (suc (suc (suc (suc zero)))))) = "6"
digit (suc (suc (suc (suc (suc (suc (suc zero))))))) = "7"
digit (suc (suc (suc (suc (suc (suc (suc (suc zero)))))))) = "8"
digit _ = "9"

-- Each step takes the last digit off; as many steps as the number are enough.
print_from : ℕ → ℕ → String
print_from zero n = ""
print_from (suc f) n =
    let front = print_from f (n / 10) in
    if ltb n 10 then String.◌∷◌ (digit n) "" else append front (String.◌∷◌ (digit (n % 10)) "")

unfoldable pub print : ℕ → String
unfolding print_from
print n = print_from (suc n) n

digit_value : Char → Option ℕ
digit_value c = if is_ascii_digit (code c) then some (code c - 48) else none

parse_from : ℕ → String → Option ℕ
unfolding digit_value
parse_from acc String.[] = some acc
parse_from acc (String.◌∷◌ c s) = do d ← digit_value c; parse_from (acc * 10 + d) s

-- Digits, at least one, of a number below the limit.
unfoldable pub parse_below : ℕ → String → Option ℕ
unfolding parse_from
parse_below limit s = do guard (not (is_empty s)); n ← parse_from 0 s; guard (ltb n limit); some n

digit_value-digit : (n : ℕ) → n < 10 → digit_value (digit n) ≡ some n
unfolding digit_value
digit_value-digit zero h = refl
digit_value-digit (suc zero) h = refl
digit_value-digit (suc (suc zero)) h = refl
digit_value-digit (suc (suc (suc zero))) h = refl
digit_value-digit (suc (suc (suc (suc zero)))) h = refl
digit_value-digit (suc (suc (suc (suc (suc zero))))) h = refl
digit_value-digit (suc (suc (suc (suc (suc (suc zero)))))) h = refl
digit_value-digit (suc (suc (suc (suc (suc (suc (suc zero))))))) h = refl
digit_value-digit (suc (suc (suc (suc (suc (suc (suc (suc zero)))))))) h = refl
digit_value-digit (suc (suc (suc (suc (suc (suc (suc (suc (suc zero))))))))) h = refl
digit_value-digit (suc (suc (suc (suc (suc (suc (suc (suc (suc (suc n)))))))))) h =
    absurd (omega (arith, h))

nonempty-append : (s : String) (c : Char) → is_empty (append s (String.◌∷◌ c "")) ≡ false
nonempty-append String.[] c = rw (nil-append (String.◌∷◌ c "")) refl
nonempty-append (String.◌∷◌ x s) c = rw cons-append refl

parse_from-last :
    (acc n d : ℕ) (s : String) (c : Char)
    → parse_from acc s ≡ some n
    → digit_value c ≡ some d
    → parse_from acc (append s (String.◌∷◌ c "")) ≡ some (n * 10 + d)
unfolding parse_from
parse_from-last acc n d String.[] c h e =
    rw (nil-append (String.◌∷◌ c "")) (rw e (rw (some_inj h) refl))
parse_from-last acc n d (String.◌∷◌ x s) c h e =
    let (k, e', h') = >>=-eq-some (digit_value x) (λ v. parse_from (acc * 10 + v) s) h in
    rw cons-append (rw e' (parse_from-last (acc * 10 + k) n d s c h' e))

parse_from-print : (f n : ℕ) → n < f → parse_from 0 (print_from f n) ≡ some n
unfolding print_from parse_from
parse_from-print zero n h = absurd (omega (arith, h))
parse_from-print (suc f) n h = elim (Bool-cases (ltb n 10)) [
  | inl t ↦ rw t (rw (digit_value-digit n (ground arith)) (ap some (omega arith)))
  | inr g ↦ rw g (
      parse_from-last 0 (n / 10) (n % 10) (print_from f (n / 10)) (digit (n % 10))
        (parse_from-print f (n / 10) (ground (arith, h))) (digit_value-digit (n % 10) (omega arith))
      ∙ ap some (omega arith))
]

print_from-first : (f n : ℕ) → n < f → is_empty (print_from f n) ≡ false
unfolding print_from
print_from-first zero n h = absurd (omega (arith, h))
print_from-first (suc f) n h = elim (Bool-cases (ltb n 10)) [
  | inl t ↦ rw t refl
  | inr g ↦ rw g (nonempty-append (print_from f (n / 10)) (digit (n % 10)))
]

-- A number below the limit is read back from its digits.
pub parse_below-print : (limit n : ℕ) → n < limit → parse_below limit (print n) ≡ some n
unfolding parse_below print
parse_below-print limit n h =
    rw (print_from-first (suc n) n (omega arith))
      (rw (parse_from-print (suc n) n (omega arith)) (ground (arith, h)))

-- A text of digits starts with no sign.
unsigned :
    (acc v : ℕ) (d : Char) (s : String)
    → digit_value d ≡ none
    → is_empty s ≡ false
    → parse_from acc s ≡ some v
    → strip_prefix s (String.◌∷◌ d "") ≡ none
unfolding parse_from strip_prefix
unsigned acc v d String.[] n e h = cc e
unsigned acc v d (String.◌∷◌ c s) n e h = elim (Bool-cases (char_eq c d)) [
  | inl t ↦
      let (k, e', h') = >>=-eq-some (digit_value c) (λ x. parse_from (acc * 10 + x) s) h in
      cc (n, e', (char_eq_iff c d).0 t)
  | inr f ↦ rw f refl
]

pub print-unsigned :
    (n : ℕ) → (strip_prefix (print n) "-" ≡ none) × (strip_prefix (print n) "+" ≡ none)
unfolding print digit_value
print-unsigned n =
    let some_digit = print_from-first (suc n) n (omega arith) in
    let value = parse_from-print (suc n) n (omega arith) in
    (
      unsigned 0 n "-" (print_from (suc n) n) refl some_digit value,
      unsigned 0 n "+" (print_from (suc n) n) refl some_digit value,
    )

parse_from-zero : (s : String) → parse_from 0 (append "0" s) ≡ parse_from 0 s
unfolding parse_from digit_value
parse_from-zero s =
    ap (parse_from 0) (cons-append "0" "" s ∙ ap (λ k. String.◌∷◌ "0" k) (nil-append s))

zero-nonempty : (s : String) → is_empty (append "0" s) ≡ false
zero-nonempty s = ap is_empty (cons-append "0" "" s)

-- A zero in front changes no number.
pub parse_below-zero :
    (limit : ℕ) (s : String) (n : ℕ)
    → parse_below limit s ≡ some n
    → parse_below limit (append "0" s) ≡ some n
unfolding parse_below
parse_below-zero limit s n h =
    let (u, _, h1) = >>=-eq-some (guard (not (is_empty s))) _ h in
    rw (zero-nonempty s) (rw (parse_from-zero s) h1)

parse_from-digits :
    (acc v : ℕ) (s : String) → parse_from acc s ≡ some v → all_chars is_ascii_digit s ≡ true
unfolding parse_from digit_value
parse_from-digits acc v String.[] h = refl
parse_from-digits acc v (String.◌∷◌ c s) h =
    let (k, e, h') = >>=-eq-some (digit_value c) (λ x. parse_from (acc * 10 + x) s) h in
    elim (Bool-cases (is_ascii_digit (code c))) [
      | inl t ↦ rw t (parse_from-digits (acc * 10 + k) v s h')
      | inr f ↦ cc (rw (f, digit_value) at e)
    ]

pub print-digits : (n : ℕ) → all_chars is_ascii_digit (print n) ≡ true
unfolding print
print-digits n =
    parse_from-digits 0 n (print_from (suc n) n) (parse_from-print (suc n) n (omega arith))
