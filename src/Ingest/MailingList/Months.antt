-- ===== src/Ingest/MailingList/Months.antt =====
-- Months as texts (bkb-ingest/src/sources/mailing_list.rs: next_month).
use bitcoin_knowledge_base.Base.{
  ℕ, zero, suc, ◌^◌, ◌<◌, String, ◌≡◌, refl, ap, ◌∙◌, ◌⊎◌, inl, inr, Bool, true, false, not, none,
  some, [], ◌∷◌, ltb, leb, eqb, if◌then◌else◌, Bool-cases, eqb_iff, not-eq-true, &&-eq-true, append,
  char_eq, char_eq_iff, char_eq_refl, all_chars, is_ascii_digit, strip_prefix, split_char,
}
use Prim.Native.Char.{Char, code}
use text.Mathlib.TextLemmas.{nil-append, cons-append}
use bitcoin_knowledge_base.Base.Decimal.{
  print, parse_below, parse_below-print, parse_below-zero, print-digits,
}
use bitcoin_knowledge_base.Base.Text.Single.{both_true, all_chars-append, IsWithout}
use bitcoin_knowledge_base.Store.Specs.{padded, zero_if}
use bitcoin_knowledge_base.Store.Specs.Laws.{parse_below-padded}
use bitcoin_knowledge_base.Ingest.MailingList.{
  year_zeros, read_number, zeros, padded_year, month_text, year_and_month, successor, next_month,
}

-- A text of digits has no other character.
pub digits-IsWithout :
    (k : ℕ) (s : String)
    → is_ascii_digit k ≡ false
    → all_chars is_ascii_digit s ≡ true
    → IsWithout k s
digits-IsWithout k String.[] n h = refl
digits-IsWithout k (String.◌∷◌ c s) n h =
    let (own, rest) = &&-eq-true (is_ascii_digit (code c)) _ h in
    elim (Bool-cases (eqb (code c) k)) [
      | inl t ↦ cc (n, own, (eqb_iff (code c) k).0 t)
      | inr f ↦ rw f (digits-IsWithout k s n rest)
    ]

zeros-digits :
    (n : ℕ) (s : String)
    → all_chars is_ascii_digit s ≡ true
    → all_chars is_ascii_digit (zeros n s) ≡ true
zeros-digits zero s h = h
zeros-digits (suc n) s h = all_chars-append is_ascii_digit "0" (zeros n s) ∙ zeros-digits n s h

zero_if-digits :
    (b : Bool) (s : String)
    → all_chars is_ascii_digit s ≡ true
    → all_chars is_ascii_digit (zero_if b s) ≡ true
zero_if-digits true s h = all_chars-append is_ascii_digit "0" s ∙ h
zero_if-digits false s h = h

-- A text of digits is read without looking for a sign.
strip_prefix-digits :
    (s : String) → all_chars is_ascii_digit s ≡ true → strip_prefix s "+" ≡ none ⊎ (s ≡ "")
unfolding strip_prefix
strip_prefix-digits String.[] h = inr refl
strip_prefix-digits (String.◌∷◌ c s) h =
    let (own, rest) = &&-eq-true (is_ascii_digit (code c)) _ h in
    elim (Bool-cases (char_eq c "+")) [
      | inl t ↦ let same = (char_eq_iff c "+").0 t in cc (rw same at own)
      | inr f ↦ inl (rw f refl)
    ]

pub read_number_lem :
    (limit n : ℕ) (s : String)
    → all_chars is_ascii_digit s ≡ true
    → parse_below limit s ≡ some n
    → read_number limit s ≡ some n
unfolding read_number
read_number_lem limit n s d h = elim (strip_prefix-digits s d) [
  | inl e ↦ rw e h
  | inr e ↦ cc (rw (e, parse_below) at h)
]

parse_below-zeros :
    (limit k n : ℕ) (s : String)
    → parse_below limit s ≡ some n
    → parse_below limit (zeros k s) ≡ some n
parse_below-zeros limit zero n s h = h
parse_below-zeros limit (suc k) n s h =
    parse_below-zero limit (zeros k s) n (parse_below-zeros limit k n s h)

-- A separator after a text without it ends the first part.
split_char-append :
    (d : Char) (a b : String)
    → IsWithout (code d) a
    → split_char (code d) (append a (String.◌∷◌ d b)) ≡ a ∷ split_char (code d) b
unfolding split_char
split_char-append d String.[] b h = rw (nil-append (String.◌∷◌ d b)) (rw (char_eq_refl d) refl)
split_char-append d (String.◌∷◌ c a) b h =
    let (own, rest) = &&-eq-true (not (eqb (code c) (code d))) _ h in
    rw cons-append (rw (not-eq-true _ own) (rw (split_char-append d a b rest) refl))

split_char-whole : (k : ℕ) (a : String) → IsWithout k a → split_char k a ≡ a ∷ []
unfolding split_char
split_char-whole k String.[] h = refl
split_char-whole k (String.◌∷◌ c a) h =
    let (own, rest) = &&-eq-true (not (eqb (code c) k)) _ h in
    rw (not-eq-true _ own) (rw (split_char-whole k a rest) refl)

padded_year-digits : (y : ℕ) → all_chars is_ascii_digit (padded_year y) ≡ true
unfolding padded_year
padded_year-digits y = zeros-digits (year_zeros y) (print y) (print-digits y)

padded-digits : (m : ℕ) → all_chars is_ascii_digit (padded m) ≡ true
unfolding padded
padded-digits m = zero_if-digits (ltb m 10) (print m) (print-digits m)

month_text_parts : (y m : ℕ) → split_char 45 (month_text y m) ≡ padded_year y ∷ padded m ∷ []
unfolding month_text
month_text_parts y m =
    ap (λ k. split_char 45 (append (padded_year y) k))
      (cons-append "-" "" (padded m) ∙ ap (λ k. String.◌∷◌ "-" k) (nil-append (padded m)))
    ∙ split_char-append "-" (padded_year y) (padded m)
        (digits-IsWithout 45 (padded_year y) refl (padded_year-digits y))
    ∙ ap (λ k. padded_year y ∷ k)
        (split_char-whole 45 (padded m) (digits-IsWithout 45 (padded m) refl (padded-digits m)))

of_parts :
    (s a b : String) (y m : ℕ)
    → split_char 45 s ≡ a ∷ b ∷ []
    → read_number (2 ^ 31) a ≡ some y
    → read_number (2 ^ 32) b ≡ some m
    → year_and_month s ≡ (y, m)
unfolding year_and_month
of_parts s a b y m e h g = rw e (rw h (rw g refl))

read_year : (y : ℕ) → y < 2 ^ 31 → read_number (2 ^ 31) (padded_year y) ≡ some y
unfolding padded_year
read_year y h =
    read_number_lem (2 ^ 31) y (zeros (year_zeros y) (print y))
      (zeros-digits (year_zeros y) (print y) (print-digits y))
      (parse_below-zeros (2 ^ 31) (year_zeros y) y (print y) (parse_below-print (2 ^ 31) y h))

read_month : (m : ℕ) → m < 2 ^ 32 → read_number (2 ^ 32) (padded m) ≡ some m
read_month m h =
    read_number_lem (2 ^ 32) m (padded m) (padded-digits m) (parse_below-padded (2 ^ 32) m h)

-- The year and the month are read back from the text.
year_and_month-month_text :
    (y m : ℕ) → y < 2 ^ 31 → m < 2 ^ 32 → year_and_month (month_text y m) ≡ (y, m)
year_and_month-month_text y m hy hm =
    of_parts (month_text y m) (padded_year y) (padded m) y m (month_text_parts y m) (read_year y hy)
      (read_month m hm)

-- The month after the text of a month is the text of the month after it: the next one of the year, or
-- the first of the next year.
pub next_month-month_text :
    (y m : ℕ)
    → y < 2 ^ 31
    → m < 2 ^ 32
    → next_month (month_text y m)
      ≡ (if leb 12 m then month_text (suc y) 1 else month_text y (suc m))
unfolding next_month
next_month-month_text y m hy hm =
    ap (λ k. month_text (successor k).0 (successor k).1) (year_and_month-month_text y m hy hm)
    ∙ elim (Bool-cases (leb 12 m)) [ inl t ↦ rw t refl | inr f ↦ rw f refl ]

-- A month has no colon, which the cursor puts after it.
pub month_text-IsWithout : (y m : ℕ) → IsWithout 58 (month_text y m)
unfolding month_text
month_text-IsWithout y m =
    all_chars-append (λ c. not (eqb c 58)) (padded_year y) (append "-" (padded m))
    ∙ both_true _ _ (digits-IsWithout 58 (padded_year y) refl (padded_year-digits y)) (
        all_chars-append (λ c. not (eqb c 58)) "-" (padded m)
        ∙ digits-IsWithout 58 (padded m) refl (padded-digits m))
