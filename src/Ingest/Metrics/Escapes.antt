-- ===== src/Ingest/Metrics/Escapes.antt =====
-- Texts put into the Prometheus page and into HTML (bkb-ingest/src/metrics.rs: prom_escape,
-- html_escape; html_util.rs: html_unescape).
use bitcoin_knowledge_base.Base.{
  String, ◌≡◌, refl, sym, ap, ◌∙◌, inl, inr, Bool, true, false, Option, none, some, eqb,
  if◌then◌else◌, Bool-cases, append, char_eq, char_eq_iff, replace,
}
use Prim.Native.Char.{Char, code}
use text.Mathlib.TextLemmas.{nil-append, cons-append}
use bitcoin_knowledge_base.Base.Text.Single.{
  IsWithout, IsWithout-subst, IsWithout-kept, subst_char, replace-char, subst_char-append,
}

unfoldable pub prom_escape : String → String
unfolding replace
prom_escape s = replace (replace (replace s "\\" "\\\\") "\"" "\\\"") "\n" "\\n"

unfoldable pub html_escape : String → String
unfolding replace
html_escape s =
    replace (replace (replace (replace s "&" "&amp;") "<" "&lt;") ">" "&gt;") "\"" "&quot;"

unfoldable pub html_unescape : String → String
unfolding replace
html_unescape s =
    replace
      (replace
        (replace (replace (replace (replace s "&amp;" "&") "&lt;" "<") "&gt;" ">") "&quot;" "\"")
        "&#39;" "'")
      "&nbsp;" " "

abbrev backslash : Char
backslash = "\\"

abbrev quote : Char
quote = "\""

abbrev feed : Char
feed = "\n"

abbrev in_front : Option Char → Option (String × String) → Option (String × String)
in_front (some c) (some (s, rest)) = some (String.◌∷◌ c s, rest)
in_front _ _ = none

-- The character that a backslash and the given one stand for: a backslash, a quote or a line feed.
abbrev unescaped : Char → Option Char
unescaped c =
    if char_eq c backslash
    then some backslash
    else if char_eq c quote
    then some quote
    else if eqb (code c) 110
    then some feed
    else none

-- A label value of the Prometheus format up to its closing quote, and what follows the quote.
abbrev pub read_label : Bool → String → Option (String × String)
read_label escaped String.[] = none
read_label true (String.◌∷◌ c s) = in_front (unescaped c) (read_label false s)
read_label false (String.◌∷◌ c s) =
    let after = read_label true s in
    let rest = read_label false s in
    if char_eq c quote
    then some ("", s)
    else if char_eq c backslash
    then after
    else if char_eq c feed
    then none
    else in_front (some c) rest

-- The three replacements, as one.
abbrev escape_char : Char → String → String
escape_char c rest =
    if char_eq c backslash
    then append "\\\\" rest
    else if char_eq c quote
    then append "\\\"" rest
    else if char_eq c feed
    then append "\\n" rest
    else String.◌∷◌ c rest

abbrev escape_backslash : String → String
escape_backslash s = subst_char backslash "\\\\" s

abbrev escape_quote : String → String
escape_quote s = subst_char quote "\\\"" s

abbrev escape_feed : String → String
escape_feed s = subst_char feed "\\n" s

prom_escape_chars : (s : String) → prom_escape s ≡ escape_feed (escape_quote (escape_backslash s))
unfolding prom_escape
prom_escape_chars s =
    rw
      (
        replace-char backslash "\\\\" s,
        replace-char quote "\\\"" (escape_backslash s),
        replace-char feed "\\n" (escape_quote (escape_backslash s)),
      )
      refl

escape_quote-append :
    (t s : String) → escape_quote (append t s) ≡ append (escape_quote t) (escape_quote s)
escape_quote-append t s = subst_char-append quote "\\\"" t s

escape_feed-append :
    (t s : String) → escape_feed (append t s) ≡ append (escape_feed t) (escape_feed s)
escape_feed-append t s = subst_char-append feed "\\n" t s

chars-cons :
    (c : Char) (s : String)
    → escape_feed (escape_quote (escape_backslash (String.◌∷◌ c s)))
      ≡ escape_char c (escape_feed (escape_quote (escape_backslash s)))
chars-cons c s = elim (Bool-cases (char_eq c backslash)) [
  | inl t ↦ rw t (
      ap escape_feed (escape_quote-append "\\\\" (escape_backslash s))
      ∙ escape_feed-append "\\\\" (escape_quote (escape_backslash s)))
  | inr f ↦ rw f (elim (Bool-cases (char_eq c quote)) [
    | inl t ↦ rw t (escape_feed-append "\\\"" (escape_quote (escape_backslash s)))
    | inr n ↦ rw n (elim (Bool-cases (char_eq c feed)) [ inl t ↦ rw t refl | inr m ↦ rw m refl ])
  ])
]

prom_escape-cons :
    (c : Char) (s : String) → prom_escape (String.◌∷◌ c s) ≡ escape_char c (prom_escape s)
prom_escape-cons c s =
    prom_escape_chars (String.◌∷◌ c s)
    ∙ chars-cons c s
    ∙ ap (escape_char c) (sym (prom_escape_chars s))

two-append :
    (a b : Char) (e t : String)
    → append (append (String.◌∷◌ a (String.◌∷◌ b "")) e) t
      ≡ String.◌∷◌ a (String.◌∷◌ b (append e t))
two-append a b e t =
    ap (λ k. append k t)
      (cons-append a (String.◌∷◌ b "") e
        ∙ ap (λ k. String.◌∷◌ a k) (cons-append b "" e ∙ ap (λ k. String.◌∷◌ b k) (nil-append e)))
    ∙ cons-append a (String.◌∷◌ b e) t
    ∙ ap (λ k. String.◌∷◌ a k) (cons-append b e t)

read_label-escape_char :
    (c : Char) (e t : String)
    → read_label false (append (escape_char c e) t)
      ≡ in_front (some c) (read_label false (append e t))
read_label-escape_char c e t = elim (Bool-cases (char_eq c backslash)) [
  | inl b ↦ rw b (
      ap (read_label false) (two-append backslash backslash e t)
      ∙ ap (λ k. in_front (some k) (read_label false (append e t)))
          (sym ((char_eq_iff c backslash).0 b)))
  | inr f ↦ rw f (elim (Bool-cases (char_eq c quote)) [
    | inl q ↦ rw q (
        ap (read_label false) (two-append backslash quote e t)
        ∙ ap (λ k. in_front (some k) (read_label false (append e t)))
            (sym ((char_eq_iff c quote).0 q)))
    | inr n ↦ rw n (elim (Bool-cases (char_eq c feed)) [
      | inl l ↦ rw l (
          ap (read_label false) (two-append backslash "n" e t)
          ∙ ap (λ k. in_front (some k) (read_label false (append e t)))
              (sym ((char_eq_iff c feed).0 l)))
      | inr m ↦ rw m (ap (read_label false) (cons-append c e t) ∙ rw (n, f, m, read_label) refl)
    ])
  ])
]

-- A label value that is escaped and quoted is read back, whatever follows.
pub read_label-prom_escape :
    (s rest : String)
    → read_label false (append (prom_escape s) (append "\"" rest)) ≡ some (s, rest)
read_label-prom_escape String.[] rest =
    ap (λ k. read_label false (append k (append "\"" rest))) (prom_escape_chars "")
    ∙ ap (read_label false) (nil-append (append "\"" rest) ∙ cons-append quote "" rest)
    ∙ ap (λ k. some ("", k)) (nil-append rest)
read_label-prom_escape (String.◌∷◌ c s) rest =
    ap (λ k. read_label false (append k (append "\"" rest))) (prom_escape-cons c s)
    ∙ read_label-escape_char c (prom_escape s) (append "\"" rest)
    ∙ ap (in_front (some c)) (read_label-prom_escape s rest)

html_escape_chars :
    (s : String)
    → html_escape s
      ≡ subst_char "\"" "&quot;"
          (subst_char ">" "&gt;" (subst_char "<" "&lt;" (subst_char "&" "&amp;" s)))
unfolding html_escape
html_escape_chars s =
    rw
      (
        replace-char "&" "&amp;" s,
        replace-char "<" "&lt;" (subst_char "&" "&amp;" s),
        replace-char ">" "&gt;" (subst_char "<" "&lt;" (subst_char "&" "&amp;" s)),
        replace-char "\"" "&quot;"
            (subst_char ">" "&gt;" (subst_char "<" "&lt;" (subst_char "&" "&amp;" s))),
      )
      refl

-- A text that is escaped for a page has no `<`, no `>` and no `"`, so that it neither opens a tag nor
-- ends an attribute.
pub html_escape-IsWithout :
    (s : String)
    → IsWithout 60 (html_escape s) × (IsWithout 62 (html_escape s) × IsWithout 34 (html_escape s))
html_escape-IsWithout s =
    let s1 = subst_char "<" "&lt;" (subst_char "&" "&amp;" s) in
    let s2 = subst_char ">" "&gt;" s1 in
    rw (html_escape_chars s) (
      IsWithout-kept 60 "\"" "&quot;" s2 refl (
          IsWithout-kept 60 ">" "&gt;" s1 refl
            (IsWithout-subst "<" "&lt;" (subst_char "&" "&amp;" s) refl)),
      (
        IsWithout-kept 62 "\"" "&quot;" s2 refl (IsWithout-subst ">" "&gt;" s1 refl),
        IsWithout-subst "\"" "&quot;" s2 refl,
      ),
    )
