-- ===== src/Ingest/Mail/Headers.antt =====
-- Headers are read back from the lines of a message (bkb-ingest/src/sources/mailing_list.rs:
-- parse_email_headers).
use bitcoin_knowledge_base.Base.{
  String, ◌≡◌, refl, sym, ap, ◌∙◌, subst, false, ◌||◌, some, List, ◌∷◌, append, char_eq, is_empty,
  strip_prefix, starts_with, trim_start, trim,
}
use Prim.Native.Char.{Char}
use text.Mathlib.TextLemmas.{nil-append, cons-append}
use bitcoin_knowledge_base.Base.Split.{split_once-append}
use bitcoin_knowledge_base.Base.Text.Single.{IsWithout}
use bitcoin_knowledge_base.Ingest.Mail.{
  Reading, start, lines, flushed, flush_header, read_line, read_lines, new_header, header_name,
  body_of, parse_email_headers,
}

-- A header as a mail program writes it.
abbrev pub header_line : String → String → String
header_line name value = append name (append ":" (append " " value))

trim-space : (s : String) → trim (append " " s) ≡ trim s
unfolding trim trim_start
trim-space s = ap trim (cons-append " " "" s ∙ ap (λ k. String.◌∷◌ " " k) (nil-append s))

-- A name begins with a letter, so that its line neither is blank nor continues another.
abbrev Begins : String → Type 0
Begins line = (is_empty line ≡ false) × ((starts_with line " " || starts_with line "\t") ≡ false)

begins :
    (c : Char) (name rest : String)
    → char_eq c " " ≡ false
    → char_eq c "\t" ≡ false
    → Begins (append (String.◌∷◌ c name) rest)
unfolding starts_with strip_prefix
begins c name rest space tab =
    subst Begins (sym (cons-append c name rest)) (refl, rw space (rw tab refl))

read_line-header_line :
    (c : Char) (name lower value : String) (st : Reading)
    → char_eq c " " ≡ false
    → char_eq c "\t" ≡ false
    → IsWithout 58 (String.◌∷◌ c name)
    → header_name (String.◌∷◌ c name) ≡ some lower
    → trim value ≡ value
    → read_line (header_line (String.◌∷◌ c name) value) st
      ≡ record { parsed = flushed st; current_header = some lower; current_value = value }
unfolding read_line new_header
read_line-header_line c name lower value st space tab bare known trimmed =
    let (_, fresh) = begins c name (append ":" (append " " value)) space tab in
    rw fresh (
      rw
        (
          split_once-append ":" (String.◌∷◌ c name) (append " " value) bare,
          known,
          trim-space value,
          trimmed,
          new_header,
        )
        refl)

-- A subject, an author and a date that are trimmed and not empty are read back from a message whose
-- first lines are these three headers and a blank line, and the body is that of the lines after it.
pub parse_email_headers-header_line :
    (raw s f d : String) (bs : List String)
    → (trim s ≡ s) × (is_empty s ≡ false)
    → (trim f ≡ f) × (is_empty f ≡ false)
    → (trim d ≡ d) × (is_empty d ≡ false)
    → lines raw ≡ header_line "Subject" s ∷ header_line "From" f ∷ header_line "Date" d ∷ "" ∷ bs
    → parse_email_headers raw
      ≡ record { subject = some s; from = some f; date = some d; body = body_of bs }
unfolding parse_email_headers read_lines flushed flush_header
parse_email_headers-header_line raw s f d bs (ts, es) (tf, ef) (td, ed) e =
    let (ns, _) = begins "S" "ubject" (append ":" (append " " s)) refl refl in
    let (nf, _) = begins "F" "rom" (append ":" (append " " f)) refl refl in
    let (nd, _) = begins "D" "ate" (append ":" (append " " d)) refl refl in
    rw e (
      rw ns (
        rw nf (
          rw nd (
            rw (read_line-header_line "S" "ubject" "subject" s start refl refl refl refl ts) (
              rw (read_line-header_line "F" "rom" "from" f _ refl refl refl refl tf) (
                rw (read_line-header_line "D" "ate" "date" d _ refl refl refl refl td)
                  (rw es (rw ef (rw ed refl)))))))))
