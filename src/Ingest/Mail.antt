-- ===== src/Ingest/Mail.antt =====
-- The headers and the body of a raw message (bkb-ingest/src/sources/mailing_list.rs:
-- parse_email_headers).
pub mod Headers
pub mod Laws
mod Tests
use bitcoin_knowledge_base.Base.{
  ℕ, zero, suc, ◌+◌, ◌-◌, ◌*◌, ◌/◌, ◌%◌, ◌^◌, ◌≤◌, ◌<◌, min, max, String, ◌≡◌, refl, sym, ap, ◌∙◌,
  subst, ◌≢◌, ◌↔◌, ◌⊎◌, inl, inr, Bool, true, false, not, ◌&&◌, ◌||◌, Option, none, some, List, [],
  ◌∷◌, ◌++◌, map, append_assoc, append-nil, arith, ◌==◌, eq_iff, eq_refl, ltb, leb, eqb,
  if◌then◌else◌, Bool-cases, Option-cases, eqb_iff, option_eq, option_eq_iff, is_some, unwrap_or,
  or_else, ◌>>=◌, ◌>>◌, guard, >>=-eq-some, guard-eq-some, not-eq-true, some_inj, &&-eq-true,
  ||-eq-true, length, take, any, all, filter, find, last?, All, In, here, there, In-filter,
  In-of_filter, In-append_left, In-append_right, In-of_append, All-In, length-append, find-In,
  In-any, any-In, all-In, In-map, In-of_map, append, concat, char_eq, char_eq_iff, char_eq_refl,
  is_empty, all_chars, any_char, is_ascii_digit, is_ascii_alphanumeric, is_whitespace, strip_prefix,
  starts_with, strip_suffix, split_once, rsplit_once, last_segment, first_segment, replace_first,
  replace, trim_start, trim_end, trim, split_char, split_whitespace, strip_prefix-append,
  strip_prefix_sound,
}
use Prim.Native.Char.{code}
use Prim.Native.String

pub record ParsedEmail : Type 0 where
  pub subject : Option String
  pub from : Option String
  pub date : Option String
  pub body : Option String

-- The variables of the loop: what was read, and the header that is being accumulated.
pub record Reading : Type 0 where
  parsed : ParsedEmail
  current_header : Option String
  current_value : String

abbrev pub start : Reading
start = record {
  parsed = record { subject = none; from = none; date = none; body = none };
  current_header = none;
  current_value = "";
}

-- `lines`: a last line without a line feed keeps its carriage return.
abbrev pub split_lines : List String → List String
split_lines [] = []
split_lines (p ∷ []) = if is_empty p then [] else p ∷ []
split_lines (p ∷ q ∷ ps) = unwrap_or (strip_suffix p "\r") p ∷ split_lines (q ∷ ps)

unfoldable pub lines : String → List String
unfolding split_char strip_suffix
lines s = split_lines (split_char 10 s)

abbrev pub lower : ℕ → ℕ
lower c = if leb 65 c && leb c 90 then c + 32 else c

-- Whether the text in lower case (`to_ascii_lowercase`) is the other one.
abbrev pub lowers_to : String → String → Bool
lowers_to String.[] String.[] = true
lowers_to String.[] (String.◌∷◌ d t) = false
lowers_to (String.◌∷◌ c s) String.[] = false
lowers_to (String.◌∷◌ c s) (String.◌∷◌ d t) = eqb (lower (code c)) (code d) && lowers_to s t

abbrev pub header_name : String → Option String
header_name name =
    if lowers_to name "subject"
    then some "subject"
    else if lowers_to name "from"
    then some "from"
    else if lowers_to name "date"
    then some "date"
    else none

unfoldable pub flush_header : Option String → String → ParsedEmail → ParsedEmail
flush_header header value p =
    if is_empty value
    then p
    else if option_eq header (some "subject")
    then record p { subject = some value }
    else if option_eq header (some "from")
    then record p { from = some value }
    else if option_eq header (some "date")
    then record p { date = some value }
    else p

unfoldable pub flushed : Reading → ParsedEmail
unfolding flush_header
flushed st = flush_header st.current_header st.current_value st.parsed

-- A line that is not a continuation: a header that is read, or one that is passed over.
unfoldable pub new_header : String → ParsedEmail → Reading
unfolding split_once trim
new_header line p =
    let other : Reading = record { parsed = p; current_header = none; current_value = "" } in
    elim (split_once line ":") [
      | none ↦ other
      | some (name, value) ↦ elim (header_name name) [
        | none ↦ other
        | some header ↦ record {
          parsed = p;
          current_header = some header;
          current_value = trim value;
        }
      ]
    ]

-- One turn of the loop, at a line that is not blank.
unfoldable pub read_line : String → Reading → Reading
unfolding starts_with trim flushed new_header
read_line line st =
    if starts_with line " " || starts_with line "\t"
    then (if is_some st.current_header
        then record st { current_value = concat (st.current_value ∷ " " ∷ trim line ∷ []) }
        else st)
    else new_header line (flushed st)

abbrev pub join_lines : List String → String
join_lines [] = ""
join_lines (t ∷ []) = t
join_lines (t ∷ u ∷ ts) = append t (append "\n" (join_lines (u ∷ ts)))

unfoldable pub body_of : List String → Option String
unfolding trim
body_of ls = let trimmed = trim (join_lines ls) in if is_empty trimmed then none else some trimmed

abbrev pub with_body : Option String → ParsedEmail → ParsedEmail
with_body b p = record p { body = b }

unfoldable pub read_lines : List String → Reading → ParsedEmail
unfolding flushed body_of read_line
read_lines [] st = flushed st
read_lines (l ∷ ls) st =
    let rest = read_lines ls (read_line l st) in
    if is_empty l then with_body (body_of ls) (flushed st) else rest

unfoldable pub parse_email_headers : String → ParsedEmail
unfolding lines read_lines
parse_email_headers raw = read_lines (lines raw) start
