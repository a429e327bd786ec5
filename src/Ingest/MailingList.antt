-- ===== src/Ingest/MailingList.antt =====
-- The walk through the archive of a mailing list (bkb-ingest/src/sources/mailing_list.rs). The entries
-- of a feed and the raw messages are fetched over HTTP, so that they are parameters; a feed that
-- cannot be read is the error `none`. Years and offsets are taken not to pass their types.
pub mod Messages
pub mod Months
pub mod Laws
mod Tests
use bitcoin_knowledge_base.Base.{
  ℕ, zero, suc, ◌+◌, ◌-◌, ◌*◌, ◌/◌, ◌%◌, ◌^◌, ◌≤◌, ◌<◌, min, max, String, ◌≡◌, refl, sym, ap, ◌∙◌,
  subst, ◌≢◌, ◌↔◌, ◌⊎◌, inl, inr, Bool, true, false, not, ◌&&◌, ◌||◌, Option, none, some, List, [],
  ◌∷◌, ◌++◌, map, append_assoc, append-nil, arith, ◌==◌, eq_iff, eq_refl, ltb, leb, eqb,
  if◌then◌else◌, Bool-cases, Option-cases, eqb_iff, option_eq, option_eq_iff, is_some, unwrap_or,
  or_else, ◌>>=◌, ◌>>◌, guard, >>=-eq-some, guard-eq-some, not-eq-true, some_inj, &&-eq-true,
  ||-eq-true, length, take, any, all, filter, find, last?, All, In, here, there, In-filter,
  In-of_filter, In-append_left, In-append_right, In-of_append, All-In, length-append, find-In,
  In-any, any-In, all-In, In-map, In-of_map, append, concat, char_eq, char_eq_iff, char_eq_refl,
  is_empty, all_chars, any_char, is_ascii_digit, is_ascii_alphanumeric, is_whitespace, strip_prefix,
  starts_with, strip_suffix, split_once, rsplit_once, last_segment, first_segment, replace_first,
  replace, trim_start, trim_end, trim, split_char, split_whitespace, strip_prefix-append,
  strip_prefix_sound,
}
use Prim.Native.Nat.{Ordering}
use Prim.Native.String.{compare}
use bitcoin_knowledge_base.Base.Decimal.{print, parse_below}
use bitcoin_knowledge_base.Model.Document.{Document}
use bitcoin_knowledge_base.Store.Specs.{padded}
use bitcoin_knowledge_base.Ingest.StorePage.{SyncPage}

abbrev pub archive_start : String
archive_start = "2011-06"

-- `parse` of an unsigned number, which may have a plus sign
unfoldable pub read_number : ℕ → String → Option ℕ
unfolding parse_below strip_prefix
read_number limit s = parse_below limit (unwrap_or (strip_prefix s "+") s)

unfoldable pub parse_cursor : Option String → String × ℕ
unfolding read_number split_once
parse_cursor none = (archive_start, 0)
parse_cursor (some c) = elim (split_once c ":") [
  | some (month, off_str) ↦ (month, unwrap_or (read_number (2 ^ 64) off_str) 0)
  | none ↦ (c, 0)
]

abbrev pub zeros : ℕ → String → String
zeros zero s = s
zeros (suc n) s = append "0" (zeros n s)

abbrev pub year_zeros : ℕ → ℕ
year_zeros y = if ltb y 10 then 3 else if ltb y 100 then 2 else if ltb y 1000 then 1 else 0

-- `format!("{:04}", year)`
unfoldable pub padded_year : ℕ → String
unfolding print
padded_year y = zeros (year_zeros y) (print y)

-- `format!("{:04}-{:02}", year, mon)`
unfoldable pub month_text : ℕ → ℕ → String
unfolding padded_year padded
month_text y m = append (padded_year y) (append "-" (padded m))

abbrev pub part : ℕ → List String → Option String
part n [] = none
part zero (s ∷ ss) = some s
part (suc n) (s ∷ ss) = part n ss

-- The year and the month, or those of January 2011.
unfoldable pub year_and_month : String → ℕ × ℕ
unfolding split_char read_number
year_and_month month =
    let parts = split_char 45 month in
    (
      unwrap_or (part 0 parts >>= read_number (2 ^ 31)) 2011,
      unwrap_or (part 1 parts >>= read_number (2 ^ 32)) 1,
    )

abbrev pub successor : ℕ × ℕ → ℕ × ℕ
successor (year, mon) = if leb 12 mon then (suc year, 1) else (year, suc mon)

unfoldable pub next_month : String → String
unfolding year_and_month month_text
next_month month = let s = successor (year_and_month month) in month_text s.0 s.1

unfoldable pub month_date_range : String → String × String
unfolding year_and_month month_text
month_date_range month =
    let ym = year_and_month month in
    let s = successor ym in (append (month_text ym.0 ym.1) "-01", append (month_text s.0 s.1) "-01")

unfoldable pub feed_url : String → String → ℕ → String
unfolding month_date_range print
feed_url base_url month offset =
    let (start, end) = month_date_range month in
    if ltb 0 offset
    then concat (base_url ∷ "/?q=d:" ∷ start ∷ ".." ∷ end ∷ "&x=A&o=" ∷ print offset ∷ [])
    else concat (base_url ∷ "/?q=d:" ∷ start ∷ ".." ∷ end ∷ "&x=A" ∷ [])

-- `<` on texts
abbrev pub precedes : String → String → Bool
precedes a b = elim (compare a b) [ Ordering.lt ↦ true | _ ↦ false ]

-- The cursor after a page of `count` entries.
unfoldable pub cursor_after : String → ℕ → ℕ → String → Option String
unfolding next_month print
cursor_after month offset count current =
    if eqb count 0
    then (if precedes month current then some (next_month month) else none)
    else if leb 10 count
    then some (append month (append ":" (print (offset + count))))
    else if precedes month current
    then some (next_month month)
    else some month

module _ {Entry : Type 0} where
  -- `document` is the message of an entry, if it has an id and can be fetched.
  unfoldable pub messages : (Entry → Option Document) → List Entry → List Document
  messages document [] = []
  messages document (e ∷ es) =
      let rest = messages document es in elim (document e) [ none ↦ rest | some doc ↦ doc ∷ rest ]

  -- `current` is the month of today.
  unfoldable pub fetch_month :
      String
      → (String → Option (List Entry))
      → (Entry → Option Document)
      → String
      → Option String
      → Option SyncPage
  unfolding parse_cursor feed_url cursor_after messages
  fetch_month base_url feed document current cursor =
      let (month, offset) = parse_cursor cursor in
      (do
        entries ← feed (feed_url base_url month offset)
        some (record {
          checkpoint = none;
          documents = messages document entries;
          references = [];
          next_cursor = cursor_after month offset (length entries) current;
        }))
