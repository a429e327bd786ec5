-- ===== src/Ingest/Headers.antt =====
-- The headers of a page (bkb-ingest/src/sources/http.rs: more_pages, retry_after). A header is looked
-- up by a function; the format of dates (chrono) is a parameter.
mod Tests
use bitcoin_knowledge_base.Base.{
  ℕ, zero, suc, ◌+◌, ◌-◌, ◌*◌, ◌/◌, ◌%◌, ◌^◌, ◌≤◌, ◌<◌, min, max, String, ◌≡◌, refl, sym, ap, ◌∙◌,
  subst, ◌≢◌, ◌↔◌, ◌⊎◌, inl, inr, Bool, true, false, not, ◌&&◌, ◌||◌, Option, none, some, List, [],
  ◌∷◌, ◌++◌, map, append_assoc, append-nil, arith, ◌==◌, eq_iff, eq_refl, ltb, leb, eqb,
  if◌then◌else◌, Bool-cases, Option-cases, eqb_iff, option_eq, option_eq_iff, is_some, unwrap_or,
  or_else, ◌>>=◌, ◌>>◌, guard, >>=-eq-some, guard-eq-some, not-eq-true, some_inj, &&-eq-true,
  ||-eq-true, length, take, any, all, filter, find, last?, All, In, here, there, In-filter,
  In-of_filter, In-append_left, In-append_right, In-of_append, All-In, length-append, find-In,
  In-any, any-In, all-In, In-map, In-of_map, append, concat, char_eq, char_eq_iff, char_eq_refl,
  is_empty, all_chars, any_char, is_ascii_digit, is_ascii_alphanumeric, is_whitespace, strip_prefix,
  starts_with, strip_suffix, split_once, rsplit_once, last_segment, first_segment, replace_first,
  replace, trim_start, trim_end, trim, split_char, split_whitespace, strip_prefix-append,
  strip_prefix_sound,
}
use bitcoin_knowledge_base.Base.Decimal.{print, parse_below}
use bitcoin_knowledge_base.Ingest.MailingList.{read_number}

unfoldable pub contains : String → String → Bool
unfolding split_once
contains s needle = is_some (split_once s needle)

unfoldable pub more_pages : (String → Option String) → ℕ → ℕ → ℕ → Bool
unfolding contains split_char read_number
more_pages headers page limit len = elim (headers "link") [
  | some link ↦ any (λ part. contains part "rel=\"next\"") (split_char 44 link)
  | none ↦ elim (headers "x-total-count" >>= read_number (2 ^ 64)) [
    | some count ↦ ltb (page * limit) count
    | none ↦ leb limit len
  ]
]

-- In seconds; `rfc2822` reads a date, `now` is the time of the call.
unfoldable pub retry_after : (String → Option ℕ) → ℕ → (String → Option String) → ℕ
unfolding read_number
retry_after rfc2822 now headers =
    let value = headers "retry-after" in
    let seconds =
      or_else (value >>= read_number (2 ^ 64))
        (do date ← value >>= rfc2822; some (max (date - now) 1)) in
    max (unwrap_or seconds 60) 1

at_least_one : (n : ℕ) → 1 ≤ max n 1
at_least_one n = omega arith

-- A retry waits at least one second, whatever the header says.
pub retry_after_positive :
    (rfc2822 : String → Option ℕ) (now : ℕ) (headers : String → Option String)
    → 1 ≤ retry_after rfc2822 now headers
unfolding retry_after
retry_after_positive rfc2822 now headers = at_least_one _
