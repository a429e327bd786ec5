-- ===== src/Ingest/MailingList/Messages.antt =====
-- The message of a feed's entry (bkb-ingest/src/sources/mailing_list.rs: fetch_page,
-- extract_message_id, raw_message_url). Fetching a raw message is a parameter, as are the two formats
-- of times (chrono) and the time of the call.
mod Tests
use bitcoin_knowledge_base.Base.{
  ℕ, zero, suc, ◌+◌, ◌-◌, ◌*◌, ◌/◌, ◌%◌, ◌^◌, ◌≤◌, ◌<◌, min, max, String, ◌≡◌, refl, sym, ap, ◌∙◌,
  subst, ◌≢◌, ◌↔◌, ◌⊎◌, inl, inr, Bool, true, false, not, ◌&&◌, ◌||◌, Option, none, some, List, [],
  ◌∷◌, ◌++◌, map, append_assoc, append-nil, arith, ◌==◌, eq_iff, eq_refl, ltb, leb, eqb,
  if◌then◌else◌, Bool-cases, Option-cases, eqb_iff, option_eq, option_eq_iff, is_some, unwrap_or,
  or_else, ◌>>=◌, ◌>>◌, guard, >>=-eq-some, guard-eq-some, not-eq-true, some_inj, &&-eq-true,
  ||-eq-true, length, take, any, all, filter, find, last?, All, In, here, there, In-filter,
  In-of_filter, In-append_left, In-append_right, In-of_append, All-In, length-append, find-In,
  In-any, any-In, all-In, In-map, In-of_map, append, concat, char_eq, char_eq_iff, char_eq_refl,
  is_empty, all_chars, any_char, is_ascii_digit, is_ascii_alphanumeric, is_whitespace, strip_prefix,
  starts_with, strip_suffix, split_once, rsplit_once, last_segment, first_segment, replace_first,
  replace, trim_start, trim_end, trim, split_char, split_whitespace, strip_prefix-append,
  strip_prefix_sound,
}
use Prim.Native.Char.{code}
use Prim.Native.String
use bitcoin_knowledge_base.Model.SourceType.{mailing_list_msg}
use bitcoin_knowledge_base.Model.Document.{Document, make_id}
use bitcoin_knowledge_base.Ingest.StorePage.{SyncPage}
use bitcoin_knowledge_base.Ingest.Mail.{ParsedEmail, parse_email_headers}
use bitcoin_knowledge_base.Ingest.MailingList.{fetch_month}

pub record AtomEntry : Type 0 where
  link : String
  updated : String

abbrev pub without_slashes : String → String
without_slashes String.[] = ""
without_slashes (String.◌∷◌ c s) =
    let rest = without_slashes s in
    if is_empty rest && eqb (code c) 47 then "" else String.◌∷◌ c rest

unfoldable pub raw_message_url : String → String
raw_message_url link = append (without_slashes link) "/raw"

unfoldable pub extract_message_id : String → String → String
unfolding split_once last_segment
extract_message_id link list_name =
    let trimmed = without_slashes link in
    let last = last_segment trimmed "/" in
    elim (split_once trimmed (concat ("/pi/" ∷ list_name ∷ "/" ∷ []))) [
      | none ↦ last
      | some (_, after_base) ↦ if is_empty after_base then last else after_base
    ]

module _ (rfc2822 rfc3339 : String → Option ℕ) (now : ℕ) where
  unfoldable pub parse_email_date : String → Option ℕ
  parse_email_date date = or_else (rfc2822 date) (rfc3339 date)

  -- An entry without an id or whose message cannot be fetched is skipped.
  unfoldable pub message_of : String → (String → Option String) → AtomEntry → Option Document
  unfolding extract_message_id raw_message_url parse_email_headers parse_email_date make_id
  message_of list_name fetch_raw entry =
      let message_id = extract_message_id entry.link list_name in
      if is_empty message_id then none else (do
        raw_text ← fetch_raw (raw_message_url entry.link)
        let parsed = parse_email_headers raw_text in
            some (record {
              id = make_id mailing_list_msg none message_id;
              source_type = mailing_list_msg;
              source_repo = none;
              source_id = message_id;
              title = parsed.subject;
              body = parsed.body;
              author = parsed.from;
              author_id = none;
              created_at =
                  unwrap_or (or_else (parsed.date >>= parse_email_date) (rfc3339 entry.updated))
                    now;
              updated_at = none;
              parent_id = none;
              metadata = none;
              seq = none;
            }))

  unfoldable pub fetch_archive :
      String
      → String
      → (String → Option (List AtomEntry))
      → (String → Option String)
      → String
      → Option String
      → Option SyncPage
  unfolding fetch_month message_of
  fetch_archive base_url list_name feed fetch_raw current cursor =
      fetch_month base_url feed (message_of list_name fetch_raw) current cursor
