-- ===== src/Ingest/Mail/Tests.antt =====
-- Two messages (bkb-ingest/src/sources/mailing_list.rs: parse_email_headers).
use bitcoin_knowledge_base.Base.{
  String, ◌≡◌, refl, none, some, List, [], ◌∷◌, ◌++◌, strip_prefix, starts_with, strip_suffix,
  split_once, trim_start, trim_end, trim, split_char,
}
use bitcoin_knowledge_base.Ingest.Mail.{
  lines, flush_header, flushed, read_line, read_lines, new_header, with_body, body_of,
  parse_email_headers,
}
use bitcoin_knowledge_base.Ingest.Mail.Headers.{parse_email_headers-header_line}
use bitcoin_knowledge_base.Ingest.Mail.Laws.{parse_email_headers-body}

abbrev headers : List String
headers = "SUBJECT: fee" ∷ " bumping" ∷ "X-Spam: no" ∷ "From: alice" ∷ []

abbrev plain : String
plain = "SUBJECT: fee\r\n bumping\r\nX-Spam: no\r\nFrom: alice\r\n\r\nhello\r\n"

abbrev forged : String
forged = "SUBJECT: fee\n bumping\nX-Spam: no\nFrom: alice\n\nFrom: mallory\nhello"

plain_read : lines plain ≡ headers ++ "" ∷ "hello" ∷ []
unfolding lines split_char strip_suffix
plain_read = refl

forged_read : lines forged ≡ headers ++ "" ∷ "From: mallory" ∷ "hello" ∷ []
unfolding lines split_char strip_suffix
forged_read = refl

parsed :
    parse_email_headers plain
    ≡ record { subject = some "fee bumping"; from = some "alice"; date = none; body = some "hello" }
unfolding parse_email_headers lines split_char strip_suffix read_lines read_line flushed
    flush_header new_header body_of split_once trim trim_start trim_end starts_with strip_prefix
parsed = refl

parse_email_headers-body_example :
    ((parse_email_headers plain).body ≡ body_of ("hello" ∷ []))
    × (parse_email_headers forged
        ≡ with_body (body_of ("From: mallory" ∷ "hello" ∷ [])) (parse_email_headers plain))
parse_email_headers-body_example =
    parse_email_headers-body plain forged headers ("hello" ∷ []) ("From: mallory" ∷ "hello" ∷ [])
      (refl, (refl, (refl, (refl, tt)))) plain_read forged_read

abbrev written : String
written = "Subject: fee bumping\nFrom: alice\nDate: today\n\nhello"

parse_email_headers-header_line_example : parse_email_headers written ≡ record {
  subject = some "fee bumping";
  from = some "alice";
  date = some "today";
  body = body_of ("hello" ∷ []);
}
unfolding lines split_char strip_suffix trim trim_start trim_end
parse_email_headers-header_line_example =
    parse_email_headers-header_line written "fee bumping" "alice" "today" ("hello" ∷ [])
      (refl, refl) (refl, refl) (refl, refl) refl
