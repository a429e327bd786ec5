-- ===== src/Ingest/Mail/Laws.antt =====
-- What the headers of a message are read from (bkb-ingest/src/sources/mailing_list.rs:
-- parse_email_headers).
use bitcoin_knowledge_base.Base.{
  String, ◌≡◌, refl, sym, ap, ◌∙◌, false, List, [], ◌∷◌, ◌++◌, All, is_empty,
}
use bitcoin_knowledge_base.Ingest.Mail.{
  ParsedEmail, Reading, start, lines, read_line, read_lines, with_body, body_of,
  parse_email_headers,
}

-- The lines before a blank one decide the headers, the lines after it the body.
read_lines-append :
    (hs bs : List String) (st : Reading)
    → All (λ l. is_empty l ≡ false) hs
    → read_lines (hs ++ "" ∷ bs) st ≡ with_body (body_of bs) (read_lines hs st)
unfolding read_lines
read_lines-append [] bs st h = refl
read_lines-append (l ∷ hs) bs st (h, rest) = rw h (read_lines-append hs bs (read_line l st) rest)

-- Two messages with the same lines before the first blank one have the same subject, author and date,
-- and the body of each is that of its lines after the blank one: no body adds or changes a header.
pub parse_email_headers-body :
    (raw other : String) (hs bs cs : List String)
    → All (λ l. is_empty l ≡ false) hs
    → lines raw ≡ hs ++ "" ∷ bs
    → lines other ≡ hs ++ "" ∷ cs
    → ((parse_email_headers raw).body ≡ body_of bs)
      × (parse_email_headers other ≡ with_body (body_of cs) (parse_email_headers raw))
unfolding parse_email_headers
parse_email_headers-body raw other hs bs cs h e f =
    let of_raw = read_lines-append hs bs start h in
    let of_other = read_lines-append hs cs start h in
    (
      ap (λ k. (read_lines k start).body) e ∙ ap (λ (p : ParsedEmail). p.body) of_raw,
      ap (λ k. read_lines k start) f
          ∙ of_other
          ∙ sym (ap (with_body (body_of cs)) (ap (λ k. read_lines k start) e ∙ of_raw)),
    )
