-- ===== src/Model/Document.antt =====
-- `Document`, `Reference` and `SyncState` of bkb-core/src/model.rs, document ids and links. A time
-- is its number of nanoseconds since 1970; a confidence is its number of hundredths.
use bitcoin_knowledge_base.Base.{
  ℕ, String, List, [], ◌∷◌, Option, none, some, ◌>>=◌, if◌then◌else◌, or_else, concat, all_chars,
  is_ascii_digit, last_segment, split_char, strip_prefix,
}
use bitcoin_knowledge_base.Model.SourceType
use bitcoin_knowledge_base.Model.SourceType.{
  SourceType, forgejo_issue, forgejo_pr, forgejo_comment, forgejo_review, forgejo_review_comment,
  github_issue, github_pr, github_comment, github_review, github_review_comment, github_discussion,
  github_discussion_comment, commit, mailing_list_msg, irc_log, delving_topic, delving_post, bip,
  bolt, blip, lud, nut, optech_newsletter, optech_topic, optech_blog, bitcointalk_topic,
  bitcointalk_post,
}
use bitcoin_knowledge_base.Model.RefType.{RefType}
use bitcoin_knowledge_base.Model.SyncStatus.{SyncStatus}
use bitcoin_knowledge_base.Model.Json
use bitcoin_knowledge_base.Model.Json.{Json}

pub record Document : Type 0 where
  pub id : String
  pub source_type : SourceType
  pub source_repo : Option String
  pub source_id : String
  pub title : Option String
  pub body : Option String
  pub author : Option String
  pub author_id : Option String
  pub created_at : ℕ
  pub updated_at : Option ℕ
  pub parent_id : Option String
  pub metadata : Option Json
  pub seq : Option ℕ

pub record Reference : Type 0 where
  pub ref_id : Option ℕ
  pub from_doc_id : String
  pub to_doc_id : Option String
  pub ref_type : RefType
  pub to_external : Option String
  pub context : Option String

pub record SyncState : Type 0 where
  pub source_id : String
  pub source_type : String
  pub source_repo : Option String
  pub last_cursor : Option String
  pub last_synced_at : Option ℕ
  pub next_run_at : Option ℕ
  pub status : SyncStatus
  pub error_message : Option String
  pub retry_count : ℕ
  pub items_found : ℕ

-- The canonical id: the type's text, the repository if there is one, and the id at the source.
unfoldable pub make_id : SourceType → Option String → String → String
make_id t (some repo) source_id = concat (SourceType.as_str t ∷ ":" ∷ repo ∷ ":" ∷ source_id ∷ [])
make_id t none source_id = concat (SourceType.as_str t ∷ ":" ∷ source_id ∷ [])

unfoldable pub metadata_url : Document → Option String
unfolding Json.get Json.as_str
metadata_url doc = do m ← doc.metadata; v ← Json.get m "url"; Json.as_str v

-- The number of the issue that a GitHub comment belongs to, from its parent's id.
unfoldable pub issue_number : Option String → Option String
unfolding last_segment
issue_number parent = do
  pid ← parent
  let n = last_segment pid ":"
  if all_chars is_ascii_digit n then some n else none

unfoldable pub newsletter_link : List String → Option String
newsletter_link (year ∷ month ∷ day ∷ rest) =
    some (
      concat ("https://bitcoinops.org/en/newsletters/" ∷ year ∷ "/" ∷ month ∷ "/" ∷ day ∷ "/" ∷ []))
newsletter_link _ = none

-- The branches of `url` that are taken where the metadata holds no link.
unfoldable pub derived_url : SourceType → Document → Option String
unfolding issue_number newsletter_link split_char strip_prefix Json.get Json.as_str
derived_url github_issue doc = do
  repo ← doc.source_repo
  some (concat ("https://github.com/" ∷ repo ∷ "/issues/" ∷ doc.source_id ∷ []))
derived_url github_pr doc = do
  repo ← doc.source_repo
  some (concat ("https://github.com/" ∷ repo ∷ "/pull/" ∷ doc.source_id ∷ []))
derived_url github_comment doc = do
  num ← issue_number doc.parent_id
  repo ← doc.source_repo
  some (
      concat
        ("https://github.com/" ∷ repo ∷ "/issues/" ∷ num ∷ "#issuecomment-" ∷ doc.source_id ∷ []))
derived_url commit doc = do
  repo ← doc.source_repo
  some (concat ("https://github.com/" ∷ repo ∷ "/commit/" ∷ doc.source_id ∷ []))
derived_url delving_topic doc = some (concat ("https://delvingbitcoin.org/t/" ∷ doc.source_id ∷ []))
derived_url delving_post doc = some (concat ("https://delvingbitcoin.org/p/" ∷ doc.source_id ∷ []))
derived_url optech_newsletter doc = do
  m ← doc.metadata
  v ← Json.get m "slug"
  s ← Json.as_str v
  newsletter_link (split_char 45 s)
derived_url optech_topic doc =
    some (concat ("https://bitcoinops.org/en/topics/" ∷ doc.source_id ∷ "/" ∷ []))
derived_url bitcointalk_topic doc =
    some (concat ("https://bitcointalk.org/index.php?topic=" ∷ doc.source_id ∷ ".0" ∷ []))
derived_url bitcointalk_post doc = do
  pid ← doc.parent_id
  tid ← strip_prefix pid "bitcointalk_topic::"
  some (
      concat (
        "https://bitcointalk.org/index.php?topic=" ∷ tid ∷ ".msg" ∷ doc.source_id ∷ "#msg"
        ∷ doc.source_id ∷ []))
derived_url forgejo_issue doc = none
derived_url forgejo_pr doc = none
derived_url forgejo_comment doc = none
derived_url forgejo_review doc = none
derived_url forgejo_review_comment doc = none
derived_url github_review doc = none
derived_url github_review_comment doc = none
derived_url bip doc = none
derived_url bolt doc = none
derived_url blip doc = none
derived_url lud doc = none
derived_url nut doc = none
derived_url github_discussion doc = none
derived_url github_discussion_comment doc = none
derived_url mailing_list_msg doc = none
derived_url irc_log doc = none
derived_url optech_blog doc = none

-- The link of a document: the stored one if there is one. The kinds whose branch asks the metadata
-- once more have no other link.
unfoldable pub url : Document → Option String
unfolding metadata_url derived_url
url doc = or_else (metadata_url doc) (derived_url doc.source_type doc)
