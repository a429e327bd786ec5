-- ===== src/Mirror.antt =====
-- bkb-core/src/mirror.rs: what the issue-mirror bots write round a copied issue or comment. The
-- check of a date is the date library's, and a parameter.
pub mod Laws
mod Tests
use bitcoin_knowledge_base.Base.{
  ℕ, zero, suc, ◌+◌, ◌-◌, ◌*◌, ◌/◌, ◌%◌, ◌^◌, ◌≤◌, ◌<◌, min, max, String, ◌≡◌, refl, sym, ap, ◌∙◌,
  subst, ◌≢◌, ◌↔◌, ◌⊎◌, inl, inr, Bool, true, false, not, ◌&&◌, ◌||◌, Option, none, some, List, [],
  ◌∷◌, ◌++◌, map, append_assoc, append-nil, arith, ◌==◌, eq_iff, eq_refl, ltb, leb, eqb,
  if◌then◌else◌, Bool-cases, Option-cases, eqb_iff, option_eq, option_eq_iff, is_some, unwrap_or,
  or_else, ◌>>=◌, ◌>>◌, guard, >>=-eq-some, length, take, any, all, filter, find, last?, All, In,
  here, there, In-filter, In-of_filter, In-append_left, In-append_right, In-of_append, All-In,
  length-append, find-In, In-any, any-In, In-map, In-of_map, append, concat, char_eq, char_eq_iff,
  char_eq_refl, is_empty, all_chars, any_char, is_ascii_digit, is_ascii_alphanumeric, is_whitespace,
  strip_prefix, starts_with, strip_suffix, split_once, rsplit_once, last_segment, first_segment,
  replace_first, replace, trim_start, trim_end, trim, split_char, split_whitespace,
  strip_prefix-append, strip_prefix_sound,
}
use bitcoin_knowledge_base.Model.SourceType.{
  SourceType, forgejo_issue, forgejo_comment, github_issue, github_comment,
}
use bitcoin_knowledge_base.Model.Document.{Document, make_id}
use bitcoin_knowledge_base.Repository.{forgejo_identity}

pub record MirrorOrigin : Type 0 where
  pub id : String
  pub parent_id : Option String
  pub body : String
  pub author : String
  pub repo : String

abbrev pub mirrored_repo : String
mirrored_repo = "lightningdevkit/rust-lightning"

-- The record was written by the bot with this name and number in this repository.
unfoldable pub written_by : Document → String → String → String → Bool
written_by doc repo author_id author =
    option_eq doc.source_repo (some repo)
    && (option_eq doc.author_id (some author_id) && option_eq doc.author (some author))

-- Whether the record is a copy from GitHub (`true`) or from Forgejo; `none` for any other.
unfoldable pub from_github : Document → Option Bool
from_github doc =
    let to_forgejo : Option Bool =
      if written_by doc (forgejo_identity mirrored_repo) "72" "github-comment-mirror"
      then some true
      else none in
    let to_github : Option Bool =
      if written_by doc mirrored_repo "199857858" "ldk-reviews-bot" then some false else none in
    elim doc.source_type [
      | forgejo_issue ↦ to_forgejo
      | forgejo_comment ↦ to_forgejo
      | github_comment ↦ to_github
      | _ ↦ none
    ]

unfoldable pub field : String → List (String × String) → Option String
field key [] = none
field key ((k, v) ∷ fs) = if k == key then some v else field key fs

-- The `key=value` pairs of the marker; a pair without `=` and a repeated key are refused.
unfoldable pub marker_fields :
    List (String × String) → List String → Option (List (String × String))
unfolding field split_once
marker_fields seen [] = some seen
marker_fields seen (pair ∷ pairs) = do
  kv ← split_once pair "="
  guard (not (is_some (field kv.0 seen)))
  marker_fields (kv ∷ seen) pairs

-- The value of a field that consists of digits.
unfoldable pub numeric : List (String × String) → String → Option String
unfolding field
numeric fields name = do
  s ← field name fields
  guard (not (is_empty s) && all_chars is_ascii_digit s)
  some s

abbrev pub absent_or : Option String → String → Bool
absent_or none s = true
absent_or (some v) s = v == s

abbrev base_url : Bool → String
base_url from_gh = if from_gh then "https://github.com" else "https://git.rust-bitcoin.org"

-- The header of an issue: its author.
unfoldable pub issue_header : (String → Bool) → String → String → String → Option String
unfolding strip_prefix strip_suffix split_once
issue_header valid_date base gh_issue header = do
  tail ← strip_prefix header (
      concat (
        "*Mirrored from GitHub issue [" ∷ mirrored_repo ∷ "#" ∷ gh_issue ∷ "](" ∷ base ∷ "/"
        ∷ mirrored_repo ∷ "/issues/" ∷ gh_issue ∷ "), opened by [`@" ∷ []))
  parts ← split_once tail "`]("
  dated ← strip_prefix parts.1 (concat (base ∷ "/" ∷ parts.0 ∷ ") on " ∷ []))
  date ← strip_suffix dated ".*"
  guard (valid_date date)
  some parts.0

-- The header of a comment: its author, the number of its thread and its own id.
unfoldable pub comment_header : Bool → String → String → Option (String × String × String)
unfolding strip_prefix split_once
comment_header from_gh base header = do
  opened ← strip_prefix header "*[`@"
  parts ← split_once opened "`]("
  tail ←
      strip_prefix parts.1
        (concat (base ∷ "/" ∷ parts.0 ∷ ") [commented](" ∷ base ∷ "/" ∷ mirrored_repo ∷ "/" ∷ []))
  link ← split_once tail ") on "
  guard (link.1 == (if from_gh then "GitHub:*" else "Forgejo:*"))
  path ← strip_prefix link.0 "issues/"
  ids ← split_once path "#issuecomment-"
  guard (all_chars is_ascii_digit ids.0 && not (is_empty ids.0))
  some (parts.0, ids.0, ids.1)

-- The thread that a copy on GitHub stands in: the last part of its parent's id.
unfoldable pub thread_matches : Bool → Document → String → String → Bool
unfolding last_segment
thread_matches true doc number gh_issue = number == gh_issue
thread_matches false doc number gh_issue = elim doc.parent_id [
  | none ↦ false
  | some pid ↦ last_segment pid ":" == gh_issue
]

-- The author, the number of the thread at the origin, and the comment's id if it is one.
unfoldable pub read_header :
    (String → Bool)
    → Document
    → Bool
    → List (String × String)
    → String
    → String
    → Option (String × String × Option String)
unfolding issue_header comment_header thread_matches numeric
read_header valid_date doc from_gh fields gh_issue header = elim doc.source_type [
  | forgejo_issue ↦ do
    author ← issue_header valid_date (base_url from_gh) gh_issue header
    some (author, gh_issue, none)
  | _ ↦ do
    h ← comment_header from_gh (base_url from_gh) header
    guard (option_eq (numeric fields (if from_gh then "gh_comment" else "fj_comment")) (some h.2))
    guard (thread_matches from_gh doc h.1 gh_issue)
    some (h.0, h.1, some h.2)
]

-- `b"-_.".contains(&b)`, or a letter or digit
abbrev pub is_author_char : ℕ → Bool
is_author_char c = is_ascii_alphanumeric c || (eqb c 45 || (eqb c 95 || eqb c 46))

unfoldable pub origin_of : Bool → String → (String × String × Option String) → MirrorOrigin
origin_of from_gh body header =
    let repo = if from_gh then mirrored_repo else forgejo_identity mirrored_repo in
    let parent = make_id (if from_gh then github_issue else forgejo_issue) (some repo) header.1 in
    elim header.2 [
      | none ↦ record { id = parent; parent_id = none; body = body; author = header.0; repo = repo }
      | some comment ↦ record {
        id = make_id (if from_gh then github_comment else forgejo_comment) (some repo) comment;
        parent_id = some parent;
        body = body;
        author = header.0;
        repo = repo;
      }
    ]

-- The origin of a record that one of the bots wrote; `none` for any other text.
unfoldable pub parse : (String → Bool) → Document → Option MirrorOrigin
parse valid_date doc = do
  from_gh ← from_github doc
  text ← doc.body
  cut ← rsplit_once (trim_end text) "\n\n<!-- issue-mirror:v1 "
  marker ← strip_suffix cut.1 " -->"
  fields ← marker_fields [] (split_whitespace marker)
  guard (option_eq (field "origin" fields) (some (if from_gh then "github" else "forgejo")))
  guard (option_eq (field "gh_repo" fields) (some mirrored_repo))
  guard (absent_or (field "fj_repo" fields) mirrored_repo)
  split ← split_once cut.0 "\n\n---\n\n"
  gh_issue ← numeric fields "gh_issue"
  header ← read_header valid_date doc from_gh fields gh_issue split.0
  guard (not (is_empty header.0) && all_chars is_author_char header.0)
  some (origin_of from_gh split.1 header)
