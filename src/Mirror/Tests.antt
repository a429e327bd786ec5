-- ===== src/Mirror/Tests.antt =====
-- The records of the tests in bkb-core/src/mirror.rs.
use bitcoin_knowledge_base.Base.{
  String, ◌≡◌, refl, Bool, true, none, some, append, strip_suffix, split_once, rsplit_once,
  trim_end, split_whitespace,
}
use bitcoin_knowledge_base.Model.SourceType
use bitcoin_knowledge_base.Model.SourceType.{SourceType, forgejo_comment}
use bitcoin_knowledge_base.Model.Document.{Document, make_id}
use bitcoin_knowledge_base.Repository.{forgejo_identity}
use bitcoin_knowledge_base.Mirror.Laws.{IsOrigin, parse-IsOrigin}
use bitcoin_knowledge_base.Mirror.{
  from_github, written_by, marker_fields, read_header, origin_of, field, MirrorOrigin, parse,
}

abbrev any_date : String → Bool
any_date s = true

abbrev pub copied_text : String
copied_text =
    "*[`@alice`](https://github.com/alice) [commented](https://github.com/lightningdevkit/rust-lightning/issues/4760#issuecomment-42) on GitHub:*\n\n---\n\nSee #12\n\n<!-- issue-mirror:v1 origin=github gh_repo=lightningdevkit/rust-lightning gh_issue=4760 gh_comment=42 -->"

abbrev pub copied_comment : Document
copied_comment = record {
  id = "forgejo_comment:git.rust-bitcoin.org/lightningdevkit/rust-lightning:99";
  source_type = forgejo_comment;
  source_repo = some "git.rust-bitcoin.org/lightningdevkit/rust-lightning";
  source_id = "99";
  title = none;
  body = some copied_text;
  author = some "github-comment-mirror";
  author_id = some "72";
  created_at = 0;
  updated_at = none;
  parent_id = some "forgejo_issue:git.rust-bitcoin.org/lightningdevkit/rust-lightning:4866";
  metadata = none;
  seq = none;
}

abbrev pub copied_origin : MirrorOrigin
copied_origin = record {
  id = "github_comment:lightningdevkit/rust-lightning:42";
  parent_id = some "github_issue:lightningdevkit/rust-lightning:4760";
  body = "See #12";
  author = "alice";
  repo = "lightningdevkit/rust-lightning";
}

-- What runs in the tests.
opened : Unit {0}
unfolding parse from_github written_by forgejo_identity marker_fields read_header origin_of trim_end
    rsplit_once strip_suffix split_whitespace split_once field make_id SourceType.as_str
opened = tt

pub parse_copied : parse any_date copied_comment ≡ some copied_origin
unfolding opened
parse_copied = refl

-- A text behind the marker, and another author.
parse_spoofed :
    (parse any_date (record copied_comment { author_id = some "1" }) ≡ none)
    × (parse any_date (record copied_comment { body = some (append copied_text "\nMy reply") })
        ≡ none)
unfolding opened
parse_spoofed = (refl, refl)

parse-IsOrigin_example : IsOrigin copied_comment copied_origin
parse-IsOrigin_example = parse-IsOrigin any_date copied_comment copied_origin parse_copied
