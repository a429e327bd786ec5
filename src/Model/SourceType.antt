-- ===== src/Model/SourceType.antt =====
-- `SourceType` of bkb-core/src/model.rs and the text that stands for it in ids and columns.
use bitcoin_knowledge_base.Base.{String, Option, none, some, ◌==◌, if◌then◌else◌}

pub data SourceType : Type 0 where
  forgejo_issue forgejo_pr forgejo_comment forgejo_review forgejo_review_comment : SourceType
  github_issue github_pr github_comment github_review github_review_comment : SourceType
  github_discussion github_discussion_comment commit mailing_list_msg irc_log : SourceType
  delving_topic delving_post bip bolt blip lud nut optech_newsletter optech_topic : SourceType
  optech_blog bitcointalk_topic bitcointalk_post : SourceType

unfoldable pub as_str : SourceType → String
as_str forgejo_issue = "forgejo_issue"
as_str forgejo_pr = "forgejo_pr"
as_str forgejo_comment = "forgejo_comment"
as_str forgejo_review = "forgejo_review"
as_str forgejo_review_comment = "forgejo_review_comment"
as_str github_issue = "github_issue"
as_str github_pr = "github_pr"
as_str github_comment = "github_comment"
as_str github_review = "github_review"
as_str github_review_comment = "github_review_comment"
as_str github_discussion = "github_discussion"
as_str github_discussion_comment = "github_discussion_comment"
as_str commit = "commit"
as_str mailing_list_msg = "mailing_list_msg"
as_str irc_log = "irc_log"
as_str delving_topic = "delving_topic"
as_str delving_post = "delving_post"
as_str bip = "bip"
as_str bolt = "bolt"
as_str blip = "blip"
as_str lud = "lud"
as_str nut = "nut"
as_str optech_newsletter = "optech_newsletter"
as_str optech_topic = "optech_topic"
as_str optech_blog = "optech_blog"
as_str bitcointalk_topic = "bitcointalk_topic"
as_str bitcointalk_post = "bitcointalk_post"

unfoldable pub from_str : String → Option SourceType
from_str s =
    if s == "forgejo_issue"
    then some forgejo_issue
    else if s == "forgejo_pr"
    then some forgejo_pr
    else if s == "forgejo_comment"
    then some forgejo_comment
    else if s == "forgejo_review"
    then some forgejo_review
    else if s == "forgejo_review_comment"
    then some forgejo_review_comment
    else if s == "github_issue"
    then some github_issue
    else if s == "github_pr"
    then some github_pr
    else if s == "github_comment"
    then some github_comment
    else if s == "github_review"
    then some github_review
    else if s == "github_review_comment"
    then some github_review_comment
    else if s == "github_discussion"
    then some github_discussion
    else if s == "github_discussion_comment"
    then some github_discussion_comment
    else if s == "commit"
    then some commit
    else if s == "mailing_list_msg"
    then some mailing_list_msg
    else if s == "irc_log"
    then some irc_log
    else if s == "delving_topic"
    then some delving_topic
    else if s == "delving_post"
    then some delving_post
    else if s == "bip"
    then some bip
    else if s == "bolt"
    then some bolt
    else if s == "blip"
    then some blip
    else if s == "lud"
    then some lud
    else if s == "nut"
    then some nut
    else if s == "optech_newsletter"
    then some optech_newsletter
    else if s == "optech_topic"
    then some optech_topic
    else if s == "optech_blog"
    then some optech_blog
    else if s == "bitcointalk_topic"
    then some bitcointalk_topic
    else if s == "bitcointalk_post"
    then some bitcointalk_post
    else none
