-- ===== src/Model/RefType.antt =====
-- `RefType` of bkb-core/src/model.rs and the text that stands for it in the `refs` table.
use bitcoin_knowledge_base.Base.{String, Option, none, some, ◌==◌, if◌then◌else◌}

pub data RefType : Type 0 where
  mentions_issue mentions_pr fixes references_commit references_bip references_bolt : RefType
  references_blip references_lud references_nut replies_to : RefType

unfoldable pub as_str : RefType → String
as_str mentions_issue = "mentions_issue"
as_str mentions_pr = "mentions_pr"
as_str fixes = "fixes"
as_str references_commit = "references_commit"
as_str references_bip = "references_bip"
as_str references_bolt = "references_bolt"
as_str references_blip = "references_blip"
as_str references_lud = "references_lud"
as_str references_nut = "references_nut"
as_str replies_to = "replies_to"

unfoldable pub from_str : String → Option RefType
from_str s =
    if s == "mentions_issue"
    then some mentions_issue
    else if s == "mentions_pr"
    then some mentions_pr
    else if s == "fixes"
    then some fixes
    else if s == "references_commit"
    then some references_commit
    else if s == "references_bip"
    then some references_bip
    else if s == "references_bolt"
    then some references_bolt
    else if s == "references_blip"
    then some references_blip
    else if s == "references_lud"
    then some references_lud
    else if s == "references_nut"
    then some references_nut
    else if s == "replies_to"
    then some replies_to
    else none
