-- ===== src/Model/Names.antt =====
-- Reading and writing the names of the enumerations (bkb-core/src/model.rs).
use bitcoin_knowledge_base.Base.{
  String, ◌≡◌, refl, ◌↔◌, Option, some, ◌==◌, eq_iff, if◌then◌else◌, Bool-cases, inl, inr, ◌⊎◌,
  arith,
}
use bitcoin_knowledge_base.Model.SourceType
use bitcoin_knowledge_base.Model.SourceType.{SourceType}
use bitcoin_knowledge_base.Model.RefType
use bitcoin_knowledge_base.Model.RefType.{RefType}
use bitcoin_knowledge_base.Model.SyncStatus
use bitcoin_knowledge_base.Model.SyncStatus.{SyncStatus}

-- One arm of a `match` on a text.
arm {ℓ} :
    {T : Type ℓ} (name : T → String) (s key : String) (t t' : T) (rest : Option T)
    → name t ≡ key
    → (rest ≡ some t' → name t' ≡ s)
    → (if s == key then some t else rest) ≡ some t'
    → name t' ≡ s
arm name s key t t' rest same later h = elim (Bool-cases (s == key)) [
  | inl hit ↦
      let e : t ≡ t' = ground (arith, h, hit) in let k = (eq_iff s key).0 hit in cc (e, k, same)
  | inr miss ↦ later (rw miss at h)
]

source_type_written : (t : SourceType) → SourceType.from_str (SourceType.as_str t) ≡ some t
unfolding SourceType.as_str SourceType.from_str
source_type_written SourceType.forgejo_issue = refl
source_type_written SourceType.forgejo_pr = refl
source_type_written SourceType.forgejo_comment = refl
source_type_written SourceType.forgejo_review = refl
source_type_written SourceType.forgejo_review_comment = refl
source_type_written SourceType.github_issue = refl
source_type_written SourceType.github_pr = refl
source_type_written SourceType.github_comment = refl
source_type_written SourceType.github_review = refl
source_type_written SourceType.github_review_comment = refl
source_type_written SourceType.github_discussion = refl
source_type_written SourceType.github_discussion_comment = refl
source_type_written SourceType.commit = refl
source_type_written SourceType.mailing_list_msg = refl
source_type_written SourceType.irc_log = refl
source_type_written SourceType.delving_topic = refl
source_type_written SourceType.delving_post = refl
source_type_written SourceType.bip = refl
source_type_written SourceType.bolt = refl
source_type_written SourceType.blip = refl
source_type_written SourceType.lud = refl
source_type_written SourceType.nut = refl
source_type_written SourceType.optech_newsletter = refl
source_type_written SourceType.optech_topic = refl
source_type_written SourceType.optech_blog = refl
source_type_written SourceType.bitcointalk_topic = refl
source_type_written SourceType.bitcointalk_post = refl

source_type_read :
    (s : String) (t : SourceType) → SourceType.from_str s ≡ some t → SourceType.as_str t ≡ s
unfolding SourceType.as_str SourceType.from_str
source_type_read s t = arm SourceType.as_str s "forgejo_issue" SourceType.forgejo_issue t _ refl (
    arm SourceType.as_str s "forgejo_pr" SourceType.forgejo_pr t _ refl (
      arm SourceType.as_str s "forgejo_comment" SourceType.forgejo_comment t _ refl (
        arm SourceType.as_str s "forgejo_review" SourceType.forgejo_review t _ refl (
          arm SourceType.as_str s "forgejo_review_comment" SourceType.forgejo_review_comment t _
            refl
            (arm SourceType.as_str s "github_issue" SourceType.github_issue t _ refl (
              arm SourceType.as_str s "github_pr" SourceType.github_pr t _ refl (
                arm SourceType.as_str s "github_comment" SourceType.github_comment t _ refl (
                  arm SourceType.as_str s "github_review" SourceType.github_review t _ refl (
                    arm SourceType.as_str s "github_review_comment" SourceType.github_review_comment
                      t _ refl
                      (arm SourceType.as_str s "github_discussion" SourceType.github_discussion t _
                        refl
                        (arm SourceType.as_str s "github_discussion_comment"
                          SourceType.github_discussion_comment t _ refl
                          (arm SourceType.as_str s "commit" SourceType.commit t _ refl (
                            arm SourceType.as_str s "mailing_list_msg" SourceType.mailing_list_msg t
                              _ refl
                              (arm SourceType.as_str s "irc_log" SourceType.irc_log t _ refl (
                                arm SourceType.as_str s "delving_topic" SourceType.delving_topic t _
                                  refl
                                  (arm SourceType.as_str s "delving_post" SourceType.delving_post t
                                    _ refl
                                    (arm SourceType.as_str s "bip" SourceType.bip t _ refl (
                                      arm SourceType.as_str s "bolt" SourceType.bolt t _ refl (
                                        arm SourceType.as_str s "blip" SourceType.blip t _ refl (
                                          arm SourceType.as_str s "lud" SourceType.lud t _ refl (
                                            arm SourceType.as_str s "nut" SourceType.nut t _ refl (
                                              arm SourceType.as_str s "optech_newsletter"
                                                SourceType.optech_newsletter t _ refl
                                                (arm SourceType.as_str s "optech_topic"
                                                  SourceType.optech_topic t _ refl
                                                  (arm SourceType.as_str s "optech_blog"
                                                    SourceType.optech_blog t _ refl
                                                    (arm SourceType.as_str s "bitcointalk_topic"
                                                      SourceType.bitcointalk_topic t _ refl
                                                      (arm SourceType.as_str s "bitcointalk_post"
                                                        SourceType.bitcointalk_post t _ refl
                                                        (λ h. cc)))))))))))))))))))))))))))

-- A text is read as a source type exactly if it is the text of that type.
pub from_str-as_str_source :
    (s : String) (t : SourceType) → (SourceType.from_str s ≡ some t) ↔ (SourceType.as_str t ≡ s)
from_str-as_str_source s t = (source_type_read s t, λ e. rw (← e) (source_type_written t))

ref_type_written : (t : RefType) → RefType.from_str (RefType.as_str t) ≡ some t
unfolding RefType.as_str RefType.from_str
ref_type_written RefType.mentions_issue = refl
ref_type_written RefType.mentions_pr = refl
ref_type_written RefType.fixes = refl
ref_type_written RefType.references_commit = refl
ref_type_written RefType.references_bip = refl
ref_type_written RefType.references_bolt = refl
ref_type_written RefType.references_blip = refl
ref_type_written RefType.references_lud = refl
ref_type_written RefType.references_nut = refl
ref_type_written RefType.replies_to = refl

ref_type_read : (s : String) (t : RefType) → RefType.from_str s ≡ some t → RefType.as_str t ≡ s
unfolding RefType.as_str RefType.from_str
ref_type_read s t = arm RefType.as_str s "mentions_issue" RefType.mentions_issue t _ refl (
    arm RefType.as_str s "mentions_pr" RefType.mentions_pr t _ refl (
      arm RefType.as_str s "fixes" RefType.fixes t _ refl (
        arm RefType.as_str s "references_commit" RefType.references_commit t _ refl (
          arm RefType.as_str s "references_bip" RefType.references_bip t _ refl (
            arm RefType.as_str s "references_bolt" RefType.references_bolt t _ refl (
              arm RefType.as_str s "references_blip" RefType.references_blip t _ refl (
                arm RefType.as_str s "references_lud" RefType.references_lud t _ refl (
                  arm RefType.as_str s "references_nut" RefType.references_nut t _ refl (
                    arm RefType.as_str s "replies_to" RefType.replies_to t _ refl (λ h. cc))))))))))

-- A text is read as a reference type exactly if it is the text of that type.
pub from_str-as_str_ref :
    (s : String) (t : RefType) → (RefType.from_str s ≡ some t) ↔ (RefType.as_str t ≡ s)
from_str-as_str_ref s t = (ref_type_read s t, λ e. rw (← e) (ref_type_written t))

status_written : (t : SyncStatus) → SyncStatus.from_str (SyncStatus.as_str t) ≡ t
unfolding SyncStatus.as_str SyncStatus.from_str
status_written SyncStatus.pending = refl
status_written SyncStatus.running = refl
status_written SyncStatus.ok = refl
status_written SyncStatus.error = refl

-- The text of a status is read back as that status; a text of none of the four is read as `pending`.
pub from_str-as_str_status :
    (s : String) (t : SyncStatus)
    → (SyncStatus.from_str (SyncStatus.as_str t) ≡ t)
      × ((SyncStatus.as_str (SyncStatus.from_str s) ≡ s)
          ⊎ (SyncStatus.from_str s ≡ SyncStatus.pending))
unfolding SyncStatus.as_str SyncStatus.from_str
from_str-as_str_status s t =
    (status_written t, ground (arith, eq_iff s "running", eq_iff s "ok", eq_iff s "error"))
