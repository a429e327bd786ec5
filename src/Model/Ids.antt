-- ===== src/Model/Ids.antt =====
-- Document ids take apart again (`Document::make_id` of bkb-core/src/model.rs).
use text.Mathlib.TextLemmas.{append_assoc}
use bitcoin_knowledge_base.Base.{
  String, ◌≡◌, refl, sym, ap, ◌∙◌, true, Option, none, some, append, split_once, last_segment,
  first_segment,
}
use bitcoin_knowledge_base.Base.Split.{
  first_segment-append, last_segment-append, split_once-append, lacks,
}
use bitcoin_knowledge_base.Model.SourceType
use bitcoin_knowledge_base.Model.SourceType.{SourceType}
use bitcoin_knowledge_base.Model.Names.{from_str-as_str_source}
use bitcoin_knowledge_base.Model.Document.{make_id}

as_str-lacks-colon : (t : SourceType) → lacks 58 (SourceType.as_str t) ≡ true
unfolding SourceType.as_str
as_str-lacks-colon SourceType.forgejo_issue = refl
as_str-lacks-colon SourceType.forgejo_pr = refl
as_str-lacks-colon SourceType.forgejo_comment = refl
as_str-lacks-colon SourceType.forgejo_review = refl
as_str-lacks-colon SourceType.forgejo_review_comment = refl
as_str-lacks-colon SourceType.github_issue = refl
as_str-lacks-colon SourceType.github_pr = refl
as_str-lacks-colon SourceType.github_comment = refl
as_str-lacks-colon SourceType.github_review = refl
as_str-lacks-colon SourceType.github_review_comment = refl
as_str-lacks-colon SourceType.github_discussion = refl
as_str-lacks-colon SourceType.github_discussion_comment = refl
as_str-lacks-colon SourceType.commit = refl
as_str-lacks-colon SourceType.mailing_list_msg = refl
as_str-lacks-colon SourceType.irc_log = refl
as_str-lacks-colon SourceType.delving_topic = refl
as_str-lacks-colon SourceType.delving_post = refl
as_str-lacks-colon SourceType.bip = refl
as_str-lacks-colon SourceType.bolt = refl
as_str-lacks-colon SourceType.blip = refl
as_str-lacks-colon SourceType.lud = refl
as_str-lacks-colon SourceType.nut = refl
as_str-lacks-colon SourceType.optech_newsletter = refl
as_str-lacks-colon SourceType.optech_topic = refl
as_str-lacks-colon SourceType.optech_blog = refl
as_str-lacks-colon SourceType.bitcointalk_topic = refl
as_str-lacks-colon SourceType.bitcointalk_post = refl

pub as_str_injective : (t u : SourceType) → SourceType.as_str t ≡ SourceType.as_str u → t ≡ u
as_str_injective t u e =
    let h = (from_str-as_str_source (SourceType.as_str u) t).1 e in
    let k = (from_str-as_str_source (SourceType.as_str u) u).1 refl in cc (h, k)

-- The type's text stands before the first colon of an id.
pub first_segment-make_id :
    (t : SourceType) (repo : Option String) (i : String)
    → first_segment (make_id t repo i) ":" ≡ SourceType.as_str t
unfolding make_id
first_segment-make_id t (some repo) i =
    first_segment-append ":" (SourceType.as_str t) _ (as_str-lacks-colon t)
first_segment-make_id t none i =
    first_segment-append ":" (SourceType.as_str t) i (as_str-lacks-colon t)

-- The id at the source stands behind the last colon, if it holds no colon itself.
pub last_segment-make_id :
    (t : SourceType) (repo : Option String) (i : String)
    → lacks 58 i ≡ true
    → last_segment (make_id t repo i) ":" ≡ i
unfolding make_id
last_segment-make_id t (some repo) i h = rw (← append_assoc ":" repo (append ":" i)) (
    rw (← append_assoc (SourceType.as_str t) (append ":" repo) (append ":" i))
      (last_segment-append ":" (append (SourceType.as_str t) (append ":" repo)) i h))
last_segment-make_id t none i h = last_segment-append ":" (SourceType.as_str t) i h

-- Two records of repositories with the same id have the same type, repository and source id, if no
-- colon stands in their repositories.
pub make_id_injective :
    (t u : SourceType) (r q i j : String)
    → lacks 58 r ≡ true
    → lacks 58 q ≡ true
    → make_id t (some r) i ≡ make_id u (some q) j
    → (t ≡ u) × (r ≡ q) × (i ≡ j)
unfolding make_id
make_id_injective t u r q i j hr hq e =
    let whole : (k : SourceType) (s l : String)
        → split_once (append (SourceType.as_str k) (append ":" (append s (append ":" l)))) ":"
          ≡ some (SourceType.as_str k, append s (append ":" l)) =
      λ k s l.
        split_once-append ":" (SourceType.as_str k) (append s (append ":" l))
          (as_str-lacks-colon k) in
    let outer : some (SourceType.as_str t, append r (append ":" i))
        ≡ some (SourceType.as_str u, append q (append ":" j)) =
      sym (whole t r i) ∙ ap (λ s. split_once s ":") e ∙ whole u q j in
    let inner : append r (append ":" i) ≡ append q (append ":" j) = cc outer in
    let rest : some (r, i) ≡ some (q, j) =
      sym (split_once-append ":" r i hr)
      ∙ ap (λ s. split_once s ":") inner
      ∙ split_once-append ":" q j hq in
    (as_str_injective t u (cc outer), cc rest, cc rest)
