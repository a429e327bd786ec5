-- ===== src/Reconcile/View/Tests.antt =====
-- The issue of one forge, shown with what the other forge says (bkb-store/src/reconcile.rs).
use bitcoin_knowledge_base.Base.{
  ℕ, String, ◌≡◌, refl, ◌≢◌, ◌↔◌, true, none, some, List, [], ◌∷◌, map, eq_iff, All, In,
  starts_with, split_once, rsplit_once, replace_first,
}
use bitcoin_knowledge_base.Model.RefType.{mentions_issue}
use bitcoin_knowledge_base.Model.SourceType
use bitcoin_knowledge_base.Model.Document.{Document, Reference, url}
use bitcoin_knowledge_base.Store.Tables.{Db, Alias, find_doc, alias_of, upsert_alias}
use bitcoin_knowledge_base.Reconcile.Lookup.{raw, canonical_id, actual_id, pull_id, thread}
use bitcoin_knowledge_base.Reconcile.Bind.{
  bind, bind_docs, kind_suffix, in_group, member_ids, distinct_hosts, put_members, put_alias,
  primary,
}
use bitcoin_knowledge_base.Reconcile.Bind.Merge.{IsStored}
use bitcoin_knowledge_base.Reconcile.Bind.Group.{IsGrouped}
use bitcoin_knowledge_base.Reconcile.Bind.Keeps.{bind-IsGrouped}
use bitcoin_knowledge_base.Reconcile.Tests.{any_date, gh_issue, fj_issue, two_issues}
use bitcoin_knowledge_base.Reconcile.Target.{permalink_repo}
use bitcoin_knowledge_base.Reconcile.View.{
  unseen_refs, DocumentContext, projected, with_origin, from_origin, origins, concepts,
  canonical_ref, canonical_refs, ref_key, context,
}
use bitcoin_knowledge_base.Reconcile.View.Groups.{
  ids_of, origins-members, projected-group, projected-origin,
}
use bitcoin_knowledge_base.Reconcile.View.Concepts.{context-concepts}
use bitcoin_knowledge_base.Store.References.{
  get_references, refers_to, first_rows, row_key, joined_group,
}
use bitcoin_knowledge_base.Store.Timeline.{
  Timeline, TimelineEvent, timeline, selected, tagged_rows, events_of, event_of,
}
use bitcoin_knowledge_base.Store.Timeline.Laws.{Tagged, timeline-Tagged}

abbrev tagged_issues : Db
tagged_issues = record two_issues {
  mentions = record { doc_id = gh_issue.id; concept_slug = "taproot"; confidence = 1 } ∷ [];
}

abbrev row_of : String → Alias
row_of id = record {
  doc_id = id;
  canonical_id = fj_issue.id;
  origin_id = gh_issue.id;
  evidence = "issue-mirror:v1";
}

abbrev mirrored : Db
mirrored = record tagged_issues { aliases = row_of gh_issue.id ∷ row_of fj_issue.id ∷ [] }

-- What runs in the tests.
opened : Unit {0}
unfolding bind canonical_id actual_id raw find_doc pull_id replace_first alias_of upsert_alias
    bind_docs kind_suffix in_group member_ids distinct_hosts put_members put_alias primary thread
    starts_with split_once SourceType.as_str
opened = tt

joined_mirror :
    bind tagged_issues gh_issue.id fj_issue.id gh_issue.id "issue-mirror:v1" ≡ some mirrored
unfolding opened
joined_mirror = refl

tagged_issues-IsGrouped : IsGrouped tagged_issues
unfolding alias_of
tagged_issues-IsGrouped = record { keyed = tt; rooted = λ j r h. cc h; stored = λ j r h. cc h }

mirrored-IsGrouped : IsGrouped mirrored
mirrored-IsGrouped =
    bind-IsGrouped tagged_issues mirrored gh_issue.id fj_issue.id gh_issue.id "issue-mirror:v1"
      tagged_issues-IsGrouped joined_mirror

gh-IsStored : IsStored mirrored gh_issue.id
unfolding opened
gh-IsStored = refl

fj-IsStored : IsStored mirrored fj_issue.id
unfolding opened
fj-IsStored = refl

same_group : canonical_id mirrored fj_issue.id ≡ canonical_id mirrored gh_issue.id
unfolding opened
same_group = refl

origins-members_example : In fj_issue.id (ids_of (origins mirrored gh_issue.id)) ↔ (
    IsStored mirrored fj_issue.id
    × (canonical_id mirrored fj_issue.id ≡ canonical_id mirrored gh_issue.id))
origins-members_example =
    origins-members mirrored gh_issue.id fj_issue.id mirrored-IsGrouped gh-IsStored

projected-group_example :
    (d : Document) × (projected any_date mirrored gh_issue.id ≡ some d)
    × ((projected any_date mirrored fj_issue.id ≡ some d)
        × (d.id ≡ canonical_id mirrored gh_issue.id))
projected-group_example =
    projected-group any_date mirrored gh_issue.id fj_issue.id mirrored-IsGrouped gh-IsStored
      same_group

row_found : alias_of gh_issue.id mirrored.aliases ≡ some (row_of gh_issue.id)
unfolding opened
row_found = refl

origin_found : raw mirrored gh_issue.id ≡ some gh_issue
unfolding opened
origin_found = refl

other_record : gh_issue.id ≢ fj_issue.id
other_record e = let t = (eq_iff gh_issue.id fj_issue.id).1 e in cc t

projected-origin_example :
    (d : Document) × (projected any_date mirrored gh_issue.id ≡ some d)
    × ((d.title ≡ gh_issue.title)
        × ((d.body ≡ gh_issue.body)
            × ((d.author ≡ gh_issue.author) × (d.created_at ≡ gh_issue.created_at))))
projected-origin_example =
    projected-origin any_date mirrored gh_issue.id (row_of gh_issue.id) gh_issue mirrored-IsGrouped
      row_found origin_found other_record

abbrev mention_of : String → Reference
mention_of target = record {
  ref_id = none;
  from_doc_id = gh_issue.id;
  to_doc_id = some target;
  ref_type = mentions_issue;
  to_external = none;
  context = none;
}

abbrev both : List Reference
both = mention_of gh_issue.id ∷ mention_of fj_issue.id ∷ []

context-concepts_example :
    (ctx : DocumentContext) × (context any_date mirrored fj_issue.id true ≡ some ctx)
    × (In "taproot" ctx.concepts ↔ In "taproot" (concepts mirrored fj_issue.id))
context-concepts_example =
    context-concepts any_date mirrored fj_issue.id "taproot" mirrored-IsGrouped (gh-IsStored, tt)
      fj-IsStored

abbrev one_day : ℕ → String
one_day time = "2024-05-01"

timeline-Tagged_example :
    (t : Timeline) × (timeline any_date one_day "taproot" none (some 2000000000) mirrored ≡ some t)
    × All (λ (e : TimelineEvent). Tagged mirrored "taproot" e.id) t.events
timeline-Tagged_example =
    timeline-Tagged any_date one_day "taproot" none (some 2000000000) mirrored mirrored-IsGrouped

timeline_of_group :
    map
      (λ (e : TimelineEvent). e.id)
      (elim (timeline any_date one_day "taproot" none (some 2000000000) mirrored) [
        | none ↦ []
        | some t ↦ t.events
      ])
    ≡ fj_issue.id ∷ []
unfolding opened timeline selected tagged_rows events_of event_of projected with_origin from_origin
    url
timeline_of_group = refl

abbrev referred : Db
referred = record mirrored { refs = both }

-- The two references are to records of one group, so that one is shown.
one_reference :
    map (λ (r : Reference). r.from_doc_id) (get_references fj_issue.id none 20 referred)
    ≡ fj_issue.id ∷ []
unfolding opened get_references refers_to first_rows row_key joined_group canonical_refs unseen_refs
    canonical_ref ref_key permalink_repo rsplit_once
one_reference = refl
