-- ===== src/Reconcile/Observe.antt =====
-- Evidence that two records are one (bkb-store/src/reconcile.rs: mirror_links, counterpart,
-- fingerprint, exact_candidates, observe, reconcile). `none` is an SQL error.
use mathlib.Core.Option
use bitcoin_knowledge_base.Base.{
  ℕ, String, Bool, true, false, not, ◌&&◌, ◌||◌, Option, none, some, List, [], ◌∷◌, map, ◌==◌, eqb,
  if◌then◌else◌, option_eq, is_some, unwrap_or, ◌>>=◌, ◌>>◌, guard, length, any, all, filter,
  append, concat, is_empty, strip_prefix, starts_with, replace, trim,
}
use bitcoin_knowledge_base.Model.SourceType
use bitcoin_knowledge_base.Model.Json
use bitcoin_knowledge_base.Model.Json.{Json}
use bitcoin_knowledge_base.Model.Document.{Document}
use bitcoin_knowledge_base.Repository.{is_migrated, forgejo_identity, logical_repo}
use bitcoin_knowledge_base.Mirror
use bitcoin_knowledge_base.Mirror.{MirrorOrigin}
use bitcoin_knowledge_base.Store.Tables.{Db, Link}
use bitcoin_knowledge_base.Reconcile.Lookup.{raw, actual_id, canonical_id, issue_id, thread}
use bitcoin_knowledge_base.Reconcile.Bind.{bind, record_link, invalidate_exact, in_group}
use bitcoin_knowledge_base.Reconcile.Target.{repair_permalink_refs, retarget}

-- The type and the repository that the record's copy on the other forge has.
unfoldable pub counterpart : Document → Option (String × String)
counterpart doc = do
  stored_repo ← doc.source_repo
  let repo = logical_repo stored_repo
  guard (is_migrated repo)
  let kind = SourceType.as_str doc.source_type
  elim (strip_prefix kind "github_") [
    | some suffix ↦ some (append "forgejo_" suffix, forgejo_identity repo)
    | none ↦ do suffix ← strip_prefix kind "forgejo_"; some (append "github_" suffix, repo)
  ]

abbrev clean : Option String → String
clean body = replace (unwrap_or body "") "\r\n" "\n"

-- A field of the metadata that is there and not null.
unfoldable pub present : Option Json → String → Option Json
present metadata key = do m ← metadata; v ← Json.get m key; guard (not (Json.is_null v)); some v

-- Two fields that are both there are equal.
unfoldable pub compatible : Option Json → Option Json → Bool
compatible (some v) (some w) = Json.json_eq v w
compatible _ _ = true

-- The two records could be an original and its import.
unfoldable pub fingerprint : Document → Document → Bool
unfolding present compatible
fingerprint a b =
    if is_empty (trim (clean a.body))
      || (not (clean a.body == clean b.body) || not (eqb a.created_at b.created_at))
    then false
    else if thread a
    then (a.source_id == b.source_id) && (option_eq a.title b.title && is_some a.title)
    else all (λ key. compatible (present a.metadata key) (present b.metadata key))
        ("path" ∷ "diff_hunk" ∷ "commit_id" ∷ [])

abbrev importable : List String
importable =
    "github_issue" ∷ "github_pr" ∷ "github_comment" ∷ "github_review" ∷ "github_review_comment"
    ∷ "forgejo_issue" ∷ "forgejo_pr" ∷ "forgejo_comment" ∷ "forgejo_review"
    ∷ "forgejo_review_comment" ∷ []

unfoldable pub canonical_parent : Db → Document → Option String
canonical_parent db doc = Option.map (canonical_id db) doc.parent_id

-- A candidate agrees in its text and, below a thread, in the group of its parent.
unfoldable pub accepts : Db → Document → Document → Bool
unfolding fingerprint canonical_parent
accepts db doc other =
    fingerprint doc other
    && (thread doc
        || (is_some (canonical_parent db doc)
            && option_eq (canonical_parent db doc) (canonical_parent db other)))

candidates_from : Db → Document → List String → List Document
candidates_from db doc [] = []
candidates_from db doc (id ∷ ids) =
    let rest = candidates_from db doc ids in
    elim (raw db id) [
      | none ↦ rest
      | some other ↦ if accepts db doc other then other ∷ rest else rest
    ]

-- `SELECT id FROM documents WHERE source_type = … AND source_repo = … AND created_at = …`
imported_ids : Db → String → String → ℕ → List String
imported_ids db kind repo at =
    map (λ r. r.doc.id)
      (filter
        (λ r.
          (SourceType.as_str r.doc.source_type == kind)
          && (option_eq r.doc.source_repo (some repo) && eqb r.doc.created_at at))
        db.documents)

unfoldable pub exact_candidates : Db → Document → List Document
unfolding counterpart accepts candidates_from imported_ids
exact_candidates db doc = elim (counterpart doc) [
  | none ↦ []
  | some (kind, repo) ↦
      if any (λ k. k == kind) importable
      then candidates_from db doc (imported_ids db kind repo doc.created_at)
      else []
]

-- The record that a pair of copies is read from: the Forgejo thread, or the GitHub comment.
unfoldable pub exact_origin : Document → Document → String
exact_origin doc other =
    let kind = SourceType.as_str doc.source_type in
    if thread doc
    then (if starts_with kind "forgejo_" then doc.id else other.id)
    else if starts_with kind "github_"
    then doc.id
    else other.id

-- References by number that found no record, and those to the id of an issue that is a pull
-- request, point to a thread when it arrives.
unfoldable pub resolve_refs : Db → Document → Db
resolve_refs db doc =
    let numbered = concat (unwrap_or doc.source_repo "" ∷ "#" ∷ doc.source_id ∷ []) in
    let refs =
      retarget (λ r. option_eq r.to_external (some numbered) && not (is_some r.to_doc_id))
        (some doc.id) db.refs in
    if issue_id doc.id == doc.id then record db { refs = refs } else record db {
      refs = retarget (λ r. option_eq r.to_doc_id (some (issue_id doc.id))) (some doc.id) refs;
    }

unfoldable pub bind_links : Db → List Link → Option Db
bind_links db [] = some db
bind_links db (l ∷ ls) = do
  db' ← bind db l.doc_id l.target_id l.origin_id l.evidence
  bind_links db' ls

-- The records below a thread, under any id of its group.
unfoldable pub child_ids : Db → Document → List String
unfolding in_group
child_ids db doc =
    let group = canonical_id db doc.id in
    map (λ r. r.doc.id)
      (filter
        (λ r. elim r.doc.parent_id [
          | none ↦ false
          | some p ↦
              (p == doc.id || p == issue_id doc.id) || in_group (λ g. g == group) p db.aliases
        ])
        db.documents)

unfoldable pub links_of : Db → String → List Link
links_of db id = filter (λ l. l.target_id == id || l.doc_id == id) db.links

module _ (valid_date : String → Bool) where
  -- The thread of a mirrored comment is joined too, if it is stored.
  unfoldable pub mirror_parents : Db → Option String → Option String → Option Db
  mirror_parents db (some parent_id) (some target_id) =
      let parent = actual_id db parent_id in
      let target = actual_id db target_id in
      let primary = if starts_with parent "forgejo_" then parent else target in
      if is_some (raw db parent)
      then record_link db parent target primary "issue-mirror:v1 parent"
      else some db
  mirror_parents db (some parent_id) none = some db
  mirror_parents db none target = some db

  unfoldable pub mirror_links : Db → Document → Option Db
  unfolding mirror_parents
  mirror_links db doc = elim (Mirror.parse valid_date doc) [
    | none ↦ some db
    | some origin ↦ do
      db' ←
          record_link db doc.id (actual_id db origin.id) (actual_id db origin.id) "issue-mirror:v1"
      mirror_parents db' doc.parent_id origin.parent_id
  ]

  -- One candidate that has no other is linked; where there are several, nothing exact is kept.
  unfoldable pub observe_candidates : Db → Document → List Document → Option Db
  observe_candidates db doc [] = some db
  observe_candidates db doc (other ∷ []) =
      if eqb (length (exact_candidates db other)) 1
      then record_link db doc.id other.id (exact_origin doc other) "exact-import:v1"
      else some (invalidate_exact db other.id)
  observe_candidates db doc (_ ∷ _ ∷ _) = some (invalidate_exact db doc.id)

  unfoldable pub observe : Db → Document → Option Db
  unfolding mirror_links observe_candidates
  observe db doc = do
    db' ← mirror_links db doc
    observe_candidates db' doc (exact_candidates db' doc)

  unfoldable pub observe_all : Db → List Document → Option Db
  observe_all db [] = some db
  observe_all db (doc ∷ docs) = do
    db' ← observe (repair_permalink_refs db doc) doc
    observe_all db' docs

  unfoldable pub observe_ids : Db → List String → Option Db
  observe_ids db [] = some db
  observe_ids db (id ∷ ids) = elim (raw db id) [
    | none ↦ observe_ids db ids
    | some doc ↦ do db' ← observe db doc; observe_ids db' ids
  ]

  unfoldable pub settle : Db → Document → Option Db
  settle db doc =
      if thread doc
      then (do
        db' ← bind_links (resolve_refs db doc) (links_of (resolve_refs db doc) doc.id)
        observe_ids db' (child_ids db' doc))
      else bind_links db (links_of db doc.id)

  unfoldable pub settle_all : Db → List Document → Option Db
  settle_all db [] = some db
  settle_all db (doc ∷ docs) = do db' ← settle db doc; settle_all db' docs

  unfoldable pub reconcile : Db → List Document → Option Db
  reconcile db docs = do db' ← observe_all db docs; settle_all db' docs
