-- ===== src/Reconcile/Target.antt =====
-- Where a reference points (bkb-store/src/reconcile.rs: permalink_repo, permalink_id, external_id,
-- reference_target, repair_permalink_refs, repair_permalink_url).
use bitcoin_knowledge_base.Base.{
  String, Bool, true, false, not, ◌&&◌, ◌||◌, Option, none, some, List, [], ◌∷◌, ◌++◌, map, ◌==◌,
  if◌then◌else◌, option_eq, is_some, unwrap_or, ◌>>=◌, ◌>>◌, guard, filter, concat, is_empty,
  all_chars, is_ascii_digit, strip_prefix, starts_with, split_once, rsplit_once, split_char,
}
use bitcoin_knowledge_base.Model.SourceType.{
  SourceType, forgejo_issue, github_issue, forgejo_comment, forgejo_review, forgejo_review_comment,
}
use bitcoin_knowledge_base.Model.Document.{Document, Reference, make_id, metadata_url, url}
use bitcoin_knowledge_base.Repository.{forgejo_host}
use bitcoin_knowledge_base.Store.Tables.{Db}
use bitcoin_knowledge_base.Reconcile.Lookup.{raw, actual_id, canonical_id}

abbrev is_number : String → Bool
is_number s = not (is_empty s) && all_chars is_ascii_digit s

-- The five parts of a permalink's path: host, owner, name, kind, number.
unfoldable pub permalink_parts : List String → Option String
permalink_parts (host ∷ owner ∷ name ∷ kind ∷ number ∷ []) =
    if host == forgejo_host
      && (not (is_empty owner)
          && (not (is_empty name)
              && ((kind == "issues" || (kind == "pull" || kind == "pulls")) && is_number number)))
    then some (concat (host ∷ "/" ∷ owner ∷ "/" ∷ name ∷ []))
    else none
permalink_parts _ = none

-- The repository of a Forgejo link that ends in a comment's anchor. What the source cuts off the
-- path is its last two parts with their slashes.
unfoldable pub permalink_repo : String → Option String
unfolding permalink_parts
permalink_repo external = do
  path ← strip_prefix external "https://"
  halves ← split_once path "#issuecomment-"
  guard (is_number halves.1)
  permalink_parts (split_char 47 halves.0)

-- The three kinds of record that share the anchors of comments.
unfoldable pub anchored : SourceType → Bool
anchored t = elim t [
  | forgejo_comment ↦ true
  | forgejo_review ↦ true
  | forgejo_review_comment ↦ true
  | _ ↦ false
]

abbrev only : List String → Option String
only (id ∷ []) = some id
only _ = none

-- The one stored record with this link in this repository.
unfoldable pub permalink_id : Db → String → String → Option String
unfolding anchored
permalink_id db external repo = only (
    map (λ r. r.doc.id)
      (filter
        (λ r.
          option_eq (metadata_url r.doc) (some external)
          && (option_eq r.doc.source_repo (some repo) && anchored r.doc.source_type))
        db.documents))

-- The issue that `owner/name#number` names, by its group.
unfoldable pub numbered_id : Db → String → String → Option String
numbered_id db repo number =
    let kind = if starts_with repo "git.rust-bitcoin.org/" then forgejo_issue else github_issue in
    let id = actual_id db (make_id kind (some repo) number) in
    if is_some (raw db id) then some (canonical_id db id) else none

unfoldable pub external_id : Db → String → Option String
external_id db external = elim (permalink_repo external) [
  | some repo ↦ permalink_id db external repo
  | none ↦ elim (rsplit_once external "#") [
    | none ↦ none
    | some (repo, number) ↦ numbered_id db repo number
  ]
]

-- A link with an anchor goes before the recorded target, and the recorded target before the rest.
unfoldable pub plain_target : Db → Reference → Option String
plain_target db r = elim r.to_doc_id [
  | some id ↦ some (actual_id db id)
  | none ↦ r.to_external >>= external_id db
]

unfoldable pub reference_target : Db → Reference → Option String
unfolding plain_target
reference_target db r = elim (r.to_external >>= permalink_repo) [
  | some repo ↦ permalink_id db (unwrap_or r.to_external "") repo
  | none ↦ plain_target db r
]

-- `UPDATE refs SET to_doc_id = target WHERE …`
unfoldable pub retarget : (Reference → Bool) → Option String → List Reference → List Reference
retarget test target refs = map (λ r. if test r then record r { to_doc_id = target } else r) refs

unfoldable pub repair_permalink_url : Db → String → Db
unfolding retarget
repair_permalink_url db link = elim (permalink_repo link) [
  | none ↦ db
  | some repo ↦
      let target = permalink_id db link repo in
      record db {
        refs =
            retarget
              (λ r. option_eq r.to_external (some link) && not (option_eq r.to_doc_id target))
              target db.refs;
      }
]

unfoldable pub repair_all : Db → List String → Db
repair_all db [] = db
repair_all db (link ∷ links) = repair_all (repair_permalink_url db link) links

unfoldable pub externals : String → List Reference → List String
externals id [] = []
externals id (r ∷ rs) =
    let rest = externals id rs in
    if r.from_doc_id == id || option_eq r.to_doc_id (some id)
    then elim r.to_external [ none ↦ rest | some e ↦ e ∷ rest ]
    else rest

-- The links of the references from and to a record, and its own link. A link that stands twice is
-- repaired twice, to the same effect, and the order makes no difference.
unfoldable pub repair_permalink_refs : Db → Document → Db
unfolding repair_all externals
repair_permalink_refs db doc = elim (url doc) [
  | none ↦ repair_all db (externals doc.id db.refs)
  | some link ↦ repair_all db (externals doc.id db.refs ++ link ∷ [])
]
