-- ===== src/Reconcile/Lookup.antt =====
-- Reading one record and the id of the group that it belongs to (bkb-store/src/reconcile.rs: raw,
-- actual_id, canonical_id, thread).
use bitcoin_knowledge_base.Base.{
  String, ◌≡◌, Bool, true, false, not, ◌&&◌, Option, none, some, [], ◌∷◌, arith, ◌==◌, eq_iff,
  if◌then◌else◌, is_some, replace_first,
}
use bitcoin_knowledge_base.Model.SourceType.{github_issue, github_pr, forgejo_issue, forgejo_pr}
use bitcoin_knowledge_base.Model.Document.{Document}
use bitcoin_knowledge_base.Store.Tables.{Db, Alias, find_doc, alias_of}

unfoldable pub raw : Db → String → Option Document
unfolding find_doc
raw db id = find_doc id db.documents

-- The id of a pull request for the id that an issue would have.
unfoldable pub pull_id : String → String
unfolding replace_first
pull_id id =
    replace_first (replace_first id "github_issue:" "github_pr:") "forgejo_issue:" "forgejo_pr:"

-- The id of an issue for the id of a pull request.
unfoldable pub issue_id : String → String
unfolding replace_first
issue_id id =
    replace_first (replace_first id "github_pr:" "github_issue:") "forgejo_pr:" "forgejo_issue:"

unfoldable pub actual_id : Db → String → String
unfolding raw pull_id
actual_id db id =
    if is_some (raw db id)
    then id
    else if not (pull_id id == id) && is_some (raw db (pull_id id))
    then pull_id id
    else id

abbrev pub group_id : String → Option Alias → String
group_id id none = id
group_id id (some r) = r.canonical_id

unfoldable pub canonical_id : Db → String → String
unfolding actual_id alias_of
canonical_id db id = let id' = actual_id db id in group_id id' (alias_of id' db.aliases)

-- An issue or a pull request, as against its comments and reviews.
unfoldable pub thread : Document → Bool
thread doc = elim doc.source_type [
  | github_issue ↦ true
  | github_pr ↦ true
  | forgejo_issue ↦ true
  | forgejo_pr ↦ true
  | _ ↦ false
]

pub actual_id_of_raw : (db : Db) (id : String) → is_some (raw db id) ≡ true → actual_id db id ≡ id
unfolding actual_id
actual_id_of_raw db id h = rw h

-- A stored record's group is read off its own row.
pub canonical_id_of_raw :
    (db : Db) (id : String)
    → is_some (raw db id) ≡ true
    → canonical_id db id ≡ group_id id (alias_of id db.aliases)
unfolding canonical_id
canonical_id_of_raw db id h = rw (actual_id_of_raw db id h)

pub find_doc-id : (id : String) (rows : _) (d : Document) → find_doc id rows ≡ some d → d.id ≡ id
unfolding find_doc
find_doc-id id [] d h = cc
find_doc-id id (r ∷ rs) d h = ground (arith, eq_iff r.doc.id id, find_doc-id id rs d)

pub raw-id : (db : Db) (id : String) (d : Document) → raw db id ≡ some d → d.id ≡ id
unfolding raw
raw-id db id d r = find_doc-id id db.documents d r
