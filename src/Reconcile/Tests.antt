-- ===== src/Reconcile/Tests.antt =====
-- A GitHub issue and its copy on Forgejo (bkb-store/src/reconcile.rs).
use bitcoin_knowledge_base.Base.{
  ◌↔◌, ◌⊎◌, String, ◌≡◌, refl, sym, ◌∙◌, Bool, true, none, some, [], ◌∷◌, All, starts_with,
  split_once, replace_first,
}
use bitcoin_knowledge_base.Model.SourceType
use bitcoin_knowledge_base.Model.SourceType.{
  SourceType, github_issue, forgejo_issue, forgejo_comment, github_comment,
}
use bitcoin_knowledge_base.Model.Document.{Document}
use bitcoin_knowledge_base.Store.Tables.{Db, find_doc, alias_of, upsert_alias}
use bitcoin_knowledge_base.Reconcile.Lookup.{
  pull_id, canonical_id_of_raw, raw, actual_id, canonical_id, thread,
}
use bitcoin_knowledge_base.Reconcile.Bind.{
  bind, bind_docs, kind_suffix, in_group, member_ids, distinct_hosts, put_members, put_alias,
  primary,
}
use bitcoin_knowledge_base.Reconcile.Bind.Merge.{IsStored}
use bitcoin_knowledge_base.Reconcile.Bind.Group.{IsGrouped, IsOneHost}
use bitcoin_knowledge_base.Reconcile.Bind.Joins.{InEither, bind-canonical_id}
use bitcoin_knowledge_base.Reconcile.Bind.Keeps.{bind-IsGrouped, bind-IsOneHost}
use bitcoin_knowledge_base.Reconcile.Observe.{reconcile}
use bitcoin_knowledge_base.Reconcile.Sound.{IsSound}
use bitcoin_knowledge_base.Reconcile.Run.{reconcile-IsSound}

abbrev pub issue : String → SourceType → String → String → Document
issue id kind repo number = record {
  id = id;
  source_type = kind;
  source_repo = some repo;
  source_id = number;
  title = some "a title";
  body = some "the same text";
  author = some "alice";
  author_id = none;
  created_at = 7;
  updated_at = none;
  parent_id = none;
  metadata = none;
  seq = none;
}

abbrev pub gh_issue : Document
gh_issue = issue "github_issue:rust-bitcoin/corepc:1" github_issue "rust-bitcoin/corepc" "1"

abbrev pub fj_issue : Document
fj_issue =
    issue "forgejo_issue:git.rust-bitcoin.org/rust-bitcoin/corepc:1" forgejo_issue
      "git.rust-bitcoin.org/rust-bitcoin/corepc" "1"

abbrev pub two_issues : Db
two_issues = record {
  documents = record { rowid = 1; doc = gh_issue } ∷ record { rowid = 2; doc = fj_issue } ∷ [];
  links = [];
  aliases = [];
  refs = [];
  next_ref = 1;
  concepts = [];
  mentions = [];
  change_log = [];
  next_seq = 1;
  sync_states = [];
}

pub two_issues-IsGrouped : IsGrouped two_issues
unfolding alias_of
two_issues-IsGrouped = record { keyed = tt; rooted = λ j r h. cc h; stored = λ j r h. cc h }

no_alias : (x : String) (d : Document) → raw two_issues x ≡ some d → canonical_id two_issues x ≡ x
unfolding alias_of
no_alias x d r = canonical_id_of_raw two_issues x (rw r)

-- With no row in the alias table every record is a group of its own.
pub two_issues-IsOneHost : IsOneHost two_issues
two_issues-IsOneHost x y dx dy rx ry tx ty e c = sym (no_alias x dx rx) ∙ c ∙ no_alias y dy ry

-- What runs in the tests.
opened : Unit {0}
unfolding bind canonical_id actual_id raw find_doc pull_id replace_first alias_of upsert_alias
    bind_docs kind_suffix in_group member_ids distinct_hosts put_members put_alias primary thread
    starts_with split_once SourceType.as_str
opened = tt

abbrev joined : Db
joined = record two_issues {
  aliases =
      record {
        doc_id = gh_issue.id;
        canonical_id = fj_issue.id;
        origin_id = fj_issue.id;
        evidence = "exact-import:v1";
      }
      ∷ record {
        doc_id = fj_issue.id;
        canonical_id = fj_issue.id;
        origin_id = fj_issue.id;
        evidence = "exact-import:v1";
      }
      ∷ [];
}

bind_issues : bind two_issues gh_issue.id fj_issue.id fj_issue.id "exact-import:v1" ≡ some joined
unfolding opened
bind_issues = refl

bind-IsGrouped_example : IsGrouped joined
bind-IsGrouped_example =
    bind-IsGrouped two_issues joined gh_issue.id fj_issue.id fj_issue.id "exact-import:v1"
      two_issues-IsGrouped bind_issues

bind-IsOneHost_example : IsOneHost joined
bind-IsOneHost_example =
    bind-IsOneHost two_issues joined gh_issue.id fj_issue.id fj_issue.id "exact-import:v1"
      two_issues-IsGrouped two_issues-IsOneHost bind_issues

abbrev pub any_date : String → Bool
any_date s = true

pub IsStored-pair : All (λ d. IsStored two_issues d.id) (gh_issue ∷ fj_issue ∷ [])
unfolding raw find_doc
IsStored-pair = (refl, (refl, tt))

reconcile-IsSound_example :
    (db' : Db) × (reconcile any_date two_issues (gh_issue ∷ fj_issue ∷ []) ≡ some db')
    × IsSound two_issues db'
reconcile-IsSound_example =
    reconcile-IsSound any_date two_issues (gh_issue ∷ fj_issue ∷ []) IsStored-pair
      two_issues-IsGrouped two_issues-IsOneHost

bind-canonical_id_example :
    (joined ≡ two_issues)
    ⊎ ((canonical_id joined gh_issue.id ≡ canonical_id joined fj_issue.id) ↔ (
        (canonical_id two_issues gh_issue.id ≡ canonical_id two_issues fj_issue.id)
        ⊎ (InEither two_issues gh_issue.id fj_issue.id gh_issue.id
            × InEither two_issues gh_issue.id fj_issue.id fj_issue.id)))
bind-canonical_id_example =
    bind-canonical_id two_issues joined gh_issue.id fj_issue.id fj_issue.id "exact-import:v1"
      gh_issue.id fj_issue.id two_issues-IsGrouped IsStored-pair.0 IsStored-pair.1.0 bind_issues
