-- ===== src/Store/Tests.antt =====
-- A page with a commit that is stored and an issue that is not (bkb-store/src/sqlite.rs).
use bitcoin_knowledge_base.Base.{
  ℕ, String, ◌≡◌, refl, sym, ◌∙◌, Bool, true, false, Option, none, some, List, [], ◌∷◌, unwrap_or,
  All, strip_prefix, starts_with, split_once, replace_first, split_char,
}
use mathlib.Core.Option
use bitcoin_knowledge_base.Model.SourceType
use bitcoin_knowledge_base.Model.SourceType.{SourceType, commit, github_issue}
use bitcoin_knowledge_base.Model.SyncStatus.{ok}
use bitcoin_knowledge_base.Model.Json
use bitcoin_knowledge_base.Model.Document.{Document, SyncState, metadata_url, url, derived_url}
use bitcoin_knowledge_base.Repository.{logical_repo, is_migrated, forgejo_identity}
use bitcoin_knowledge_base.Mirror.{parse, from_github}
use bitcoin_knowledge_base.Store.Tables.{Row, Db, Mention, insert, find_doc, alias_of}
use bitcoin_knowledge_base.Store.Writes.{
  clashes, next_rowid, log_change, put_document, repair_previous, write_document, write_references,
  delete_refs_from, delete_concept_mentions, upsert_mentions, upsert_sync_state, write_sync_state,
  get_sync_state,
}
use bitcoin_knowledge_base.Store.Pages.{
  retained, listed, replace_document, write_page, fresh_refs, fresh_mentions, commit_page,
}
use bitcoin_knowledge_base.Store.Grown.{IsConsistent}
use bitcoin_knowledge_base.Store.Reset.{reset_source_type}
use bitcoin_knowledge_base.Store.Reset.Keeps.{IsKeyedRows, if_kept, reset_source_type-IsConsistent}
use bitcoin_knowledge_base.Store.Pages.{upsert_document}
use bitcoin_knowledge_base.Store.Pages.Upsert.{upsert_document-IsConsistent}
use bitcoin_knowledge_base.Store.Pages.Keeps.{commit_page-IsConsistent}
use bitcoin_knowledge_base.Store.Pages.Immutable.{tags}
use bitcoin_knowledge_base.Store.Pages.Immutable.Pages.{commit_page-retained}
use bitcoin_knowledge_base.Reconcile.Lookup.{
  raw, pull_id, issue_id, actual_id, canonical_id, canonical_id_of_raw, thread,
}
use bitcoin_knowledge_base.Reconcile.Bind.{in_group}
use bitcoin_knowledge_base.Reconcile.Bind.Merge.{IsStored}
use bitcoin_knowledge_base.Reconcile.Target.{
  permalink_repo, permalink_parts, repair_permalink_url, repair_all, externals,
  repair_permalink_refs, retarget,
}
use bitcoin_knowledge_base.Reconcile.Observe.{
  counterpart, exact_candidates, mirror_links, observe_candidates, observe, observe_all,
  resolve_refs, bind_links, child_ids, links_of, observe_ids, settle, settle_all, reconcile,
}

abbrev pub any_date : String → Bool
any_date s = true

abbrev pub record_of : String → SourceType → String → String → Option ℕ → Document
record_of id kind repo number seq = record {
  id = id;
  source_type = kind;
  source_repo = some repo;
  source_id = number;
  title = some "a title";
  body = some "a text";
  author = some "alice";
  author_id = none;
  created_at = 7;
  updated_at = none;
  parent_id = none;
  metadata = none;
  seq = seq;
}

abbrev pub commit_doc : Option ℕ → Document
commit_doc seq = record_of "commit:bitcoin/bitcoin:c0ffee" commit "bitcoin/bitcoin" "c0ffee" seq

abbrev pub issue_doc : Option ℕ → Document
issue_doc seq = record_of "github_issue:bitcoin/bitcoin:5" github_issue "bitcoin/bitcoin" "5" seq

abbrev pub tag : Mention
tag = record { doc_id = "commit:bitcoin/bitcoin:c0ffee"; concept_slug = "taproot"; confidence = 1 }

abbrev pub stored_commit : Db
stored_commit = record {
  documents = record { rowid = 1; doc = commit_doc (some 1) } ∷ [];
  links = [];
  aliases = [];
  refs = [];
  next_ref = 1;
  concepts = record { slug = "taproot"; name = "Taproot"; category = "script"; aliases = [] } ∷ [];
  mentions = tag ∷ [];
  change_log = [];
  next_seq = 2;
  sync_states = [];
}

abbrev pub checkpoint : SyncState
checkpoint = record {
  source_id = "github:bitcoin/bitcoin";
  source_type = "github";
  source_repo = none;
  last_cursor = some "page-2";
  last_synced_at = some 8;
  next_run_at = none;
  status = ok;
  error_message = none;
  retry_count = 0;
  items_found = 2;
}

abbrev pub after_page : Db
after_page = record stored_commit {
  documents =
      record { rowid = 1; doc = commit_doc (some 1) }
      ∷ record { rowid = 2; doc = issue_doc (some 2) }
      ∷ [];
  change_log = record { seq = 2; doc_id = (issue_doc none).id; change_type = insert } ∷ [];
  next_seq = 3;
  sync_states = checkpoint ∷ [];
}

abbrev pub page : List Document
page = commit_doc none ∷ issue_doc none ∷ []

-- What runs in the tests.
opened : Unit {0}
unfolding commit_page retained write_page replace_document write_document put_document clashes
    next_rowid log_change repair_previous delete_refs_from delete_concept_mentions fresh_refs
    fresh_mentions write_references upsert_mentions write_sync_state upsert_sync_state reconcile
    observe_all observe observe_ids mirror_links parse observe_candidates exact_candidates
    counterpart settle_all settle resolve_refs retarget bind_links child_ids links_of in_group
    repair_permalink_refs repair_all externals repair_permalink_url permalink_repo permalink_parts
    logical_repo is_migrated forgejo_identity from_github url derived_url metadata_url raw find_doc
    pull_id issue_id actual_id canonical_id alias_of thread replace_first starts_with strip_prefix
    split_once split_char SourceType.as_str Json.get Json.as_str
opened = tt

pub commit_page_example :
    commit_page any_date page [] (record tag { confidence = 2 } ∷ []) checkpoint stored_commit
    ≡ some after_page
unfolding opened
commit_page_example = refl

pub stored_commit-IsConsistent : IsConsistent stored_commit
unfolding alias_of
stored_commit-IsConsistent = record {
  grouped = record { keyed = tt; rooted = λ j r h. cc h; stored = λ j r h. cc h };
  one_host = λ x y dx dy rx ry tx ty e c.
      sym (canonical_id_of_raw stored_commit x (rw rx refl))
      ∙ c
      ∙ canonical_id_of_raw stored_commit y (rw ry refl);
}

retained_commit : listed "commit:bitcoin/bitcoin:c0ffee" (retained stored_commit page) ≡ true
unfolding opened
retained_commit = refl

pub commit-IsStored : IsStored stored_commit "commit:bitcoin/bitcoin:c0ffee"
unfolding opened
commit-IsStored = refl

commit_page-IsConsistent_example :
    IsConsistent after_page
    × (All (λ (r : Row). IsStored after_page r.doc.id) stored_commit.documents
        × (Option.map
              (λ t. t.last_cursor)
              (get_sync_state checkpoint.source_id after_page.sync_states)
            ≡ some checkpoint.last_cursor))
commit_page-IsConsistent_example =
    commit_page-IsConsistent any_date page [] (record tag { confidence = 2 } ∷ []) checkpoint
      stored_commit after_page stored_commit-IsConsistent commit_page_example

commit_page-retained_example :
    (raw after_page "commit:bitcoin/bitcoin:c0ffee"
      ≡ raw stored_commit "commit:bitcoin/bitcoin:c0ffee")
    × (tags "commit:bitcoin/bitcoin:c0ffee" after_page.mentions
        ≡ tags "commit:bitcoin/bitcoin:c0ffee" stored_commit.mentions)
commit_page-retained_example =
    commit_page-retained any_date page [] (record tag { confidence = 2 } ∷ []) checkpoint
      stored_commit after_page "commit:bitcoin/bitcoin:c0ffee" stored_commit-IsConsistent
      retained_commit commit_page_example

pub stored_commit-IsKeyedRows : IsKeyedRows stored_commit.documents
unfolding find_doc
stored_commit-IsKeyedRows = (refl, tt)

abbrev pub no_pattern : String → String → Bool
no_pattern pattern id = false

reset_source_type-IsConsistent_example :
    IsConsistent (reset_source_type no_pattern "commit" ("commits:%" ∷ []) stored_commit).1
    × (raw
          (reset_source_type no_pattern "commit" ("commits:%" ∷ []) stored_commit).1
          "commit:bitcoin/bitcoin:c0ffee"
        ≡ if_kept "commit" (raw stored_commit "commit:bitcoin/bitcoin:c0ffee"))
reset_source_type-IsConsistent_example =
    reset_source_type-IsConsistent no_pattern "commit" ("commits:%" ∷ []) stored_commit
      "commit:bitcoin/bitcoin:c0ffee" stored_commit-IsKeyedRows stored_commit-IsConsistent

abbrev after_upsert : Db
after_upsert = record after_page { sync_states = [] }

upsert_document_example :
    upsert_document any_date (issue_doc none) stored_commit ≡ some after_upsert
unfolding opened upsert_document
upsert_document_example = refl

upsert_document-IsConsistent_example :
    IsConsistent after_upsert
    × ((raw after_upsert "github_issue:bitcoin/bitcoin:5"
          ≡ some
              (record (unwrap_or
                (raw stored_commit "github_issue:bitcoin/bitcoin:5")
                (issue_doc none)) {
                  title = (issue_doc none).title;
                  body = (issue_doc none).body;
                  author = (issue_doc none).author;
                  author_id = (issue_doc none).author_id;
                  updated_at = (issue_doc none).updated_at;
                  parent_id = (issue_doc none).parent_id;
                  metadata = (issue_doc none).metadata;
                  seq = some 2;
                }))
        × All (λ (r : Row). IsStored after_upsert r.doc.id) stored_commit.documents)
upsert_document-IsConsistent_example =
    upsert_document-IsConsistent any_date (issue_doc none) stored_commit after_upsert
      stored_commit-IsConsistent upsert_document_example
